-- ===== src/Pool/System.antt =====
-- The pool with the goroutines that hold its slots: callers of Acquire, sends that have passed the
-- test of `closed` but have not run, and running `replenish` calls. One action runs at a time, and
-- any order of actions is allowed, so a release can meet a Close halfway.
use code_runner_backend.Prelude.{
  ℕ, zero, suc, ◌+◌, Bool, ◌&&◌, List, [], ◌∷◌, Option, none, some, count_if, if◌then◌else◌,
}
use code_runner_backend.Prelude.Text.{Text, same}
use code_runner_backend.Prelude.TextMap.{load}
use code_runner_backend.Pool.{
  ContainerSlot, ContainerPool, Acquired, got, refused, acquire_waits, acquire, Plan, discard,
  give_back, rebuild, release_plan, PutBack, back, slot_lost, put_back_waits, put_back, replenish,
  mark_closed, close_idle,
}

pub record Loan : Type 0 where
  pub lang : Text
  pub slot : ContainerSlot

pub record System : Type 0 where
  pub pool : ContainerPool
  pub held : List Loan
  pub returning : List Loan
  pub rebuilding : List Loan
  pub gone : List Loan

pub data Action : Type 0 where
  acquires : Text → Bool → Action
  releases : ℕ → Bool → Action
  sends : ℕ → Action
  rebuilds : ℕ → (ℕ → Bool) → Action
  closes : Action
  closes_idle : Text → Action

-- The i-th element, and the others.
unfoldable pub take_at {ℓ} : {A : Type ℓ} → ℕ → List A → Option (A × List A)
take_at i [] = none
take_at zero (x ∷ xs) = some (x, xs)
take_at (suc i) (x ∷ xs) = elim (take_at i xs) [ none ↦ none | some (y, ys) ↦ some (y, x ∷ ys) ]

abbrev pub after_acquire : System → Text → Acquired → System
after_acquire s lang (got slot p) = record s {
  pool = p;
  held = record { lang = lang; slot = slot } ∷ s.held;
}
after_acquire s lang (refused e) = s
after_acquire s lang acquire_waits = s

abbrev pub follow : System → Loan → Plan → System
follow s l discard = record s { gone = l ∷ s.gone }
follow s l give_back = record s { returning = l ∷ s.returning }
follow s l rebuild = record s { rebuilding = l ∷ s.rebuilding }

abbrev pub begin_release : System → Bool → Option (Loan × List Loan) → System
begin_release s healthy none = s
begin_release s healthy (some (l, rest)) =
    follow (record s { held = rest }) l (release_plan s.pool l.lang healthy)

-- A send that waits stays where it is.
abbrev pub after_send : System → Loan → List Loan → PutBack → System
after_send s l rest (back p) = record s { pool = p; returning = rest }
after_send s l rest slot_lost = record s { returning = rest; gone = l ∷ s.gone }
after_send s l rest put_back_waits = s

abbrev pub run_send : System → Option (Loan × List Loan) → System
run_send s none = s
run_send s (some (l, rest)) = after_send s l rest (put_back s.pool l.lang l.slot)

abbrev pub run_rebuild : System → (ℕ → Bool) → Option (Loan × List Loan) → System
run_rebuild s starts none = s
run_rebuild s starts (some (l, rest)) =
    if replenish s.pool starts
    then record s { rebuilding = rest; returning = l ∷ s.returning }
    else record s { rebuilding = rest; gone = l ∷ s.gone }

unfoldable pub step : System → Action → System
step s (acquires lang cancelled) = after_acquire s lang (acquire s.pool lang cancelled)
step s (releases i healthy) = begin_release s healthy (take_at i s.held)
step s (sends i) = run_send s (take_at i s.returning)
step s (rebuilds i starts) = run_rebuild s starts (take_at i s.rebuilding)
step s closes = record s { pool = mark_closed s.pool }
step s (closes_idle lang) = record s { pool = close_idle lang s.pool }

unfoldable pub run : System → List Action → System
run s [] = s
run s (a ∷ rest) = run (step s a) rest

unfoldable pub start : ContainerPool → System
start p = record { pool = p; held = []; returning = []; rebuilding = []; gone = [] }

-- How many idle slots of a language pass a test.
unfoldable pub idle_tally : Text → (ContainerSlot → Bool) → ContainerPool → ℕ
idle_tally lang p pool = elim (load lang pool.pools) [
  | none ↦ 0
  | some lp ↦ count_if p lp.idle.buffer
]

abbrev pub is_loan : Text → (ContainerSlot → Bool) → Loan → Bool
is_loan lang p l = same l.lang lang && p l.slot

-- The slots of a language that pass a test, wherever they are.
unfoldable pub tally : Text → (ContainerSlot → Bool) → System → ℕ
tally lang p s =
    idle_tally lang p s.pool
    + count_if (is_loan lang p) s.held
    + count_if (is_loan lang p) s.returning
    + count_if (is_loan lang p) s.rebuilding
    + count_if (is_loan lang p) s.gone
