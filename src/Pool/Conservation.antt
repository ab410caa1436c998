-- ===== src/Pool/Conservation.antt =====
-- pool.go: no slot is lost from view, made up or handed to two goroutines at once.
use code_runner_backend.Prelude.{
  ℕ, zero, suc, ◌+◌, ◌≡◌, refl, inl, inr, ◌⊎◌, ap, ◌∙◌, Bool, ◌&&◌, List, [], ◌∷◌, ◌++◌, some,
  arith, count_if, count_if-append, if◌then◌else◌, Option-cases,
}
use code_runner_backend.Prelude.Text.{Text, same, same_iff}
use code_runner_backend.Prelude.TextMap.{load, load-store}
use code_runner_backend.Prelude.Chan.{Chan, send, receive, close}
use code_runner_backend.Pool.{
  ContainerSlot, LangPool, ContainerPool, Acquired, got, refused, acquire_waits, acquire, PutBack,
  back, slot_lost, put_back_waits, put_back, mark_closed, close_idle, set_idle, select_slot,
}
use code_runner_backend.Pool.System.{
  Loan, System, Action, acquires, releases, sends, rebuilds, closes, closes_idle, take_at,
  after_acquire, after_send, step, run, idle_tally, is_loan, tally,
}

abbrev pub bit : Bool → ℕ
bit b = if b then 1 else 0

pub take_at-count {ℓ} :
    {A : Type ℓ} (p : A → Bool) (i : ℕ) (xs : List A) (x : A) (ys : List A)
    → take_at i xs ≡ some (x, ys)
    → count_if p xs ≡ bit (p x) + count_if p ys
unfolding take_at
take_at-count p i [] x ys e = cc
take_at-count p zero (z ∷ zs) x ys e = ground arith
take_at-count p (suc i) (z ∷ zs) x ys e = elim (Option-cases (take_at i zs)) [
  | inl missing ↦ ground arith
  | inr ((w, ws), found) ↦ ground (arith, take_at-count p i zs w ws found)
]

select_slot-got :
    (pool : ContainerPool) (l : Text) (lp : LangPool) (cancelled : Bool) (slot : ContainerSlot)
    (q : ContainerPool) (c : Chan ContainerSlot) (buffer : List ContainerSlot)
    → c.buffer ≡ buffer
    → select_slot pool l lp cancelled (receive c) ≡ got slot q
    → (rest : List ContainerSlot) × (buffer ≡ slot ∷ rest)
      × (q ≡ set_idle l lp (record c { buffer = rest }) pool)
unfolding receive
select_slot-got pool l lp cancelled slot q c [] b e = ground arith
select_slot-got pool l lp cancelled slot q c (x ∷ xs) b e = (xs, ground arith, ground arith)

-- What a successful Acquire did.
pub acquire-got :
    (pool : ContainerPool) (l : Text) (cancelled : Bool) (slot : ContainerSlot) (q : ContainerPool)
    → acquire pool l cancelled ≡ got slot q
    → (lp : LangPool) × (rest : List ContainerSlot) × (load l pool.pools ≡ some lp)
      × (lp.idle.buffer ≡ slot ∷ rest)
      × (q ≡ set_idle l lp (record lp.idle { buffer = rest }) pool)
unfolding acquire
acquire-got pool l cancelled slot q e = elim (Option-cases (load l pool.pools)) [
  | inl missing ↦ absurd (ground arith)
  | inr (lp, found) ↦
      let (rest, b, r) =
        select_slot-got pool l lp cancelled slot q lp.idle lp.idle.buffer refl (ground arith) in
      (lp, rest, found, b, r)
]

pub acquire-cases :
    (r : Acquired)
    → ((slot : ContainerSlot) × (q : ContainerPool) × (r ≡ got slot q))
      ⊎ ((s : System) (l : Text) → after_acquire s l r ≡ s)
acquire-cases (got slot q) = inl (slot, q, refl)
acquire-cases (refused e) = inr (λ s l. refl)
acquire-cases acquire_waits = inr (λ s l. refl)

pub put_back-cases :
    (r : PutBack) → ((q : ContainerPool) × (r ≡ back q)) ⊎ ((r ≡ slot_lost) ⊎ (r ≡ put_back_waits))
put_back-cases (back q) = inl (q, refl)
put_back-cases slot_lost = inr (inl refl)
put_back-cases put_back_waits = inr (inr refl)

module _ (lang : Text) (p : ContainerSlot → Bool) where
  acquire-tally :
      (pool : ContainerPool) (l : Text) (cancelled : Bool) (slot : ContainerSlot)
      (q : ContainerPool)
      → acquire pool l cancelled ≡ got slot q
      → idle_tally lang p pool ≡ idle_tally lang p q + bit (same l lang && p slot)
  unfolding idle_tally
  acquire-tally pool l cancelled slot q e =
      let (lp, rest, found, b, r) = acquire-got pool l cancelled slot q e in
      ground (
        arith,
        same_iff l lang,
        load-store l lang (record lp { idle = record lp.idle { buffer = rest } }) pool.pools,
      )

  put_back-tally :
      (pool : ContainerPool) (l : Text) (slot : ContainerSlot) (q : ContainerPool)
      → put_back pool l slot ≡ back q
      → idle_tally lang p q ≡ idle_tally lang p pool + bit (same l lang && p slot)
  unfolding put_back idle_tally send
  put_back-tally pool l slot q e = elim (Option-cases (load l pool.pools)) [
    | inl missing ↦ ground arith
    | inr (lp, found) ↦ ground (
      arith,
      same_iff l lang,
      load-store l lang
          (record lp { idle = record lp.idle { buffer = lp.idle.buffer ++ slot ∷ [] } }) pool.pools,
      count_if-append p lp.idle.buffer (slot ∷ []),
    )
  ]

  close_idle-tally :
      (l : Text) (pool : ContainerPool)
      → idle_tally lang p (close_idle l pool) ≡ idle_tally lang p pool
  unfolding close_idle idle_tally close
  close_idle-tally l pool = elim (Option-cases (load l pool.pools)) [
    | inl missing ↦ ground arith
    | inr (lp, found) ↦
        ground (
          arith,
          same_iff l lang,
          load-store l lang (record lp { idle = close lp.idle }) pool.pools,
        )
  ]

  mark_closed-tally :
      (s : System) → tally lang p (record s { pool = mark_closed s.pool }) ≡ tally lang p s
  unfolding tally idle_tally mark_closed
  mark_closed-tally s = refl

  send-tally :
      (s : System) (i : ℕ) (l : Loan) (rest : List Loan)
      → take_at i s.returning ≡ some (l, rest)
      → tally lang p (after_send s l rest (put_back s.pool l.lang l.slot)) ≡ tally lang p s
  unfolding tally
  send-tally s i l rest e = elim (put_back-cases (put_back s.pool l.lang l.slot)) [
    | inl (q, b) ↦ rw b (
        ground (
          arith,
          put_back-tally s.pool l.lang l.slot q b,
          take_at-count (is_loan lang p) i s.returning l rest e,
        ))
    | inr (inl b) ↦ rw b (ground (arith, take_at-count (is_loan lang p) i s.returning l rest e))
    | inr (inr b) ↦ rw b refl
  ]

  -- Each action moves slots between the lists and the channel, and the tally stays.
  pub step-tally : (s : System) (a : Action) → tally lang p (step s a) ≡ tally lang p s
  unfolding step tally
  step-tally s (acquires l cancelled) = elim (acquire-cases (acquire s.pool l cancelled)) [
    | inl (slot, q, e) ↦ rw (e, step) (ground (arith, acquire-tally s.pool l cancelled slot q e))
    | inr e ↦ ap (tally lang p) (e s l)
  ]
  step-tally s (releases i healthy) = elim (Option-cases (take_at i s.held)) [
    | inl e ↦ ground arith
    | inr ((l, rest), e) ↦ ground (arith, take_at-count (is_loan lang p) i s.held l rest)
  ]
  step-tally s (sends i) = elim (Option-cases (take_at i s.returning)) [
    | inl e ↦ ground arith
    | inr ((l, rest), e) ↦ rw (e, step) (send-tally s i l rest e)
  ]
  step-tally s (rebuilds i starts) = elim (Option-cases (take_at i s.rebuilding)) [
    | inl e ↦ ground arith
    | inr ((l, rest), e) ↦ ground (arith, take_at-count (is_loan lang p) i s.rebuilding l rest)
  ]
  step-tally s closes = mark_closed-tally s
  step-tally s (closes_idle l) = ground (arith, close_idle-tally l s.pool)

  -- In any history and for any test of slots, the slots of a language that pass it are as many as at
  -- the start, counted over the channel, the callers, the pending sends, the running rebuilds and
  -- the slots given up.
  pub run-tally :
      (s : System) (actions : List Action) → tally lang p (run s actions) ≡ tally lang p s
  unfolding run
  run-tally s [] = refl
  run-tally s (a ∷ rest) = run-tally (step s a) rest ∙ step-tally s a
