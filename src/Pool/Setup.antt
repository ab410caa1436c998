-- ===== src/Pool/Setup.antt =====
-- newContainerPool of pool.go: the slots that a new pool holds.
use code_runner_backend.Prelude.{
  ℕ, zero, suc, ◌+◌, ◌≤◌, ◌<◌, ◌≡◌, refl, subst, inl, inr, ◌⊎◌, ap, ◌∙◌, Bool, false, List, [], ◌∷◌,
  ◌++◌, Option, none, some, arith, count_if, length, length-append, if◌then◌else◌, Bool-cases,
}
use mathlib.Core.List.{append_assoc, append-nil}
use code_runner_backend.Prelude.Text.{
  Text, same, same_iff, decimal, decimal-injective, append-cancel_left,
}
use code_runner_backend.Prelude.TextMap.{TextMap, load, store, empty, load-store, load-empty}
use code_runner_backend.Prelude.Chan.{Chan, send-room, make}
use code_runner_backend.Pool.{
  ContainerSlot, LangPool, ContainerPool, make_slot, fill_idle, new_lang_pool, fill_pools,
  new_container_pool, text_at, lang_host_dir,
}
use code_runner_backend.Pool.System.{tally, idle_tally, start}

-- The slots numbered from `i` on.
unfoldable pub slots : Text → Text → ℕ → ℕ → List ContainerSlot
slots prefix dir zero i = []
slots prefix dir (suc n) i = make_slot prefix dir i ∷ slots prefix dir n (i + 1)

pub length-slots : (prefix dir : Text) (n i : ℕ) → length (slots prefix dir n i) ≡ n
unfolding slots
length-slots prefix dir zero i = refl
length-slots prefix dir (suc n) i = ap suc (length-slots prefix dir n (i + 1))

-- The loop never waits while the channel has room for its rounds.
fill_idle-slots :
    (prefix dir : Text) (n i : ℕ) (c : Chan ContainerSlot)
    → c.is_closed ≡ false
    → length c.buffer + n ≤ c.capacity
    → fill_idle prefix dir n i c ≡ some (record c { buffer = c.buffer ++ slots prefix dir n i })
unfolding fill_idle slots
fill_idle-slots prefix dir zero i c o h = rw (append-nil c.buffer)
fill_idle-slots prefix dir (suc n) i c o h =
    let slot = make_slot prefix dir i in
    let next : Chan ContainerSlot = record c { buffer = c.buffer ++ slot ∷ [] } in
    let room : length next.buffer + n ≤ c.capacity =
      omega (arith, length-append c.buffer (slot ∷ [])) in
    ground (
      arith,
      send-room slot c o (omega arith),
      fill_idle-slots prefix dir n (i + 1) next o room,
      append_assoc c.buffer (slot ∷ []) (slots prefix dir n (i + 1)),
    )

-- What a language's pool holds at the start.
unfoldable pub full_pool : TextMap Text → Text → ℕ → LangPool
full_pool images lang size = record {
  idle = record {
    buffer = slots (text_at lang images) (text_at lang lang_host_dir) size 0;
    capacity = size;
    is_closed = false;
  };
  lang = lang;
  size = size;
  image = text_at lang images;
}

new_lang_pool-full :
    (images : TextMap Text) (lang : Text) (size : ℕ)
    → new_lang_pool images lang size ≡ some (full_pool images lang size)
unfolding new_lang_pool full_pool make
new_lang_pool-full images lang size = rw (
  fill_idle-slots (text_at lang images) (text_at lang lang_host_dir) size 0 (make size) refl
      (omega arith),
  new_lang_pool,
)

-- The pool that a range over `sizes` leaves for a language, given what stood there before.
unfoldable pub configured :
    TextMap Text → Text → List (Text × ℕ) → Option LangPool → Option LangPool
configured images lang [] before = before
configured images lang ((l, size) ∷ rest) before =
    configured images lang rest (if same l lang then some (full_pool images l size) else before)

fill_pools-configured :
    (images : TextMap Text) (sizes : List (Text × ℕ)) (pools : TextMap LangPool)
    → (q : TextMap LangPool) × (fill_pools images sizes pools ≡ some q)
      × ((lang : Text) → load lang q ≡ configured images lang sizes (load lang pools))
unfolding fill_pools configured
fill_pools-configured images [] pools = (pools, refl, λ lang. refl)
fill_pools-configured images ((l, size) ∷ rest) pools =
    let lp = full_pool images l size in
    let (q, e, h) = fill_pools-configured images rest (store l lp pools) in
    (
      q,
      rw (new_lang_pool-full images l size, fill_pools) e,
      λ lang. h lang ∙ ap (configured images lang rest) (load-store l lang lp pools),
    )

-- Setting up a pool never waits on a full channel; the new pool is open, and each configured
-- language has a full channel of its numbered slots, and nothing else.
pub new_container_pool_lem :
    (sizes : List (Text × ℕ)) (images : TextMap Text)
    → (p : ContainerPool) × (new_container_pool sizes images ≡ some p)
      × (p.closed ≡ false)
      × ((lang : Text) → load lang p.pools ≡ configured images lang sizes none)
unfolding new_container_pool
new_container_pool_lem sizes images =
    let (q, e, h) = fill_pools-configured images sizes empty in
    (
      record { pools = q; closed = false },
      rw (e, new_container_pool),
      refl,
      λ lang. h lang ∙ ap (configured images lang sizes) (load-empty lang),
    )

-- A full pool, or none.
configured-cases :
    (images : TextMap Text) (lang : Text) (sizes : List (Text × ℕ)) (before : Option LangPool)
    → (configured images lang sizes before ≡ before)
      ⊎ ((n : ℕ) × (configured images lang sizes before ≡ some (full_pool images lang n)))
unfolding configured
configured-cases images lang [] before = inl refl
configured-cases images lang ((l, n) ∷ rest) before = elim (Bool-cases (same l lang)) [
  | inl hit ↦
      let here : full_pool images l n ≡ full_pool images lang n =
        ap (λ k. full_pool images k n) ((same_iff l lang).0 hit) in
      elim (configured-cases images lang rest (some (full_pool images l n))) [
        | inl e ↦ inr (n, rw hit (e ∙ ap some here))
        | inr (m, e) ↦ inr (m, rw hit e)
      ]
  | inr miss ↦ rw miss (configured-cases images lang rest before)
]

-- Two slots of one language that have the same name have the same number.
pub make_slot-injective :
    (prefix dir : Text) (i j : ℕ)
    → (make_slot prefix dir i).name ≡ (make_slot prefix dir j).name
    → i ≡ j
unfolding make_slot
make_slot-injective prefix dir i j e = decimal-injective i j (
    append-cancel_left (b'-' ∷ []) (decimal i) (decimal j)
      (append-cancel_left prefix (b'-' ∷ decimal i) (b'-' ∷ decimal j) e))

abbrev pub is_named : Text → ContainerSlot → Bool
is_named name slot = same slot.name name

count_slots_below :
    (prefix dir : Text) (n i j : ℕ)
    → i < j
    → count_if (is_named (make_slot prefix dir i).name) (slots prefix dir n j) ≡ 0
unfolding slots
count_slots_below prefix dir zero i j h = refl
count_slots_below prefix dir (suc n) i j h = ground (
  arith,
  same_iff (make_slot prefix dir j).name (make_slot prefix dir i).name,
  make_slot-injective prefix dir j i,
  count_slots_below prefix dir n i (j + 1) (omega arith),
)

-- A full pool has at most one slot of a name.
pub count_slots-le :
    (name prefix dir : Text) (n i : ℕ) → count_if (is_named name) (slots prefix dir n i) ≤ 1
unfolding slots
count_slots-le name prefix dir zero i = omega arith
count_slots-le name prefix dir (suc n) i =
    elim (Bool-cases (same (make_slot prefix dir i).name name)) [
      | inl hit ↦
          let below =
            subst (λ t. count_if (is_named t) (slots prefix dir n (i + 1)) ≡ 0)
              ((same_iff (make_slot prefix dir i).name name).0 hit)
              (count_slots_below prefix dir n i (i + 1) (omega arith)) in
          rw hit (rw below (omega arith))
      | inr miss ↦ rw miss (count_slots-le name prefix dir n (i + 1))
    ]

module _ (sizes : List (Text × ℕ)) (images : TextMap Text) (p : ContainerPool)
    (made : new_container_pool sizes images ≡ some p) where
  -- A language of a new pool has a full channel of its slots, or is not there.
  pub new_pool-cases :
      (lang : Text)
      → (load lang p.pools ≡ none)
        ⊎ ((n : ℕ) × (load lang p.pools ≡ some (full_pool images lang n)))
  new_pool-cases lang =
      let (q, e, _, h) = new_container_pool_lem sizes images in
      let same_pool : q ≡ p = ground arith in
      elim (configured-cases images lang sizes none) [
        | inl c ↦ inl (rw (← same_pool) (h lang ∙ c))
        | inr (n, c) ↦ inr (n, rw (← same_pool) (h lang ∙ c))
      ]

  -- At the start a slot of a given name is there at most once.
  pub tally-start-le : (lang name : Text) → tally lang (is_named name) (start p) ≤ 1
  unfolding tally start idle_tally full_pool
  tally-start-le lang name = elim (new_pool-cases lang) [
    | inl e ↦ rw (e, tally, idle_tally) (omega arith)
    | inr (n, e) ↦
        rw (e, tally, idle_tally)
          (omega
            (arith, count_slots-le name (text_at lang images) (text_at lang lang_host_dir) n 0))
  ]
