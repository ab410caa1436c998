-- ===== src/Pool/Places.antt =====
-- pool.go: where a container is.
use code_runner_backend.Prelude.{
  ℕ, zero, suc, ◌+◌, ◌≤◌, ◌≡◌, ◌≢◌, refl, sym, ◌∙◌, inl, inr, ◌⊎◌, Bool, true, false, not, ◌&&◌,
  any, List, [], ◌∷◌, ◌++◌, some, arith, count_if, Bool-cases,
}
use code_runner_backend.Prelude.Text.{Text, same, same_iff, contains_char, decimal}
use code_runner_backend.Prelude.Digits.{contains_char-append, decimal_free}
use code_runner_backend.Prelude.TextMap.{TextMap}
use code_runner_backend.Pool.{ContainerPool, make_slot, new_container_pool, text_at, lang_host_dir}
use code_runner_backend.Pool.System.{System, Action, run, start, tally, idle_tally}
use code_runner_backend.Pool.Conservation.{run-tally}
use code_runner_backend.Pool.Setup.{new_pool-cases, full_pool, slots, is_named, tally-start-le}

-- The places where a container of this name stands, over the pools of some languages and the loans
-- from them.
unfoldable pub places : List Text → Text → System → ℕ
places [] name s = 0
places (lang ∷ langs) name s = tally lang (is_named name) s + places langs name s

-- No two of the languages name their containers alike.
unfoldable pub names_differ : TextMap Text → List Text → Bool
names_differ images [] = true
names_differ images (lang ∷ langs) =
    not (any (λ other. same (text_at lang images) (text_at other images)) langs)
    && names_differ images langs

run-places :
    (langs : List Text) (name : Text) (s : System) (actions : List Action)
    → places langs name (run s actions) ≡ places langs name s
unfolding places
run-places [] name s actions = refl
run-places (lang ∷ langs) name s actions =
    omega (arith, run-tally lang (is_named name) s actions, run-places langs name s actions)

no_dash : (t : Text) (i : ℕ) (q : Text) → q ++ b'-' ∷ t ≢ decimal i
unfolding contains_char
no_dash t i q e = ground (arith, contains_char-append b'-' q (b'-' ∷ t), decimal_free b'-' refl i)

-- The name of a container says which prefix it has.
prefix_unique : (p q : Text) (i j : ℕ) → p ++ b'-' ∷ decimal i ≡ q ++ b'-' ∷ decimal j → p ≡ q
prefix_unique [] [] i j e = refl
prefix_unique [] (c ∷ q) i j e = absurd (no_dash (decimal j) i q (cc))
prefix_unique (c ∷ p) [] i j e = absurd (no_dash (decimal i) j p (cc))
prefix_unique (c ∷ p) (d ∷ q) i j e =
    let rest = prefix_unique p q i j (cc) in let first : c ≡ d = cc in rw (first, rest) refl

-- A slot of this name has its prefix in it.
abbrev HasPrefix : Text → Text → Type 0
HasPrefix prefix name = (i : ℕ) × (prefix ++ b'-' ∷ decimal i ≡ name)

slots-HasPrefix :
    (name prefix dir : Text) (n i : ℕ)
    → (count_if (is_named name) (slots prefix dir n i) ≡ 0) ⊎ HasPrefix prefix name
unfolding slots make_slot
slots-HasPrefix name prefix dir zero i = inl refl
slots-HasPrefix name prefix dir (suc n) i =
    elim (Bool-cases (is_named name (make_slot prefix dir i))) [
      | inl hit ↦ inr (i, (same_iff (prefix ++ b'-' ∷ decimal i) name).0 hit)
      | inr miss ↦ elim (slots-HasPrefix name prefix dir n (i + 1)) [
        | inl e ↦ inl (rw miss e)
        | inr h ↦ inr h
      ]
    ]

module _ (sizes : List (Text × ℕ)) (images : TextMap Text) (p : ContainerPool)
    (made : new_container_pool sizes images ≡ some p) where
  tally-start-HasPrefix :
      (lang name : Text)
      → (tally lang (is_named name) (start p) ≡ 0) ⊎ HasPrefix (text_at lang images) name
  unfolding tally idle_tally start full_pool
  tally-start-HasPrefix lang name = elim (new_pool-cases sizes images p made lang) [
    | inl e ↦ inl (rw (tally, idle_tally, e) refl)
    | inr (n, e) ↦
        elim (slots-HasPrefix name (text_at lang images) (text_at lang lang_host_dir) n 0) [
          | inl f ↦ inl (rw (tally, idle_tally, e) (omega (arith, f)))
          | inr h ↦ inr h
        ]
  ]

  others-absent :
      (lang : Text) (langs : List Text) (name : Text)
      → HasPrefix (text_at lang images) name
      → any (λ other. same (text_at lang images) (text_at other images)) langs ≡ false
      → places langs name (start p) ≡ 0
  unfolding places
  others-absent lang [] name h d = refl
  others-absent lang (other ∷ langs) name h d = elim (tally-start-HasPrefix other name) [
    | inl e ↦ omega (arith, e, others-absent lang langs name h (ground arith))
    | inr (j, f) ↦
        let one = text_at lang images in
        let two = text_at other images in
        let equal = (same_iff one two).1 (prefix_unique one two h.0 j (h.1 ∙ sym f)) in
        absurd (ground (arith, d, equal))
  ]

  places-start-le :
      (langs : List Text) (name : Text)
      → names_differ images langs ≡ true
      → places langs name (start p) ≤ 1
  unfolding places names_differ
  places-start-le [] name d = omega arith
  places-start-le (lang ∷ langs) name d = elim (tally-start-HasPrefix lang name) [
    | inl e ↦ omega (arith, e, places-start-le langs name (ground arith))
    | inr h ↦ omega (
      arith,
      tally-start-le sizes images p made lang name,
      others-absent lang langs name h (ground arith),
    )
  ]

  -- After any history of a new pool, a container stands in one place at most, over any languages
  -- whose containers are named differently: idle in a channel, with one caller, in one pending send,
  -- in one rebuild, or given up.
  pub one_place :
      (actions : List Action) (langs : List Text) (name : Text)
      → names_differ images langs ≡ true
      → places langs name (run (start p) actions) ≤ 1
  one_place actions langs name d =
      rw (run-places langs name (start p) actions) (places-start-le langs name d)
