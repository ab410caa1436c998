-- ===== src/Prompt/Neutral.antt =====
-- sections.go: what a matcher of a tag looks at, and that one pass over a text removes the tags that
-- it is for and makes no others.
use code_runner_backend.Prelude.{
  ℕ, zero, suc, ◌-◌, ◌≡◌, refl, Bool, true, false, [], ◌∷◌, ◌++◌, Option, none, some, if◌then◌else◌,
  ◌==◌, length, arith, inl, inr, Option-cases,
}
use code_runner_backend.Prelude.Text.{Text, contains_char}
use code_runner_backend.Prompt.Tags.{match_at, replace_from, count_tags}

abbrev pub found : {A : Type 0} → Option A → Bool
found none = false
found (some _) = true

-- The text up to the next `<`.
abbrev pub upto : Text → Text
upto [] = []
upto (c ∷ s) = let rest = upto s in if c == b'<' then [] else c ∷ rest

-- What makes `m` a matcher whose matches end with a `>` and are replaced by a text without `<`.
abbrev pub EndsTag : (Text → Option (Text × Text)) → Type 0
EndsTag m =
    (s w rest : Text)
    → m s ≡ some (w, rest)
    → (contains_char b'>' s ≡ true) × (contains_char b'<' w ≡ false)

module _ (m : Text → Option (Text × Text)) where
  pub upto-replace : (s : Text) → upto (replace_from m 0 s) ≡ upto s
  unfolding replace_from match_at
  upto-replace [] = refl
  upto-replace (c ∷ s) = elim (Option-cases (match_at m c s)) [
    | inl e ↦ ground (arith, upto-replace s)
    | inr ((w, rest), e) ↦ ground arith
  ]

  pub contains_end-replace :
      EndsTag m
      → (s : Text) → contains_char b'>' (replace_from m 0 s) ≡ true
      → contains_char b'>' s ≡ true
  unfolding replace_from match_at contains_char
  contains_end-replace h [] k = k
  contains_end-replace h (c ∷ s) k = elim (Option-cases (match_at m c s)) [
    | inl e ↦ ground (arith, contains_end-replace h s)
    | inr ((w, rest), e) ↦ ground (arith, h s w rest)
  ]

pub count_tags-append :
    (m : Text → Option (Text × Text)) (w v : Text)
    → contains_char b'<' w ≡ false
    → count_tags m (w ++ v) ≡ count_tags m v
unfolding count_tags match_at contains_char
count_tags-append m [] v h = refl
count_tags-append m (c ∷ w) v h = ground (arith, count_tags-append m w v)

-- A pass with `m`, and what it does to the tags that `at` finds.
module _ (m at : Text → Option (Text × Text)) where
  -- Where the pass leaves a `<`, `at` finds nothing.
  abbrev pub Unhit : Text → Type 0
  Unhit [] = Unit
  Unhit (c ∷ s) = (match_at m c s ≡ none → match_at at c s ≡ none) × Unhit s

  -- The pass does not make a tag of what it leaves, and what it puts in is none.
  abbrev pub Harmless : Type 0
  Harmless =
      ((s : Text) → found (at (replace_from m 0 s)) ≡ true → found (at s) ≡ true)
      × ((s w rest v : Text) → m s ≡ some (w, rest) → at (w ++ v) ≡ none)

  pub count_tags-replace_from :
      EndsTag m → Harmless → (n : ℕ) (s : Text) → Unhit s → count_tags at (replace_from m n s) ≡ 0
  unfolding replace_from count_tags match_at
  count_tags-replace_from h k n [] u = refl
  count_tags-replace_from h k (suc n) (c ∷ s) u = count_tags-replace_from h k n s u.1
  count_tags-replace_from h k zero (c ∷ s) u = elim (Option-cases (match_at m c s)) [
    | inl e ↦ ground (arith, count_tags-replace_from h k 0 s u.1, u.0 e, k.0 s)
    | inr ((w, rest), e) ↦
        let v = replace_from m (length s - length rest) s in
        ground (
          arith,
          h s w rest,
          k.1 s w rest v,
          count_tags-append at w v,
          count_tags-replace_from h k (length s - length rest) s u.1,
        )
  ]
