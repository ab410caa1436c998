-- ===== src/Prompt/Joined.antt =====
-- sections.go: the closing tags of texts that are put one behind the other.
use mathlib.Core.List.{reverse, reverse-append, reverse-reverse}
use code_runner_backend.Prelude.{
  ℕ, ◌+◌, ◌≡◌, refl, ◌⊎◌, true, [], ◌∷◌, ◌++◌, Option, none, some, arith, inl, inr, Option-cases,
  Bool-cases,
}
use code_runner_backend.Prelude.Text.{Text, is_space, trim_left, trim_space}
use code_runner_backend.Prompt.Tags.{
  Tag, tag_name, fold, is_blank, skip_blank, match_name, match_end, match_close_name, match_close,
  match_at, count_tags,
}
use code_runner_backend.Prompt.Neutral.{found, upto}
use code_runner_backend.Prompt.Scan.{IsName, tag_name-IsName, match_close-found}

upto-append : (r v : Text) → upto (r ++ b'<' ∷ v) ≡ upto r
upto-append [] v = refl
upto-append (c ∷ r) v = ground (arith, upto-append r v)

-- A closing tag does not reach over a `<`.
pub count_tags-append_tag :
    (tag : Tag) (u v : Text)
    → count_tags (match_close tag) (u ++ b'<' ∷ v)
      ≡ count_tags (match_close tag) u + count_tags (match_close tag) (b'<' ∷ v)
unfolding count_tags match_at
count_tags-append_tag tag [] v = omega arith
count_tags-append_tag tag (c ∷ u) v = ground (
  arith,
  count_tags-append_tag tag u v,
  match_close-found tag u,
  match_close-found tag (u ++ b'<' ∷ v),
  upto-append u v,
)

-- White space behind a text, as TrimSpace takes it off, completes no closing tag.
module _ (d : ℕ) (space : is_space d ≡ true) where
  skip_blank-space :
      (s : Text)
      → (skip_blank s ≡ [] × skip_blank (s ++ d ∷ []) ≡ [])
        ⊎ (skip_blank (s ++ d ∷ []) ≡ skip_blank s ++ d ∷ [])
  unfolding skip_blank is_blank is_space
  skip_blank-space [] = ground (arith, space)
  skip_blank-space (c ∷ s) = ground (arith, skip_blank-space s)

  abbrev with_space : Option (Text × Text) → Option (Text × Text)
  with_space none = none
  with_space (some (n, t)) = some (n, t ++ d ∷ [])

  match_name-space :
      (name s : Text) → IsName name → match_name name (s ++ d ∷ []) ≡ with_space (match_name name s)
  unfolding match_name fold is_space
  match_name-space [] s h = refl
  match_name-space (p ∷ name) [] h = ground (arith, space)
  match_name-space (p ∷ name) (c ∷ s) h = ground (arith, match_name-space name s)

  match_end-space :
      (t : Text) → found (match_end (skip_blank (t ++ d ∷ []))) ≡ found (match_end (skip_blank t))
  unfolding match_end is_space
  match_end-space t = elim (skip_blank-space t) [
    | inl e ↦ ground (arith, e)
    | inr e ↦ go (skip_blank t) e
  ]
    where
      go :
          (s : Text)
          → skip_blank (t ++ d ∷ []) ≡ s ++ d ∷ []
          → found (match_end (skip_blank (t ++ d ∷ []))) ≡ found (match_end s)
      go [] e = ground (arith, e, space)
      go (c ∷ s) e = ground (arith, e)

  match_close_name-space :
      (tag : Tag) (s : Text)
      → found (match_close_name tag (s ++ d ∷ [])) ≡ found (match_close_name tag s)
  unfolding match_close_name
  match_close_name-space tag s = elim (skip_blank-space s) [
    | inl e ↦ ground (arith, e)
    | inr e ↦ elim (Option-cases (match_name (tag_name tag) (skip_blank s))) [
      | inl f ↦
          ground (arith, e, match_name-space (tag_name tag) (skip_blank s) (tag_name-IsName tag))
      | inr ((n, t), f) ↦ ground (
        arith,
        e,
        match_name-space (tag_name tag) (skip_blank s) (tag_name-IsName tag),
        match_end-space t,
      )
    ]
  ]

  match_close-space :
      (tag : Tag) (s : Text) → found (match_close tag (s ++ d ∷ [])) ≡ found (match_close tag s)
  unfolding match_close is_space
  match_close-space tag [] = ground (arith, space)
  match_close-space tag (c ∷ s) = ground (arith, match_close_name-space tag s)

  pub count_tags-space :
      (tag : Tag) (s : Text)
      → count_tags (match_close tag) (s ++ d ∷ []) ≡ count_tags (match_close tag) s
  unfolding count_tags match_at is_space
  count_tags-space tag [] = ground (arith, space)
  count_tags-space tag (c ∷ s) = ground (arith, count_tags-space tag s, match_close-space tag s)

count_tags-trim_left :
    (tag : Tag) (s : Text)
    → count_tags (match_close tag) (trim_left s) ≡ count_tags (match_close tag) s
unfolding count_tags match_at trim_left is_space
count_tags-trim_left tag [] = refl
count_tags-trim_left tag (c ∷ s) = ground (arith, count_tags-trim_left tag s)

count_tags-trim_right :
    (tag : Tag) (r : Text)
    → count_tags (match_close tag) (reverse (trim_left r))
      ≡ count_tags (match_close tag) (reverse r)
unfolding trim_left
count_tags-trim_right tag [] = refl
count_tags-trim_right tag (d ∷ r) = elim (Bool-cases (is_space d)) [
  | inl e ↦ ground (
    arith,
    count_tags-trim_right tag r,
    reverse-append (d ∷ []) r,
    count_tags-space d e tag (reverse r),
  )
  | inr e ↦ ground arith
]

-- TrimSpace keeps the closing tags.
pub count_tags-trim_space :
    (tag : Tag) (s : Text)
    → count_tags (match_close tag) (trim_space s) ≡ count_tags (match_close tag) s
unfolding trim_space
count_tags-trim_space tag s = grind (
  arith,
  count_tags-trim_right tag (reverse (trim_left s)),
  count_tags-trim_left tag s,
  reverse-reverse (trim_left s),
)
