-- ===== src/Prompt/Put.antt =====
-- sections.go: what the replacement puts into a text is no reserved tag.
use code_runner_backend.Prelude.{
  ℕ, ◌≡◌, refl, ◌⊎◌, true, false, [], ◌∷◌, ◌++◌, none, some, subst, ◌==◌, leb, arith, inl, inr,
  Option-cases, Bool-cases,
}
use mathlib.Core.List.{append_assoc}
use code_runner_backend.Prelude.Text.{Text, codes}
use code_runner_backend.Prompt.Tags.{
  Tag, untrusted_article, untrusted_code_block, tag_name, fold, is_blank, skip_blank, match_name,
  at_boundary, is_word, match_head, match_open, match_end, match_close_name, match_close,
}
use code_runner_backend.Prompt.Neutral.{found}
use code_runner_backend.Prompt.Scan.{IsName, tag_name-IsName, match_close_name-parts}

pub opening_put :
    (tag at : Tag) (v : Text) → match_open at ((tag_name tag ++ codes "_>") ++ v) ≡ none
unfolding match_open match_head match_name skip_blank at_boundary fold is_blank is_word
opening_put untrusted_article untrusted_article v = refl
opening_put untrusted_article untrusted_code_block v = refl
opening_put untrusted_code_block untrusted_article v = refl
opening_put untrusted_code_block untrusted_code_block v = refl

pub closing_no_opening : (at : Tag) (v : Text) → match_open at (b'/' ∷ v) ≡ none
unfolding match_open match_head match_name skip_blank at_boundary fold is_blank is_word
closing_no_opening untrusted_article v = refl
closing_no_opening untrusted_code_block v = refl

-- What is spelled like one name is found by another where that name is.
match_name-spelled :
    (name other s n t z : Text)
    → IsName other
    → match_name other s ≡ some (n, t)
    → found (match_name name (n ++ z)) ≡ found (match_name name (other ++ z))
unfolding match_name
match_name-spelled [] other s n t z h e = refl
match_name-spelled (p ∷ name) [] s n t z h e = ground arith
match_name-spelled (p ∷ name) (q ∷ other) [] n t z h e = absurd (cc)
match_name-spelled (p ∷ name) (q ∷ other) (c ∷ s) n t z h e =
    elim (Option-cases (match_name other s)) [
      | inl f ↦ ground arith
      | inr ((n', t'), f) ↦ ground (arith, match_name-spelled name other s n' t' z)
    ]

match_name-again :
    (name s n t z : Text) → match_name name s ≡ some (n, t) → match_name name (n ++ z) ≡ some (n, z)
unfolding match_name
match_name-again [] s n t z e = ground arith
match_name-again (p ∷ name) [] n t z e = absurd (cc)
match_name-again (p ∷ name) (c ∷ s) n t z e = elim (Option-cases (match_name name s)) [
  | inl f ↦ ground arith
  | inr ((n', t'), f) ↦ ground (arith, match_name-again name s n' t' z)
]

skip_blank-name_from :
    (p : ℕ) (name s n t z : Text)
    → leb b'_' p ≡ true
    → match_name (p ∷ name) s ≡ some (n, t)
    → skip_blank (n ++ z) ≡ n ++ z
unfolding skip_blank is_blank match_name fold
skip_blank-name_from p name [] n t z h e = absurd (cc)
skip_blank-name_from p name (c ∷ s) n t z h e = elim (Option-cases (match_name name s)) [
  | inl f ↦ absurd (ground arith)
  | inr ((n', t'), f) ↦ ground arith
]

skip_blank-name :
    (tag : Tag) (s n t z : Text)
    → match_name (tag_name tag) s ≡ some (n, t)
    → skip_blank (n ++ z) ≡ n ++ z
skip_blank-name untrusted_article s n t z e =
    skip_blank-name_from b'u' (codes "ntrusted_article") s n t z refl e
skip_blank-name untrusted_code_block s n t z e =
    skip_blank-name_from b'u' (codes "ntrusted_code_block") s n t z refl e

-- Nor is one tag's name the other's.
other_name :
    (tag at : Tag) (z : Text)
    → (tag ≡ at) ⊎ (found (match_name (tag_name at) (tag_name tag ++ z)) ≡ false)
unfolding match_name fold
other_name untrusted_article untrusted_article z = inl refl
other_name untrusted_article untrusted_code_block z = inr refl
other_name untrusted_code_block untrusted_article z = inr refl
other_name untrusted_code_block untrusted_code_block z = inl refl

closing_put_at :
    (tag at : Tag) (s n t v : Text)
    → match_name (tag_name tag) s ≡ some (n, t)
    → match_close_name at (n ++ (codes "_>" ++ v)) ≡ none
unfolding match_close_name match_end skip_blank is_blank
closing_put_at tag at s n t v f =
    let z : Text = codes "_>" ++ v in
    let blank = skip_blank-name tag s n t z f in
    elim (Option-cases (match_name (tag_name at) (n ++ z))) [
      | inl e ↦ ground (arith, blank)
      | inr ((n', t'), e) ↦ elim (other_name tag at z) [
        | inl same ↦ ground (
          arith,
          blank,
          match_name-again (tag_name at) s n t z
              (subst (λ x. match_name (tag_name x) s ≡ some (n, t)) same f),
        )
        | inr differs ↦ absurd (
            ground (
              arith,
              match_name-spelled (tag_name at) (tag_name tag) s n t z (tag_name-IsName tag) f,
            ))
      ]
    ]

pub closing_put :
    (tag at : Tag) (s w rest v : Text)
    → match_close tag s ≡ some (w, rest)
    → match_close at (w ++ v) ≡ none
unfolding match_close
closing_put tag at [] w rest v e = absurd (cc)
closing_put tag at (c ∷ s) w rest v e = elim (Bool-cases (c == b'/')) [
  | inl k ↦
      let (n, t, f, g, h) = match_close_name-parts tag s w rest (ground arith) in
      ground (arith, closing_put_at tag at (skip_blank s) n t v f, append_assoc n (codes "_>") v)
  | inr k ↦ absurd (ground arith)
]
