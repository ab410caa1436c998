-- ===== src/Prompt/Scan.antt =====
-- sections.go: how far the matchers of the reserved tags look, and what they leave behind.
use code_runner_backend.Prelude.{
  ℕ, ◌≡◌, refl, true, false, [], ◌∷◌, ◌++◌, Option, none, some, ◌&&◌, leb, arith, inl, inr,
  Option-cases,
}
use code_runner_backend.Prelude.Text.{Text, codes, contains_char}
use code_runner_backend.Prelude.Digits.{contains_char-append}
use code_runner_backend.Prompt.Tags.{
  Tag, untrusted_article, untrusted_code_block, tag_name, fold, is_blank, skip_blank, match_name,
  at_boundary, is_word, last_of, match_head, match_open, skip_to_end, match_end, match_close_name,
  match_close,
}
use code_runner_backend.Prompt.Neutral.{found, upto, EndsTag}

-- A name in small letters and underscores, as the patterns have it.
abbrev pub IsName : Text → Type 0
IsName [] = Unit
IsName (p ∷ name) = (fold p ≡ p) × (leb b'_' p ≡ true) × (leb p b'z' ≡ true) × IsName name

pub tag_name-IsName : (tag : Tag) → IsName (tag_name tag)
unfolding fold
tag_name-IsName untrusted_article = ground arith
tag_name-IsName untrusted_code_block = ground arith

skip_blank-upto : (s : Text) → skip_blank (upto s) ≡ upto (skip_blank s)
unfolding skip_blank is_blank
skip_blank-upto [] = refl
skip_blank-upto (c ∷ s) = ground (arith, skip_blank-upto s)

contains_end-skip_blank : (s : Text) → contains_char b'>' (skip_blank s) ≡ contains_char b'>' s
unfolding skip_blank is_blank contains_char
contains_end-skip_blank [] = refl
contains_end-skip_blank (c ∷ s) = ground (arith, contains_end-skip_blank s)

abbrev upto_rest : Option (Text × Text) → Option (Text × Text)
upto_rest none = none
upto_rest (some (n, t)) = some (n, upto t)

match_name-upto :
    (name s : Text) → IsName name → match_name name (upto s) ≡ upto_rest (match_name name s)
unfolding match_name fold
match_name-upto [] s h = refl
match_name-upto (p ∷ name) [] h = refl
match_name-upto (p ∷ name) (c ∷ s) h = ground (arith, match_name-upto name s)

-- The name that is found is spelled with letters and underscores, and what is behind it has the `>`
-- that the text has.
match_name-found :
    (name s n t : Text)
    → IsName name
    → match_name name s ≡ some (n, t)
    → (contains_char b'>' s ≡ contains_char b'>' t) × (contains_char b'<' n ≡ false)
unfolding match_name fold contains_char
match_name-found [] s n t h e = ground arith
match_name-found (p ∷ name) [] n t h e = absurd (cc)
match_name-found (p ∷ name) (c ∷ s) n t h e = elim (Option-cases (match_name name s)) [
  | inl f ↦ ground arith
  | inr ((n', t'), f) ↦ ground (arith, match_name-found name s n' t')
]

at_boundary-upto : (c : ℕ) (t : Text) → at_boundary c (upto t) ≡ at_boundary c t
unfolding at_boundary is_word
at_boundary-upto c [] = refl
at_boundary-upto c (d ∷ t) = ground arith

match_end-upto : (t : Text) → found (match_end (upto t)) ≡ found (match_end t)
unfolding match_end
match_end-upto [] = refl
match_end-upto (d ∷ t) = ground arith

skip_to_end-found : (t : Text) → found (skip_to_end t) ≡ contains_char b'>' t
unfolding skip_to_end contains_char
skip_to_end-found [] = refl
skip_to_end-found (d ∷ t) = ground (arith, skip_to_end-found t)

match_head-upto :
    (tag : Tag) (s : Text) → found (match_head tag (upto s)) ≡ found (match_head tag s)
unfolding match_head
match_head-upto tag s = elim (Option-cases (match_name (tag_name tag) (skip_blank s))) [
  | inl e ↦ ground (
    arith,
    skip_blank-upto s,
    match_name-upto (tag_name tag) (skip_blank s) (tag_name-IsName tag),
  )
  | inr ((n, t), e) ↦ ground (
    arith,
    skip_blank-upto s,
    match_name-upto (tag_name tag) (skip_blank s) (tag_name-IsName tag),
    at_boundary-upto (last_of n) t,
  )
]

match_head-found :
    (tag : Tag) (s t : Text)
    → match_head tag s ≡ some t
    → contains_char b'>' s ≡ contains_char b'>' t
unfolding match_head
match_head-found tag s t h = elim (Option-cases (match_name (tag_name tag) (skip_blank s))) [
  | inl e ↦ ground arith
  | inr ((n, t'), e) ↦ ground (
    arith,
    contains_end-skip_blank s,
    match_name-found (tag_name tag) (skip_blank s) n t' (tag_name-IsName tag) e,
  )
]

-- An opening tag begins where its head is and a `>` follows, however far away.
pub match_open-found :
    (tag : Tag) (s : Text)
    → found (match_open tag s) ≡ (found (match_head tag (upto s)) && contains_char b'>' s)
unfolding match_open
match_open-found tag s = elim (Option-cases (match_head tag s)) [
  | inl e ↦ ground (arith, match_head-upto tag s)
  | inr (t, e) ↦
      ground (arith, match_head-upto tag s, match_head-found tag s t e, skip_to_end-found t)
]

match_close_name-upto :
    (tag : Tag) (s : Text) → found (match_close_name tag (upto s)) ≡ found (match_close_name tag s)
unfolding match_close_name
match_close_name-upto tag s = elim (Option-cases (match_name (tag_name tag) (skip_blank s))) [
  | inl e ↦ ground (
    arith,
    skip_blank-upto s,
    match_name-upto (tag_name tag) (skip_blank s) (tag_name-IsName tag),
  )
  | inr ((n, t), e) ↦ ground (
    arith,
    skip_blank-upto s,
    match_name-upto (tag_name tag) (skip_blank s) (tag_name-IsName tag),
    skip_blank-upto t,
    match_end-upto (skip_blank t),
  )
]

-- Whether a closing tag begins is settled before the next `<`.
pub match_close-found :
    (tag : Tag) (s : Text) → found (match_close tag (upto s)) ≡ found (match_close tag s)
unfolding match_close
match_close-found tag [] = refl
match_close-found tag (c ∷ s) = ground (arith, match_close_name-upto tag s)

-- What is put in the place of an opening tag.
pub match_open-put :
    (tag : Tag) (s w rest : Text)
    → match_open tag s ≡ some (w, rest)
    → w ≡ tag_name tag ++ codes "_>"
unfolding match_open
match_open-put tag s w rest e = elim (Option-cases (match_head tag s)) [
  | inl f ↦ absurd (ground arith)
  | inr (t, f) ↦ elim (Option-cases (skip_to_end t)) [
    | inl g ↦ absurd (ground arith)
    | inr (r, g) ↦ ground arith
  ]
]

opened_free : (tag : Tag) → contains_char b'<' (tag_name tag ++ codes "_>") ≡ false
unfolding contains_char
opened_free untrusted_article = refl
opened_free untrusted_code_block = refl

pub match_open-EndsTag : (tag : Tag) → EndsTag (match_open tag)
match_open-EndsTag tag s w rest e = (
  ground (arith, match_open-found tag s),
  ground (arith, match_open-put tag s w rest e, opened_free tag),
)

-- The parts of a closing tag.
pub match_close_name-parts :
    (tag : Tag) (s w rest : Text)
    → match_close_name tag s ≡ some (w, rest)
    → (n : Text) × (t : Text) × (match_name (tag_name tag) (skip_blank s) ≡ some (n, t))
      × (match_end (skip_blank t) ≡ some rest)
      × (w ≡ b'/' ∷ n ++ codes "_>")
unfolding match_close_name
match_close_name-parts tag s w rest e =
    elim (Option-cases (match_name (tag_name tag) (skip_blank s))) [
      | inl f ↦ absurd (ground arith)
      | inr ((n, t), f) ↦ elim (Option-cases (match_end (skip_blank t))) [
        | inl g ↦ absurd (ground arith)
        | inr (rest', g) ↦ (n, t, f, ground arith, ground arith)
      ]
    ]

match_end-found : (t rest : Text) → match_end t ≡ some rest → contains_char b'>' t ≡ true
unfolding match_end contains_char
match_end-found [] rest e = absurd (cc)
match_end-found (c ∷ t) rest e = ground arith

match_close_name-EndsTag : (tag : Tag) → EndsTag (match_close_name tag)
unfolding contains_char
match_close_name-EndsTag tag s w rest e =
    let (n, t, f, g, h) = match_close_name-parts tag s w rest e in
    let named = match_name-found (tag_name tag) (skip_blank s) n t (tag_name-IsName tag) f in
    (
      ground (
        arith,
        named,
        contains_end-skip_blank s,
        contains_end-skip_blank t,
        match_end-found (skip_blank t) rest g,
      ),
      ground (arith, named, contains_char-append b'<' n (codes "_>")),
    )

pub match_close-EndsTag : (tag : Tag) → EndsTag (match_close tag)
unfolding match_close contains_char
match_close-EndsTag tag [] w rest e = absurd (cc)
match_close-EndsTag tag (c ∷ s) w rest e = ground (arith, match_close_name-EndsTag tag s w rest)
