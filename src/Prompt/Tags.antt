-- ===== src/Prompt/Tags.antt =====
-- internal/agent/prompt/sections.go: reservedTagPatterns, as Go's regexp reads them, and the function
-- that replaces what they match. A matcher is given the text behind a `<`.
use code_runner_backend.Prelude.{
  ℕ, zero, suc, ◌+◌, ◌-◌, Bool, [], ◌∷◌, ◌++◌, Option, none, some, if◌then◌else◌, not, ◌==◌, ◌&&◌,
  ◌||◌, leb, length,
}
use code_runner_backend.Prelude.Text.{Text, codes}

pub data Tag : Type 0 where
  untrusted_article untrusted_code_block : Tag

abbrev pub tag_name : Tag → Text
tag_name untrusted_article = codes "untrusted_article"
tag_name untrusted_code_block = codes "untrusted_code_block"

-- `(?i)`: the letter that a pattern in small letters matches by. Beside the capital, `s` matches the
-- long s and `k` the sign of kelvin.
unfoldable pub fold : ℕ → ℕ
fold c =
    if leb b'A' c && leb c b'Z'
    then c + 32
    else if c == 0x17f
    then b's'
    else if c == 0x212a
    then b'k'
    else c

-- `\s`
unfoldable pub is_blank : ℕ → Bool
is_blank c = c == 9 || c == 10 || c == 12 || c == 13 || c == 32

-- The characters between which `\b` sees no boundary.
unfoldable pub is_word : ℕ → Bool
is_word c =
    (leb b'a' c && leb c b'z')
    || (leb b'A' c && leb c b'Z')
    || (leb b'0' c && leb c b'9')
    || c == b'_'

-- `\s*`
unfoldable pub skip_blank : Text → Text
unfolding is_blank
skip_blank [] = []
skip_blank (c ∷ s) = let rest = skip_blank s in if is_blank c then rest else c ∷ s

-- The name of a tag in any case: what it is spelled like, and the text behind it.
unfoldable pub match_name : Text → Text → Option (Text × Text)
unfolding fold
match_name [] s = some ([], s)
match_name (p ∷ name) [] = none
match_name (p ∷ name) (c ∷ s) =
    let rest = match_name name s in
    if fold c == p then elim rest [ none ↦ none | some (n, t) ↦ some (c ∷ n, t) ] else none

-- `\b` behind the character `c`.
unfoldable pub at_boundary : ℕ → Text → Bool
unfolding is_word
at_boundary c [] = is_word c
at_boundary c (d ∷ s) = if is_word c then not (is_word d) else is_word d

abbrev pub last_of : Text → ℕ
last_of [] = 0
last_of (c ∷ []) = c
last_of (c ∷ d ∷ s) = last_of (d ∷ s)

-- `[^>]*>`
unfoldable pub skip_to_end : Text → Option Text
skip_to_end [] = none
skip_to_end (c ∷ s) = let rest = skip_to_end s in if c == b'>' then some s else rest

-- `\s*name\b`: the text behind it.
unfoldable pub match_head : Tag → Text → Option Text
unfolding match_name skip_blank at_boundary
match_head tag s = elim (match_name (tag_name tag) (skip_blank s)) [
  | none ↦ none
  | some (n, t) ↦ if at_boundary (last_of n) t then some t else none
]

-- `<\s*name\b[^>]*>`: what it is replaced by, and the text behind the match.
unfoldable pub match_open : Tag → Text → Option (Text × Text)
unfolding match_head skip_to_end
match_open tag s = elim (match_head tag s) [
  | none ↦ none
  | some t ↦ elim (skip_to_end t) [
    | none ↦ none
    | some rest ↦ some (tag_name tag ++ codes "_>", rest)
  ]
]

-- `\s*>`
unfoldable pub match_end : Text → Option Text
match_end [] = none
match_end (c ∷ s) = if c == b'>' then some s else none

-- `\s*(name)\s*>`, behind `</`
unfoldable pub match_close_name : Tag → Text → Option (Text × Text)
unfolding match_name skip_blank match_end
match_close_name tag s = elim (match_name (tag_name tag) (skip_blank s)) [
  | none ↦ none
  | some (n, t) ↦ elim (match_end (skip_blank t)) [
    | none ↦ none
    | some rest ↦ some (b'/' ∷ n ++ codes "_>", rest)
  ]
]

-- `</\s*(name)\s*>`
unfoldable pub match_close : Tag → Text → Option (Text × Text)
unfolding match_close_name
match_close tag [] = none
match_close tag (c ∷ s) = if c == b'/' then match_close_name tag s else none

-- A match that begins here: at `c`, with `s` behind it.
unfoldable pub match_at : (Text → Option (Text × Text)) → ℕ → Text → Option (Text × Text)
match_at m c s = if c == b'<' then m s else none

-- `re.ReplaceAllString(s, repl)`, from left to right; `skip` characters still belong to a match.
unfoldable pub replace_from : (Text → Option (Text × Text)) → ℕ → Text → Text
unfolding match_at
replace_from m skip [] = []
replace_from m (suc skip) (c ∷ s) = replace_from m skip s
replace_from m zero (c ∷ s) = elim (match_at m c s) [
  | none ↦ c ∷ replace_from m zero s
  | some (repl, rest) ↦ c ∷ (repl ++ replace_from m (length s - length rest) s)
]

unfoldable pub replace_all : (Text → Option (Text × Text)) → Text → Text
unfolding replace_from
replace_all m s = replace_from m 0 s

unfoldable pub neutralize_reserved_tags : Text → Text
unfolding replace_all match_open match_close
neutralize_reserved_tags s = replace_all (match_close untrusted_code_block) (
    replace_all (match_close untrusted_article) (
      replace_all (match_open untrusted_code_block) (replace_all (match_open untrusted_article) s)))

-- How many tags begin in a text.
unfoldable pub count_tags : (Text → Option (Text × Text)) → Text → ℕ
unfolding match_at
count_tags m [] = 0
count_tags m (c ∷ s) =
    let rest = count_tags m s in elim (match_at m c s) [ none ↦ rest | some _ ↦ suc rest ]
