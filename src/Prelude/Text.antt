-- ===== src/Prelude/Text.antt =====
-- Go strings as the list of their code points (runes), and what the program uses of `strings`,
-- `unicode` and `strconv`.
use Prim.Native.Nat.{ℕ, zero, suc, ◌+◌, ◌*◌, ◌-◌, ◌/◌, ◌%◌, ◌<◌}
use Prim.Native.Char.{code}
use Prim.Native.String.{String}
use mathlib.Core.Path.{◌≡◌, refl, ap, sym, ◌∙◌}
use mathlib.Core.Logic.{◌↔◌}
use mathlib.Core.Bool.{Bool, true, false, ◌&&◌, ◌||◌}
use mathlib.Core.List.{List, [], ◌∷◌, ◌++◌, reverse, reverse-append, reverse-reverse}
use mathlib.Core.Option.{Option, none, some}
use native.Mathlib.Omega.{arith}
use code_runner_backend.Prelude.Tests.{leb, ltb, ◌==◌, if◌then◌else◌}

abbrev pub Text : Type 0
Text = List ℕ

abbrev pub codes : String → Text
codes String.[] = []
codes (String.◌∷◌ c s) = code c ∷ codes s

-- Go's `==` on strings.
unfoldable pub same : Text → Text → Bool
same [] [] = true
same (a ∷ s) (b ∷ t) = a == b && same s t
same _ _ = false

pub same_iff : (s t : Text) → (same s t ≡ true) ↔ (s ≡ t)
unfolding same
same_iff [] [] = ((λ _. refl), λ _. refl)
same_iff [] (b ∷ t) = ((λ h. cc), λ h. cc)
same_iff (a ∷ s) [] = ((λ h. cc), λ h. cc)
same_iff (a ∷ s) (b ∷ t) = ground (arith, same_iff s t)

pub same_refl : (s : Text) → same s s ≡ true
same_refl s = (same_iff s s).1 refl

abbrev pub is_empty : Text → Bool
is_empty [] = true
is_empty (_ ∷ _) = false

-- `unicode.IsSpace`: the white space of Latin-1 and the other code points of White_Space.
unfoldable pub is_space : ℕ → Bool
is_space c =
    (leb 9 c && leb c 13)
    || c == 32
    || c == 0x85
    || c == 0xa0
    || c == 0x1680
    || (leb 0x2000 c && leb c 0x200a)
    || c == 0x2028
    || c == 0x2029
    || c == 0x202f
    || c == 0x205f
    || c == 0x3000

unfoldable pub trim_left : Text → Text
unfolding is_space
trim_left [] = []
trim_left (c ∷ s) = let rest = trim_left s in if is_space c then rest else c ∷ s

-- `strings.TrimSpace`
unfoldable pub trim_space : Text → Text
unfolding trim_left
trim_space s = reverse (trim_left (reverse (trim_left s)))

-- `strings.HasPrefix`
unfoldable pub has_prefix : Text → Text → Bool
has_prefix s [] = true
has_prefix [] (_ ∷ _) = false
has_prefix (a ∷ s) (b ∷ p) = a == b && has_prefix s p

-- `strings.Contains` for a single character
unfoldable pub contains_char : ℕ → Text → Bool
contains_char c [] = false
contains_char c (d ∷ s) = d == c || contains_char c s

-- `unicode.ToLower` as far as its results are ASCII: the ASCII letters, the dotted capital I, and the
-- sign for kelvin. The tables that the program asks have no other characters.
unfoldable pub lower_char : ℕ → ℕ
lower_char c =
    if leb b'A' c && leb c b'Z'
    then c + 32
    else if c == 0x130
    then b'i'
    else if c == 0x212a
    then b'k'
    else c

-- `%d` of a number that is not negative, digit by digit; `n` divisions are more than enough.
unfoldable pub digits_from : ℕ → ℕ → Text
digits_from zero n = []
digits_from (suc f) n =
    let rest = digits_from f (n / 10) in
    if ltb n 10 then (48 + n) ∷ [] else rest ++ (48 + n % 10) ∷ []

unfoldable pub decimal : ℕ → Text
unfolding digits_from
decimal n = digits_from (suc n) n

-- What a row of digits stands for, from the number read so far.
unfoldable pub value_from : ℕ → Text → ℕ
value_from acc [] = acc
value_from acc (d ∷ s) = value_from (acc * 10 + (d - 48)) s

value_from-append :
    (acc : ℕ) (s : Text) (d : ℕ) → value_from acc (s ++ d ∷ []) ≡ value_from acc s * 10 + (d - 48)
unfolding value_from
value_from-append acc [] d = refl
value_from-append acc (c ∷ s) d = value_from-append (acc * 10 + (c - 48)) s d

value_from-digits_from : (f n : ℕ) → n < f → value_from 0 (digits_from f n) ≡ n
unfolding digits_from value_from
value_from-digits_from zero n h = absurd (omega arith)
value_from-digits_from (suc f) n h = ground (
  arith,
  value_from-append 0 (digits_from f (n / 10)) (48 + n % 10),
  value_from-digits_from f (n / 10),
)

-- Printing a number loses nothing.
pub value_from-decimal : (n : ℕ) → value_from 0 (decimal n) ≡ n
unfolding decimal
value_from-decimal n = value_from-digits_from (suc n) n (omega arith)

pub decimal-injective : (m n : ℕ) → decimal m ≡ decimal n → m ≡ n
decimal-injective m n e = sym (value_from-decimal m) ∙ ap (value_from 0) e ∙ value_from-decimal n

pub append-cancel_left : (p s t : Text) → p ++ s ≡ p ++ t → s ≡ t
append-cancel_left [] s t e = e
append-cancel_left (c ∷ p) s t e = append-cancel_left p s t (cc)

unfoldable pub lower : Text → Text
unfolding lower_char
lower [] = []
lower (c ∷ s) = lower_char c ∷ lower s

-- What is left of `s` behind the prefix `p`.
unfoldable pub strip_prefix : Text → Text → Option Text
strip_prefix s [] = some s
strip_prefix [] (_ ∷ _) = none
strip_prefix (a ∷ s) (b ∷ p) = if a == b then strip_prefix s p else none

-- `strings.TrimSuffix`
unfoldable pub trim_suffix : Text → Text → Text
unfolding strip_prefix
trim_suffix s suffix = elim (strip_prefix (reverse s) (reverse suffix)) [
  | none ↦ s
  | some rest ↦ reverse rest
]

strip_prefix-append : (p s : Text) → strip_prefix (p ++ s) p ≡ some s
unfolding strip_prefix
strip_prefix-append [] s = refl
strip_prefix-append (c ∷ p) s = ground (arith, strip_prefix-append p s)

-- A suffix that is there comes off.
pub trim_suffix-append : (s suffix : Text) → trim_suffix (s ++ suffix) suffix ≡ s
unfolding trim_suffix
trim_suffix-append s suffix =
    rw (reverse-append s suffix, strip_prefix-append (reverse suffix) (reverse s), trim_suffix)
      (reverse-reverse s)

-- `filepath.Base` and `filepath.Dir` of a clean absolute path: behind and before the last slash.
unfoldable pub base_from : Text → Text → Text
base_from seen [] = seen
base_from seen (c ∷ s) = base_from (if c == b'/' then [] else seen ++ c ∷ []) s

unfoldable pub dir_from : Text → Text → Text → Text
dir_from before seen [] = before
dir_from before seen (c ∷ s) =
    dir_from (if c == b'/' then before ++ seen else before)
      (if c == b'/' then c ∷ [] else seen ++ c ∷ []) s

unfoldable pub base_name : Text → Text
unfolding base_from
base_name path = base_from [] path

unfoldable pub dir_name : Text → Text
unfolding dir_from
dir_name path = let before = dir_from [] [] path in if is_empty before then b'/' ∷ [] else before

-- `filepath.Ext`: from the last dot behind the last slash.
unfoldable pub ext_from : Text → Text → Text
ext_from found [] = found
ext_from found (c ∷ s) = ext_from (if c == b'/' then [] else if c == b'.' then c ∷ s else found) s

unfoldable pub ext : Text → Text
unfolding ext_from
ext path = ext_from [] path

-- `strings.Split` by a single character.
unfoldable pub split : ℕ → Text → List Text
split c [] = [] ∷ []
split c (d ∷ s) =
    let parts = split c s in
    if d == c then [] ∷ parts else elim parts [ [] ↦ (d ∷ []) ∷ [] | p ∷ ps ↦ (d ∷ p) ∷ ps ]

split-whole : (c : ℕ) (s : Text) → contains_char c s ≡ false → split c s ≡ s ∷ []
unfolding split contains_char
split-whole c [] h = refl
split-whole c (d ∷ s) h = ground (arith, split-whole c s)

-- Two parts that have not the character in them come apart again.
pub split-append :
    (c : ℕ) (s t : Text)
    → contains_char c s ≡ false
    → contains_char c t ≡ false
    → split c (s ++ c ∷ t) ≡ s ∷ t ∷ []
unfolding split contains_char
split-append c [] t h k = ground (arith, split-whole c t)
split-append c (d ∷ s) t h k = ground (arith, split-append c s t)
