-- ===== src/Prelude/Digits.antt =====
-- The characters of a number that `%d` prints.
use Prim.Native.Nat.{ℕ, zero, suc, ◌+◌, ◌/◌, ◌%◌}
use mathlib.Core.Path.{◌≡◌, refl}
use mathlib.Core.Bool.{false, ◌&&◌, ◌||◌}
use mathlib.Core.List.{[], ◌∷◌, ◌++◌}
use native.Mathlib.Omega.{arith}
use code_runner_backend.Prelude.Tests.{leb}
use code_runner_backend.Prelude.Text.{Text, contains_char, decimal, digits_from}

pub contains_char-append :
    (c : ℕ) (s t : Text) → contains_char c (s ++ t) ≡ (contains_char c s || contains_char c t)
unfolding contains_char
contains_char-append c [] t = refl
contains_char-append c (d ∷ s) t = ground (arith, contains_char-append c s t)

module _ (c : ℕ) (no_digit : (leb 48 c && leb c 57) ≡ false) where
  digits_free : (f n : ℕ) → contains_char c (digits_from f n) ≡ false
  unfolding digits_from contains_char
  digits_free zero n = refl
  digits_free (suc f) n = ground (
    arith,
    no_digit,
    digits_free f (n / 10),
    contains_char-append c (digits_from f (n / 10)) ((48 + n % 10) ∷ []),
  )

  -- There is nothing but digits in it.
  pub decimal_free : (n : ℕ) → contains_char c (decimal n) ≡ false
  unfolding decimal
  decimal_free n = digits_free (suc n) n
