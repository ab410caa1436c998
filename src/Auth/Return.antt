-- ===== src/Auth/Return.antt =====
-- return_to.go: where the browser goes after the sign-in.
use code_runner_backend.Prelude.{
  ◌≡◌, refl, true, false, not, ◌||◌, [], none, some, if◌then◌else◌, Result, ok, err, arith, inl,
  inr, ◌⊎◌, subst, sym, Bool-cases, Option-cases,
}
use code_runner_backend.Prelude.Text.{Text, codes, is_empty, contains_char, has_prefix}
use code_runner_backend.Auth.{Crypto}

pub data ReturnError : Type 0 where
  has_backslash not_local not_parsed has_host : ReturnError

unfoldable pub normalize_return_to : Crypto → Text → Result ReturnError Text
normalize_return_to c raw =
    if is_empty raw
    then ok (codes "/")
    else if contains_char 92 raw
    then err has_backslash
    else if not (has_prefix raw (codes "/")) || has_prefix raw (codes "//")
    then err not_local
    else elim (c.parse_url raw) [
      | none ↦ err not_parsed
      | some u ↦ if not (is_empty u.scheme) || not (is_empty u.host) then err has_host else ok raw
    ]

-- A path of the same site: one slash in front, and no backslash, which browsers read as a slash.
abbrev pub IsLocal : Text → Type 0
IsLocal t =
    (has_prefix t (codes "/") ≡ true)
    × (has_prefix t (codes "//") ≡ false)
    × (contains_char 92 t ≡ false)

root-IsLocal : IsLocal (codes "/")
unfolding has_prefix contains_char
root-IsLocal = (refl, refl, refl)

-- Either nothing was asked for, or the text itself is accepted.
accepted :
    (c : Crypto) (raw path : Text)
    → normalize_return_to c raw ≡ ok path
    → (path ≡ codes "/") ⊎ ((path ≡ raw) × IsLocal raw)
unfolding normalize_return_to
accepted c raw path h = elim (Bool-cases (is_empty raw)) [
  | inl e ↦ inl (ground arith)
  | inr e ↦ inr (elim (Option-cases (c.parse_url raw)) [
    | inl f ↦ absurd (ground arith)
    | inr (u, f) ↦ ground arith
  ])
]

-- An address that is accepted is one of the same site.
pub normalize_return_to-IsLocal :
    (c : Crypto) (raw path : Text) → normalize_return_to c raw ≡ ok path → IsLocal path
normalize_return_to-IsLocal c raw path h = elim (accepted c raw path h) [
  | inl e ↦ rw e root-IsLocal
  | inr (e, v) ↦ rw e v
]

-- What was accepted once is accepted again and stays as it is.
pub normalize_return_to_idem :
    (c : Crypto) (raw path : Text)
    → c.parse_url (codes "/") ≡ some (record { scheme = []; host = [] })
    → normalize_return_to c raw ≡ ok path
    → normalize_return_to c path ≡ ok path
normalize_return_to_idem c raw path u h = elim (accepted c raw path h) [
  | inl e ↦ rw e root
  | inr (e, v) ↦ subst (λ t. normalize_return_to c t ≡ ok path) (sym e) h
]
  where
    root : normalize_return_to c (codes "/") ≡ ok (codes "/")
    root = unfold normalize_return_to has_prefix contains_char in rw u refl
