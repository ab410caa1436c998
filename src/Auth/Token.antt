-- ===== src/Auth/Token.antt =====
-- jwt.go: the token that says who is signed in. The times of a token are whole seconds.
use code_runner_backend.Prelude.{
  ℕ, ◌+◌, ◌/◌, ◌<◌, ◌≤◌, ◌≡◌, refl, suc, ◌∷◌, ◌++◌, Option, none, some, if◌then◌else◌, arith,
}
use code_runner_backend.Prelude.Int.{ℤ, pos, negsuc}
use code_runner_backend.Prelude.Text.{Text, codes, is_empty, decimal}
use code_runner_backend.Auth.{Crypto, User, UserClaims}
use code_runner_backend.Auth.State.{second}

pub record JwtManager : Type 0 where
  pub secret : Text
  pub ttl : ℕ

abbrev pub decimal_int : ℤ → Text
decimal_int (pos n) = decimal n
decimal_int (negsuc n) = b'-' ∷ decimal (suc n)

-- A user without an id gets one from the number at GitHub.
unfoldable pub with_id : User → User
with_id u = record u {
  id = if is_empty u.id then codes "github:" ++ decimal_int u.github_id else u.id;
}

unfoldable pub claims_of : JwtManager → User → ℕ → UserClaims
claims_of m u now = record {
  subject = u.id;
  github_id = u.github_id;
  login = u.login;
  name = u.name;
  avatar_url = u.avatar_url;
  issued_at = now / second;
  expires_at = (now + m.ttl) / second;
}

unfoldable pub sign_user : Crypto → JwtManager → User → ℕ → Text
unfolding with_id claims_of
sign_user c m u now = c.sign_claims m.secret (claims_of m (with_id u) now)

unfoldable pub parse_user : Crypto → JwtManager → Text → ℕ → Option User
parse_user c m token now = elim (c.parse_claims m.secret (now / second) token) [
  | none ↦ none
  | some cl ↦ some (record {
    id = cl.subject;
    github_id = cl.github_id;
    login = cl.login;
    name = cl.name;
    avatar_url = cl.avatar_url;
  })
]

-- The token library: what was signed is read back from the time of its issue on, and before the time
-- that it expires. RegisteredClaims.Valid refuses a token before its issue.
abbrev pub ReadsBack : Crypto → Type 0
ReadsBack c =
    (secret : Text) (cl : UserClaims) (now : ℕ)
    → cl.issued_at ≤ now
    → now < cl.expires_at
    → c.parse_claims secret now (c.sign_claims secret cl) ≡ some cl

-- From its issue on, the token of a user gives the user back, with an id, until it expires.
pub parse_user-sign_user :
    (c : Crypto) (m : JwtManager) (u : User) (now later : ℕ)
    → ReadsBack c
    → now ≤ later
    → later / second < (now + m.ttl) / second
    → parse_user c m (sign_user c m u now) later ≡ some (with_id u)
unfolding parse_user sign_user claims_of with_id
parse_user-sign_user c m u now later v a t =
    rw (parse_user, v m.secret (claims_of m (with_id u) now) (later / second) (omega (arith, a)) t)
      refl
