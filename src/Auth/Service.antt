-- ===== src/Auth/Service.antt =====
-- service.go, handler.go, config.go, errors.go: the sign-in.
use code_runner_backend.Prelude.{
  ℕ, ◌+◌, ◌*◌, ◌/◌, ◌<◌, ◌≤◌, ◌≡◌, refl, Bool, ◌||◌, [], ◌∷◌, ◌++◌, Option, none, some,
  if◌then◌else◌, Result, ok, err, arith, inl, inr, Option-cases, Result-cases, ◌==◌, ap, ◌∙◌,
}
use mathlib.Core.List.{reverse}
use code_runner_backend.Prelude.Text.{Text, codes, is_empty}
use code_runner_backend.Auth.{Crypto, User}
use code_runner_backend.Auth.Return.{ReturnError, normalize_return_to, IsLocal}
use code_runner_backend.Auth.State.{
  StateSigner, StateError, Signed, second, sign_state, verify_state, verify_state_sound,
}
use code_runner_backend.Auth.Token.{
  JwtManager, ReadsBack, sign_user, parse_user, with_id, parse_user-sign_user,
}

-- The fields of Config, GitHubConfig, JWTConfig and CookieConfig; `ttl_seconds` is 0 where the
-- configuration has a number that is not positive.
pub record Config : Type 0 where
  pub client_id : Text
  pub client_secret : Text
  pub redirect_url : Text
  pub jwt_secret : Text
  pub ttl_seconds : ℕ
  pub cookie_name : Text
  pub cookie_secure : Bool
  pub frontend_base_url : Text

pub data ConfigError : Type 0 where
  missing_client_id missing_client_secret missing_redirect_url missing_jwt_secret : ConfigError

unfoldable pub with_defaults : Config → Config
with_defaults cfg = record cfg {
  cookie_name = if is_empty cfg.cookie_name then codes "cr_auth" else cfg.cookie_name;
  ttl_seconds = if cfg.ttl_seconds == 0 then 604800 else cfg.ttl_seconds;
}

unfoldable pub validate : Config → Option ConfigError
validate cfg =
    if is_empty cfg.client_id
    then some missing_client_id
    else if is_empty cfg.client_secret
    then some missing_client_secret
    else if is_empty cfg.redirect_url
    then some missing_redirect_url
    else if is_empty cfg.jwt_secret
    then some missing_jwt_secret
    else none

abbrev pub state_signer : Config → StateSigner
state_signer cfg = record { secret = cfg.jwt_secret; ttl = 300 * second }

abbrev pub jwt_manager : Config → JwtManager
jwt_manager cfg = record { secret = cfg.jwt_secret; ttl = cfg.ttl_seconds * second }

pub data AuthError : Type 0 where
  not_configured : ConfigError → AuthError
  bad_return_to : ReturnError → AuthError
  bad_state : StateError → AuthError
  nothing_given exchange_failed fetch_failed : AuthError

-- The state with which the browser is sent to GitHub.
unfoldable pub login_state : Crypto → Config → Text → ℕ → Option Text → Result AuthError Text
login_state c cfg return_to now nonce = elim (validate cfg) [
  | some e ↦ err (not_configured e)
  | none ↦ elim (normalize_return_to c return_to) [
    | err e ↦ err (bad_return_to e)
    | ok normalized ↦ elim (sign_state c (state_signer cfg) normalized now nonce) [
      | err e ↦ err (bad_state e)
      | ok state ↦ ok state
    ]
  ]
]

-- `now` and `signed_at` are the two readings of the clock; `exchange`: the access token for a code; `fetch`: the user for an access token.
unfoldable pub callback :
    Crypto
    → Config
    → (Text → Option Text)
    → (Text → Option User)
    → Text
    → Text
    → ℕ
    → ℕ
    → Result AuthError (Text × Text)
callback c cfg exchange fetch code state now signed_at = elim (validate cfg) [
  | some e ↦ err (not_configured e)
  | none ↦
      if is_empty code || is_empty state
      then err nothing_given
      else elim (verify_state c (state_signer cfg) state now) [
        | err e ↦ err (bad_state e)
        | ok return_to ↦ elim (exchange code) [
          | none ↦ err exchange_failed
          | some access ↦ elim (fetch access) [
            | none ↦ err fetch_failed
            | some user ↦ ok (sign_user c (jwt_manager cfg) user signed_at, return_to)
          ]
        ]
      ]
]

-- `strings.TrimRight(base, "/")`
unfoldable pub drop_slashes : Text → Text
drop_slashes [] = []
drop_slashes (x ∷ t) = let rest = drop_slashes t in if x == b'/' then rest else x ∷ t

unfoldable pub redirect_url : Crypto → Config → Text → Text
unfolding drop_slashes
redirect_url c cfg return_to =
    let base = reverse (drop_slashes (reverse cfg.frontend_base_url)) in
    if is_empty base then return_to else elim (c.parse_url base) [
      | none ↦ return_to
      | some u ↦ if is_empty u.scheme || is_empty u.host then return_to else base ++ return_to
    ]

-- An answer of a handler: its status, where it sends the browser, and the cookie that it sets, with
-- its age in seconds.
pub record Reply : Type 0 where
  pub status : ℕ
  pub location : Text
  pub cookie : Option (Text × ℕ)
  pub user : Option User

abbrev pub answer : ℕ → Reply
answer status = record { status = status; location = []; cookie = none; user = none }

abbrev pub status_of : AuthError → ℕ → ℕ
status_of (not_configured e) other = 503
status_of _ other = other

-- Handler.Callback
unfoldable pub handle_callback :
    Crypto → Config → (Text → Option Text) → (Text → Option User) → Text → Text → ℕ → ℕ → Reply
unfolding callback redirect_url
handle_callback c cfg exchange fetch code state now signed_at =
    elim (callback c cfg exchange fetch code state now signed_at) [
      | err e ↦ answer (status_of e 502)
      | ok (token, return_to) ↦ record {
        status = 302;
        location = redirect_url c cfg return_to;
        cookie = some (token, cfg.ttl_seconds);
        user = none;
      }
    ]

-- Handler.Me, with the cookie of the request.
unfoldable pub handle_me : Crypto → Config → Option Text → ℕ → Reply
handle_me c cfg none now = answer 401
handle_me c cfg (some token) now = elim (parse_user c (jwt_manager cfg) token now) [
  | none ↦ answer 401
  | some u ↦ record (answer 200) { user = some u }
]

-- Handler.Logout: an age below 0 has the browser drop the cookie, which is an age of 0 here.
unfoldable pub handle_logout : Reply
handle_logout = record (answer 204) { cookie = some ([], 0) }

callback_inv :
    (c : Crypto) (cfg : Config) (exchange : Text → Option Text) (fetch : Text → Option User)
    (code state token return_to : Text) (now signed_at : ℕ)
    → callback c cfg exchange fetch code state now signed_at ≡ ok (token, return_to)
    → (verify_state c (state_signer cfg) state now ≡ ok return_to)
      × ((access : Text) × (user : User) × (exchange code ≡ some access)
          × (fetch access ≡ some user)
          × (token ≡ sign_user c (jwt_manager cfg) user signed_at))
unfolding callback
callback_inv c cfg exchange fetch code state token return_to now signed_at h =
    elim (Result-cases (verify_state c (state_signer cfg) state now)) [
      | inl (e, f) ↦ absurd (ground arith)
      | inr (r, f) ↦ elim (Option-cases (exchange code)) [
        | inl g ↦ absurd (ground arith)
        | inr (access, g) ↦ elim (Option-cases (fetch access)) [
          | inl k ↦ absurd (ground arith)
          | inr (user, k) ↦
              let same_return : r ≡ return_to = ground arith in
              let made : token ≡ sign_user c (jwt_manager cfg) user signed_at = ground arith in
              (f ∙ ap ok same_return, (access, user, g, k, made))
        ]
      ]
    ]

-- The token library reads back what it signed. A callback that succeeds had a state that was signed
-- here and is in time; it returns an address of the same site, and a token that shows, from its issue
-- until it expires, the user that GitHub gave for the code.
pub callback_sound :
    (c : Crypto) (cfg : Config) (exchange : Text → Option Text) (fetch : Text → Option User)
    (code state token return_to : Text) (now signed_at later : ℕ)
    → ReadsBack c
    → signed_at ≤ later
    → later / second < (signed_at + cfg.ttl_seconds * second) / second
    → callback c cfg exchange fetch code state now signed_at ≡ ok (token, return_to)
    → Signed c (state_signer cfg) state now
      × IsLocal return_to
      × ((access : Text) × (user : User) × (exchange code ≡ some access)
          × (fetch access ≡ some user)
          × ((handle_me c cfg (some token) later).user ≡ some (with_id user)))
unfolding handle_me
callback_sound c cfg exchange fetch code state token return_to now signed_at later v a t h =
    let inv = callback_inv c cfg exchange fetch code state token return_to now signed_at h in
    let verified = verify_state_sound c (state_signer cfg) state return_to now inv.0 in
    let user = inv.1.1 in
    (
      verified.0,
      verified.1,
      (
        inv.1.0,
        user,
        inv.1.2,
        inv.1.3,
        rw (handle_me, inv.1.4, parse_user-sign_user c (jwt_manager cfg) user signed_at later v a t)
            refl,
      ),
    )
