-- ===== src/Auth/SignIn.antt =====
-- service.go and handler.go with the client of github_client.go: a sign-in from the address that the
-- browser is sent to until the token.
use code_runner_backend.Prelude.{
  ℕ, ◌+◌, ◌*◌, ◌/◌, ◌<◌, ◌≤◌, ◌≡◌, refl, ap, sym, ◌∙◌, false, [], ◌∷◌, ◌++◌, Option, none, some, ok,
  err, arith,
}
use code_runner_backend.Prelude.Text.{Text, is_empty}
use code_runner_backend.Auth.{Crypto, User}
use code_runner_backend.Auth.Return.{normalize_return_to, normalize_return_to_idem, IsLocal}
use code_runner_backend.Auth.State.{
  IsSound, Signed, second, sign_state, verify_state, verify_state-sign_state,
}
use code_runner_backend.Auth.Token.{ReadsBack, sign_user, with_id}
use code_runner_backend.Auth.Service.{
  Config, Reply, validate, state_signer, jwt_manager, login_state, callback, handle_me, answer,
  status_of, callback_sound,
}
use code_runner_backend.Auth.Github.{
  Web, GithubClient, Described, fetch_user, fetch_user-Described, with_id-user_of,
}

-- GitHubClient.AuthCodeURL
abbrev pub auth_code_url : Web → GithubClient → Text → Text
auth_code_url w g state = w.auth_code_url g.oauth_config state

-- GitHubClient.ExchangeCode
abbrev pub exchange_code : Web → GithubClient → Text → Option Text
exchange_code w g code = w.exchange g.oauth_config code

-- Handler.Login
unfoldable pub handle_login : Crypto → Web → GithubClient → Config → Text → ℕ → Option Text → Reply
unfolding login_state
handle_login c w g cfg return_to now nonce = elim (login_state c cfg return_to now nonce) [
  | err e ↦ answer (status_of e 400)
  | ok state ↦ record (answer 302) { location = auth_code_url w g state }
]

-- The token library reads back what it signed. A sign-in through the client of GitHub that succeeds
-- had a state that was signed here and is in time; it returns an address of the same site, and a
-- token that shows, from its issue until it expires, the account that GitHub described, in an answer with a status
-- from 200 to 299, for the access token of the code.
pub callback-fetch_user_sound :
    (c : Crypto) (w : Web) (g : GithubClient) (cfg : Config) (code state token return_to : Text)
    (now signed_at later : ℕ)
    → ReadsBack c
    → signed_at ≤ later
    → later / second < (signed_at + cfg.ttl_seconds * second) / second
    → callback c cfg (exchange_code w g) (fetch_user w g) code state now signed_at
      ≡ ok (token, return_to)
    → Signed c (state_signer cfg) state now
      × IsLocal return_to
      × ((access : Text) × (user : User) × (exchange_code w g code ≡ some access)
          × Described w g access user
          × ((handle_me c cfg (some token) later).user ≡ some user))
callback-fetch_user_sound c w g cfg code state token return_to now signed_at later v a t h =
    let found =
      callback_sound c cfg (exchange_code w g) (fetch_user w g) code state token return_to now
        signed_at later v a t h in
    let access = found.2.0 in
    let user = found.2.1 in
    let described : Described w g access user = fetch_user-Described w g access user found.2.3 in
    let kept =
      ap with_id described.same_user ∙ with_id-user_of described.gh ∙ sym described.same_user in
    (found.0, found.1, (access, user, found.2.2, described, found.2.4 ∙ ap some kept))

ends_nonempty : (s t : Text) → is_empty (s ++ b'.' ∷ t) ≡ false
ends_nonempty [] t = refl
ends_nonempty (x ∷ s) t = refl

sign_state_returns :
    (c : Crypto) (cfg : Config) (path nonce : Text) (now : ℕ)
    → normalize_return_to c path ≡ ok path
    → (state : Text) × (sign_state c (state_signer cfg) path now (some nonce) ≡ ok state)
      × (is_empty state ≡ false)
unfolding sign_state
sign_state_returns c cfg path nonce now n =
    let part =
      c.encode
        (record { nonce = nonce; return_to = path; expires = (now + 300 * second) / second }) in
    (
      part ++ b'.' ∷ c.mac cfg.jwt_secret part,
      rw (sign_state, n) refl,
      ends_nonempty part (c.mac cfg.jwt_secret part),
    )

-- With sound encodings and a valid configuration, a login for an accepted address sends the browser
-- to GitHub with a state for which the callback succeeds until the state's time has passed, whenever
-- GitHub accepts the code and describes the user: it gives the token of that user and the address.
pub callback-handle_login :
    (c : Crypto) (w : Web) (g : GithubClient) (cfg : Config)
    (return_to path nonce code access : Text) (user : User) (now later signed_at : ℕ)
    → IsSound c
    → validate cfg ≡ none
    → normalize_return_to c return_to ≡ ok path
    → later / second ≤ (now + 300 * second) / second
    → is_empty code ≡ false
    → exchange_code w g code ≡ some access
    → fetch_user w g access ≡ some user
    → (state : Text) × (handle_login c w g cfg return_to now (some nonce)
        ≡ record (answer 302) { location = auth_code_url w g state })
      × (callback c cfg (exchange_code w g) (fetch_user w g) code state later signed_at
          ≡ ok (sign_user c (jwt_manager cfg) user signed_at, path))
unfolding handle_login login_state callback
callback-handle_login c w g cfg return_to path nonce code access user now later signed_at v valid n
      t e x f =
    let again = normalize_return_to_idem c return_to path v.parse_url-root n in
    let signed = sign_state_returns c cfg path nonce now again in
    let state = signed.0 in
    let verified : verify_state c (state_signer cfg) state later ≡ ok path =
      verify_state-sign_state c (state_signer cfg) path path nonce now later state v again signed.1
      ∙ ground arith in
    (
      state,
      rw (handle_login, login_state, valid, n, signed.1) refl,
      rw (callback, valid, e, signed.2, verified, x, f) refl,
    )
