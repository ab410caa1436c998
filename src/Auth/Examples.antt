-- ===== src/Auth/Examples.antt =====
-- The theorems of the sign-in at concrete inputs, with plain encodings: lengths and numbers in front,
-- and the texts behind, moved out of the way of the dot.
use code_runner_backend.Prelude.{
  ℕ, zero, suc, ◌+◌, ◌-◌, ◌≡◌, refl, true, false, not, ◌&&◌, [], ◌∷◌, ◌++◌, Option, none, some, ok,
  arith, length, if◌then◌else◌, ltb, lt→ltb, ap,
}
use code_runner_backend.Prelude.Int.{ℤ, pos, negsuc}
use code_runner_backend.Prelude.Text.{Text, codes, contains_char, has_prefix, split, same}
use code_runner_backend.Auth.{Crypto, User, StatePayload, UserClaims}
use code_runner_backend.Auth.Return.{normalize_return_to, IsLocal}
use code_runner_backend.Auth.State.{IsSound, Signed, verify_state, verify_parts}
use code_runner_backend.Auth.Token.{ReadsBack, with_id, sign_user, claims_of}
use code_runner_backend.Auth.Service.{
  Config, validate, callback, state_signer, jwt_manager, handle_me, answer,
}
use code_runner_backend.Auth.Github.{
  Web, GithubClient, Request, Response, Described, new_github_client_from_config, read_user,
  fetch_user, user_of,
}
use code_runner_backend.Auth.SignIn.{
  exchange_code, auth_code_url, handle_login, callback-fetch_user_sound, callback-handle_login,
}

abbrev cut_at : ℕ → Text → Text × Text
cut_at zero t = ([], t)
cut_at (suc n) [] = ([], [])
cut_at (suc n) (x ∷ t) = (x ∷ (cut_at n t).0, (cut_at n t).1)

cut_at-append : (s t : Text) → cut_at (length s) (s ++ t) ≡ (s, t)
cut_at-append [] t = refl
cut_at-append (x ∷ s) t = ap (λ r. (x ∷ r.0, r.1)) (cut_at-append s t)

abbrev shift : Text → Text
shift [] = []
shift (x ∷ t) = (x + 100) ∷ shift t

abbrev unshift : Text → Text
unshift [] = []
unshift (x ∷ t) = (x - 100) ∷ unshift t

unshift-shift : (t : Text) → unshift (shift t) ≡ t
unshift-shift [] = refl
unshift-shift (x ∷ t) = ground (arith, unshift-shift t)

shift-no_dot : (t : Text) → contains_char b'.' (shift t) ≡ false
unfolding contains_char
shift-no_dot [] = refl
shift-no_dot (x ∷ t) = ground (arith, shift-no_dot t)

abbrev encode : StatePayload → Text
encode p = (length p.nonce + 100) ∷ (p.expires + 100) ∷ shift (p.nonce ++ p.return_to)

abbrev decode : Text → Option StatePayload
decode (n ∷ e ∷ t) = some (record {
  nonce = (cut_at (n - 100) (unshift t)).0;
  return_to = (cut_at (n - 100) (unshift t)).1;
  expires = e - 100;
})
decode _ = none

abbrev sign_number : ℤ → ℕ
sign_number (pos n) = 0
sign_number (negsuc n) = 1

abbrev size_number : ℤ → ℕ
size_number (pos n) = n
size_number (negsuc n) = n

abbrev number_of : ℕ → ℕ → ℤ
number_of zero n = pos n
number_of (suc _) n = negsuc n

abbrev write_claims : UserClaims → Text
write_claims c =
    length c.subject
      ∷ length c.login
      ∷ length c.name
      ∷ sign_number c.github_id
      ∷ size_number c.github_id
      ∷ c.issued_at
      ∷ c.expires_at
      ∷ c.subject
    ++ (c.login ++ (c.name ++ c.avatar_url))

abbrev read_claims : ℕ → Text → Option UserClaims
read_claims now (a ∷ b ∷ c ∷ s ∷ n ∷ i ∷ e ∷ t) =
    let one = cut_at a t in
    let two = cut_at b one.1 in
    let three = cut_at c two.1 in
    if not (ltb now i) && ltb now e
    then some (record {
      subject = one.0;
      github_id = number_of s n;
      login = two.0;
      name = three.0;
      avatar_url = three.1;
      issued_at = i;
      expires_at = e;
    })
    else none
read_claims now _ = none

abbrev plain : Crypto
plain = record {
  mac = λ secret part. codes "m";
  encode = encode;
  decode = decode;
  parse_url = λ t. some (record { scheme = []; host = [] });
  sign_claims = λ secret c. write_claims c;
  parse_claims = λ secret now t. read_claims now t;
}

decode-encode : (p : StatePayload) → decode (encode p) ≡ some p
decode-encode p =
    let back : (n : ℕ) → n + 100 - 100 ≡ n = λ n. omega arith in
    rw
      (
        unshift-shift (p.nonce ++ p.return_to),
        back (length p.nonce),
        back p.expires,
        cut_at-append p.nonce p.return_to,
      )
      refl

plain-IsSound : IsSound plain
plain-IsSound = record {
  decode-encode = decode-encode;
  encode-no_dot =
      λ p. unfold contains_char in ground (arith, shift-no_dot (p.nonce ++ p.return_to));
  mac-no_dot = λ secret part. unfold contains_char in refl;
  parse_url-root = refl;
}

number_of_lem : (z : ℤ) → number_of (sign_number z) (size_number z) ≡ z
number_of_lem (pos n) = refl
number_of_lem (negsuc n) = refl

plain-ReadsBack : ReadsBack plain
plain-ReadsBack secret c now a h =
    let issued : ltb now c.issued_at ≡ false = ground (arith, a) in
    rw
      (
        cut_at-append c.subject (c.login ++ (c.name ++ c.avatar_url)),
        cut_at-append c.login (c.name ++ c.avatar_url),
        cut_at-append c.name c.avatar_url,
        number_of_lem c.github_id,
        issued,
        lt→ltb now c.expires_at h,
      )
      refl

abbrev site : Config
site = record {
  client_id = codes "id";
  client_secret = codes "secret";
  redirect_url = codes "url";
  jwt_secret = codes "key";
  ttl_seconds = 10;
  cookie_name = codes "c";
  cookie_secure = true;
  frontend_base_url = [];
}

-- GitHub's answer to the token t is the login ann, with the number 5.
abbrev github_send : Request → Option Response
github_send r = some (record { status = 200; body = codes "ann" })

abbrev web : Web
web = record {
  github_auth_url = codes "auth";
  github_token_url = codes "token";
  default_send = github_send;
  is_address = λ t. true;
  auth_code_url = λ cfg state. cfg.auth_url ++ state;
  exchange = λ cfg code. some (codes "t");
  decode_user = λ body. some (record { id = pos 5; login = body; name = []; avatar_url = [] });
}

abbrev github : GithubClient
unfolding new_github_client_from_config
github = new_github_client_from_config web site

abbrev ann : User
ann = user_of (record { id = pos 5; login = codes "ann"; name = []; avatar_url = [] })

abbrev a_payload : StatePayload
a_payload = record { nonce = codes "n"; return_to = codes "/a"; expires = 300 }

abbrev a_state : Text
a_state = encode a_payload ++ codes ".m"

a_accepted : normalize_return_to plain (codes "/a") ≡ ok (codes "/a")
unfolding normalize_return_to contains_char has_prefix
a_accepted = refl

abbrev ann_token : Text
unfolding sign_user claims_of with_id
ann_token = sign_user plain (jwt_manager site) ann 2_000_000_000

ann_fetched : fetch_user web github (codes "t") ≡ some ann
unfolding fetch_user read_user github
ann_fetched = refl

ann_signed_in :
    callback plain site
      (exchange_code web github)
      (fetch_user web github)
      (codes "c")
      a_state
      1_000_000_000
      2_000_000_000
    ≡ ok (ann_token, codes "/a")
unfolding callback validate verify_state verify_parts split same sign_user claims_of with_id
    normalize_return_to contains_char has_prefix ann_token fetch_user read_user github
ann_signed_in = refl

callback-fetch_user_sound_example :
    Signed plain (state_signer site) a_state 1_000_000_000
    × IsLocal (codes "/a")
    × ((access : Text) × (user : User) × (exchange_code web github (codes "c") ≡ some access)
        × Described web github access user
        × ((handle_me plain site (some ann_token) 3_000_000_000).user ≡ some user))
callback-fetch_user_sound_example =
    callback-fetch_user_sound plain web github site (codes "c") a_state ann_token (codes "/a")
      1_000_000_000 2_000_000_000 3_000_000_000 plain-ReadsBack (omega arith) (omega arith)
      ann_signed_in

site_valid : validate site ≡ none
unfolding validate
site_valid = refl

callback-handle_login_example :
    (state : Text) × (handle_login plain web github site (codes "/a") 0 (some (codes "n"))
      ≡ record (answer 302) { location = auth_code_url web github state })
    × (callback plain site
          (exchange_code web github)
          (fetch_user web github)
          (codes "c")
          state
          9_000_000_000
          9_000_000_000
        ≡ ok (sign_user plain (jwt_manager site) ann 9_000_000_000, codes "/a"))
callback-handle_login_example =
    callback-handle_login plain web github site (codes "/a") (codes "/a") (codes "n") (codes "c")
      (codes "t") ann 0 9_000_000_000 9_000_000_000 plain-IsSound site_valid a_accepted
      (omega arith) refl refl ann_fetched
