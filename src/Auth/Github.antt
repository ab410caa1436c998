-- ===== src/Auth/Github.antt =====
-- github_client.go: the requests to GitHub. The OAuth library, the HTTP client and the JSON decoder
-- are the record Web; its `send` answers a request, or fails.
use code_runner_backend.Prelude.{
  ℕ, ◌≤◌, ◌<◌, ◌≡◌, refl, Bool, not, ◌||◌, List, [], ◌∷◌, ◌++◌, Option, none, some, if◌then◌else◌,
  arith, inl, inr, Option-cases, ltb, leb,
}
use code_runner_backend.Prelude.Int.{ℤ}
use code_runner_backend.Prelude.Text.{Text, codes, is_empty}
use code_runner_backend.Auth.{User}
use code_runner_backend.Auth.Service.{Config}
use code_runner_backend.Auth.Token.{decimal_int, with_id}

pub record OauthConfig : Type 0 where
  pub client_id : Text
  pub client_secret : Text
  pub redirect_url : Text
  pub scopes : List Text
  pub auth_url : Text
  pub token_url : Text

-- A request with the headers Authorization and Accept.
pub record Request : Type 0 where
  pub url : Text
  pub authorization : Text
  pub accept : Text

pub record Response : Type 0 where
  pub status : ℕ
  pub body : Text

-- githubUserResponse
pub record GithubUser : Type 0 where
  pub id : ℤ
  pub login : Text
  pub name : Text
  pub avatar_url : Text

pub record Web : Type 0 where
  -- github.Endpoint, http.DefaultClient, and whether http.NewRequest takes an address
  pub github_auth_url : Text
  pub github_token_url : Text
  pub default_send : Request → Option Response
  pub is_address : Text → Bool
  pub auth_code_url : OauthConfig → Text → Text
  pub exchange : OauthConfig → Text → Option Text
  pub decode_user : Text → Option GithubUser

pub record GithubClient : Type 0 where
  pub oauth_config : OauthConfig
  pub api_base_url : Text
  pub send : Request → Option Response

unfoldable pub new_github_client :
    Web → OauthConfig → Text → Option (Request → Option Response) → GithubClient
new_github_client w cfg api_base_url send = record {
  oauth_config =
      if is_empty cfg.auth_url
      then record cfg { auth_url = w.github_auth_url; token_url = w.github_token_url }
      else cfg;
  api_base_url = if is_empty api_base_url then codes "https://api.github.com" else api_base_url;
  send = elim send [ none ↦ w.default_send | some f ↦ f ];
}

unfoldable pub new_github_client_from_config : Web → Config → GithubClient
unfolding new_github_client
new_github_client_from_config w cfg =
    new_github_client w
      (record {
        client_id = cfg.client_id;
        client_secret = cfg.client_secret;
        redirect_url = cfg.redirect_url;
        scopes = codes "read:user" ∷ [];
        auth_url = w.github_auth_url;
        token_url = w.github_token_url;
      })
      [] (some w.default_send)

abbrev pub user_request : GithubClient → Text → Request
user_request g access = record {
  url = g.api_base_url ++ codes "/user";
  authorization = codes "Bearer " ++ access;
  accept = codes "application/vnd.github+json";
}

abbrev pub user_of : GithubUser → User
user_of gh = record {
  id = codes "github:" ++ decimal_int gh.id;
  github_id = gh.id;
  login = gh.login;
  name = gh.name;
  avatar_url = gh.avatar_url;
}

unfoldable pub read_user : Web → Response → Option User
read_user w response =
    if ltb response.status 200 || leb 300 response.status
    then none
    else elim (w.decode_user response.body) [ none ↦ none | some gh ↦ some (user_of gh) ]

unfoldable pub fetch_user : Web → GithubClient → Text → Option User
unfolding read_user
fetch_user w g access =
    if not (w.is_address (g.api_base_url ++ codes "/user"))
    then none
    else elim (g.send (user_request g access)) [
      | none ↦ none
      | some response ↦ read_user w response
    ]

-- GitHub's answer to a request with this access token, and the user that it describes.
pub record Described (w : Web) (g : GithubClient) (access : Text) (user : User) : Type 0 where
  pub response : Response
  pub gh : GithubUser
  pub answered : g.send (user_request g access) ≡ some response
  pub above : 200 ≤ response.status
  pub below : response.status < 300
  pub decoded : w.decode_user response.body ≡ some gh
  pub same_user : user ≡ user_of gh

-- A user comes only from an answer with a status from 200 to 299 whose body describes that user.
pub fetch_user-Described :
    (w : Web) (g : GithubClient) (access : Text) (user : User)
    → fetch_user w g access ≡ some user
    → Described w g access user
unfolding fetch_user read_user
fetch_user-Described w g access user h = elim (Option-cases (g.send (user_request g access))) [
  | inl e ↦ absurd (ground arith)
  | inr (response, e) ↦ elim (Option-cases (w.decode_user response.body)) [
    | inl d ↦ absurd (ground arith)
    | inr (gh, d) ↦ record {
      response = response;
      gh = gh;
      answered = e;
      above = ground arith;
      below = ground arith;
      decoded = d;
      same_user = ground arith;
    }
  ]
]

-- The user of an account at GitHub has an id already, which the token keeps.
pub with_id-user_of : (gh : GithubUser) → with_id (user_of gh) ≡ user_of gh
unfolding with_id
with_id-user_of gh = refl
