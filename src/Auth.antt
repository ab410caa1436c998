-- ===== src/Auth.antt =====
-- internal/auth: the sign-in with GitHub. What it uses of hashes, encodings, addresses and tokens is
-- the record Crypto; GitHub's answers are arguments.
pub mod Return
pub mod State
pub mod Token
pub mod Service
pub mod Github
pub mod SignIn
mod Examples
use code_runner_backend.Prelude.{ℕ, Bool, Option}
use code_runner_backend.Prelude.Int.{ℤ}
use code_runner_backend.Prelude.Text.{Text}

pub record User : Type 0 where
  pub id : Text
  pub github_id : ℤ
  pub login : Text
  pub name : Text
  pub avatar_url : Text

pub record StatePayload : Type 0 where
  pub nonce : Text
  pub return_to : Text
  pub expires : ℕ

-- userClaims; the times are in seconds.
pub record UserClaims : Type 0 where
  pub subject : Text
  pub github_id : ℤ
  pub login : Text
  pub name : Text
  pub avatar_url : Text
  pub issued_at : ℕ
  pub expires_at : ℕ

-- What url.Parse gives.
pub record Url : Type 0 where
  pub scheme : Text
  pub host : Text

pub record Crypto : Type 0 where
  -- HMAC-SHA256 of a text under a secret, in base64
  pub mac : Text → Text → Text
  -- the payload as JSON in base64, and back
  pub encode : StatePayload → Text
  pub decode : Text → Option StatePayload
  pub parse_url : Text → Option Url
  -- a token signed with a secret, and what a token says that is signed with it, and that the
  -- time is in, from its issue until it expires
  pub sign_claims : Text → UserClaims → Text
  pub parse_claims : Text → ℕ → Text → Option UserClaims
