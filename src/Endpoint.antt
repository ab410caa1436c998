-- ===== src/Endpoint.antt =====
-- The ways in: internal/interfaces/adapter/middleware/interceptor.go, internal/infrastructure/common/
-- token/tokenPublic.go and internal/interfaces/controller/server. The token library, the ids that are
-- made up and the clock are arguments; logging and tracing are left out but for the trace id.
pub mod Access
mod Examples
use code_runner_backend.Prelude.{
  ℕ, zero, suc, ◌+◌, ◌*◌, ◌/◌, Bool, true, false, not, List, [], ◌∷◌, Option, none, some,
  if◌then◌else◌, ltb, leb, ◌==◌, ◌&&◌, ◌||◌, Result, ok, err, any, every,
}
use code_runner_backend.Prelude.Int.{ℤ, pos, negsuc, half_range}
use code_runner_backend.Prelude.Text.{Text, codes, same, is_empty, value_from}
use code_runner_backend.Api.{ExecuteRequest, ExecuteResponse}
use code_runner_backend.Balancer.{LoadBalancer}
use code_runner_backend.Manager.{Manager}
use code_runner_backend.Dispatch.{SendError, SendWorld, Reply, execute, execute_sync, connect}

-- golang-jwt: a token signed with a secret for a name up to a time in seconds; and what parsing gives at
-- a time, whether the token is valid or an error.
pub record TokenLib : Type 0 where
  pub sign : Text → Text → ℕ → Option Text
  pub parse : Text → ℕ → Text → Option Bool

pub record GenerateTokenRequest : Type 0 where
  pub name : Text
  pub password : Text

pub data TokenError : Type 0 where
  wrong_password not_signed : TokenError

abbrev pub second : ℕ
second = 1_000_000_000

abbrev pub token_ttl : ℕ
token_ttl = 24 * 3600 * second

-- token.Public: `now` in nanoseconds.
unfoldable pub public_token :
    TokenLib → Text → Text → GenerateTokenRequest → ℕ → Result TokenError Text
public_token lib secret password r now =
    if not (same r.password password)
    then err wrong_password
    else elim (lib.sign secret r.name ((now + token_ttl) / second)) [
      | none ↦ err not_signed
      | some t ↦ ok t
    ]

unfoldable pub verify : TokenLib → Text → ℕ → Text → Bool
verify lib secret now t = elim (lib.parse secret (now / second) t) [
  | none ↦ false
  | some valid ↦ valid
]

pub data RpcError : Type 0 where
  missing_metadata token_not_found invalid_token code_too_long : RpcError
  not_sent : SendError → RpcError

-- The values under `token`, if the key is there, and those under `x-trace-id`.
pub record Metadata : Type 0 where
  pub tokens : Option (List Text)
  pub trace_ids : List Text

abbrev first_or_empty : List Text → Text
first_or_empty [] = []
first_or_empty (t ∷ _) = t

-- The trace id of a request: the caller's, or else a new one.
unfoldable pub trace_of : Metadata → Text → Text
trace_of md made = let given = first_or_empty md.trace_ids in if is_empty given then made else given

abbrev pub token_method : Text
token_method = codes "/codeRunner.v1.tokenIssuer/GenerateToken"

-- UnaryInterceptor: `handler` is given the trace id, if one is set.
unfoldable pub unary_interceptor :
    {S : Type 0} {A : Type 0}
    → (Text → Bool)
    → Text
    → Text
    → Option Metadata
    → (Option Text → S → Result RpcError A × S)
    → S
    → Result RpcError A × S
unfolding trace_of
unary_interceptor verified made full_method md handler s =
    if same full_method token_method then handler none s else elim md [
      | none ↦ (err missing_metadata, s)
      | some m ↦ elim m.tokens [
        | none ↦ (err token_not_found, s)
        | some [] ↦ (err token_not_found, s)
        | some (t ∷ _) ↦
            if verified t then handler (some (trace_of m made)) s else (err invalid_token, s)
      ]
    ]

-- `len` of a string: the bytes of its UTF-8.
unfoldable pub byte_length : Text → ℕ
byte_length [] = 0
byte_length (c ∷ s) =
    let rest = byte_length s in
    (if ltb c 0x80 then 1 else if ltb c 0x800 then 2 else if ltb c 0x1_0000 then 3 else 4) + rest

abbrev pub max_code_block_size : ℕ
max_code_block_size = 64 * 1024

abbrev pub accepted : ExecuteRequest → ExecuteResponse
accepted r = record {
  id = r.id;
  uid = 0;
  grpc_code = codes "accepted";
  result = [];
  err = [];
  call_back_url = [];
}

pub record HttpAnswer : Type 0 where
  pub id : Text
  pub result : Text
  pub err : Text
  pub language : Text

-- `strconv.ParseInt(s, 10, 64)`: a sign or none, then digits, and a value in the range.
abbrev is_digit : ℕ → Bool
is_digit c = leb b'0' c && leb c b'9'

unfoldable pub parse_digits : Text → Option ℕ
parse_digits s =
    if is_empty s then none else if every is_digit s then some (value_from 0 s) else none

unfoldable pub parse_int : Text → Option ℤ
unfolding parse_digits
parse_int [] = none
parse_int (c ∷ s) =
    if c == b'-'
    then elim (parse_digits s) [
      | none ↦ none
      | some zero ↦ some (pos 0)
      | some (suc n) ↦ if leb (suc n) half_range then some (negsuc n) else none
    ]
    else elim (parse_digits (if c == b'+' then s else c ∷ s)) [
      | none ↦ none
      | some n ↦ if ltb n half_range then some (pos n) else none
    ]

module _ (b : LoadBalancer) where
  open b use {State, Env}

  -- EndpointCtl.Execute
  unfoldable pub execute_endpoint :
      SendWorld Env
      → ExecuteRequest
      → Manager State
      → Result RpcError ExecuteResponse × Manager State
  unfolding byte_length
  execute_endpoint w r s =
      if ltb max_code_block_size (byte_length r.code_block)
      then (err code_too_long, s)
      else let (sent, t) = execute b w r s in
        elim sent [ err e ↦ (err (not_sent e), t) | ok _ ↦ (ok (accepted r), t) ]

  -- A call of Execute as it comes in: the interceptor and then the endpoint.
  unfoldable pub serve_execute :
      (Text → Bool)
      → Text
      → Option Metadata
      → SendWorld Env
      → ExecuteRequest
      → Manager State
      → Result RpcError ExecuteResponse × Manager State
  unfolding unary_interceptor execute_endpoint
  serve_execute verified made md w r s =
      unary_interceptor verified made (codes "/codeRunner.v1.CodeRunner/Execute") md
        (λ trace t. execute_endpoint w r t) s

  -- ExecuteHandler: the status, and the answer with the id that was made for the request. A body without
  -- a language or a code block is refused.
  unfoldable pub execute_handler :
      SendWorld Env
      → Reply
      → Text
      → Option (Text × Text)
      → Manager State
      → ℕ × Option HttpAnswer × Manager State
  unfolding byte_length
  execute_handler w reply id none s = (400, none, s)
  execute_handler w reply id (some (language, code)) s =
      if is_empty language || is_empty code || ltb max_code_block_size (byte_length code)
      then (400, none, s)
      else let (r, t) = execute_sync b w reply s in
        elim r [
          | err _ ↦ (500, none, t)
          | ok resp ↦ (
            200,
            some (record { id = id; result = resp.result; err = resp.err; language = language }),
            t,
          )
        ]

  -- HandleServer up to the first Read of the connection: the weight, the upgrade, the start of Run.
  unfoldable pub handle_server : Text → Bool → Text → ℕ → Manager State → Manager State
  unfolding parse_int
  handle_server weight_string upgrades id now s = elim (parse_int weight_string) [
    | none ↦ s
    | some weight ↦ if upgrades then connect b id weight now s else s
  ]
