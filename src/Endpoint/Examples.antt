-- ===== src/Endpoint/Examples.antt =====
-- The ways in at concrete inputs.
use code_runner_backend.Prelude.{
  ℕ, ◌+◌, ◌≤◌, ◌≡◌, refl, Bool, true, false, [], ◌∷◌, Option, none, some, arith, Result, ok, ltb,
}
use code_runner_backend.Prelude.Int.{pos, negsuc, ◌+ℤ◌, ◌-ℤ◌, wrap64}
use code_runner_backend.Prelude.Text.{Text, codes, same, value_from}
use code_runner_backend.Prelude.TextMap.{load, store, empty}
use code_runner_backend.Balancer.P2c.{get, get_index, choose_first, load_of, modify_at, pick, add}
use code_runner_backend.Balancer.P2c
use code_runner_backend.Manager.{add_client, get_client_by_balance, pick_loop, done}
use code_runner_backend.Dispatch.{execute}
use code_runner_backend.Dispatch.Sample.{p2c, both, at_second, hello}
use code_runner_backend.Endpoint.{
  TokenLib, GenerateTokenRequest, public_token, verify, Metadata, trace_of, unary_interceptor,
  RpcError, byte_length, max_code_block_size, accepted, execute_endpoint, serve_execute, parse_int,
  parse_digits,
}
use code_runner_backend.Endpoint.Access.{
  SignedIsValid, Admitted, interceptor-public_token, serve_execute_accepts,
}

-- A library whose token is the time up to which it is valid.
abbrev plain : TokenLib
plain = record {
  sign = λ secret name expires. some (expires ∷ []);
  parse = λ secret now t. elim t [ [] ↦ none | e ∷ _ ↦ some (ltb now e) ];
}

plain-SignedIsValid : SignedIsValid plain
plain-SignedIsValid secret name t expires now e h = ground (arith, e, h)

abbrev asks : GenerateTokenRequest
asks = record { name = codes "ann"; password = codes "pw" }

abbrev issued : Text
issued = 86405 ∷ []

token_given : public_token plain (codes "k") (codes "pw") asks 5_000_000_000 ≡ ok issued
unfolding public_token same
token_given = refl

abbrev brings : Metadata
brings = record { tokens = some (issued ∷ []); trace_ids = [] }

abbrev echoes : Option Text → ℕ → Result RpcError (Option Text) × ℕ
echoes trace n = (ok trace, n + 1)

interceptor-public_token_example :
    unary_interceptor
      (verify plain (codes "k") 6_000_000_000)
      (codes "t1")
      (codes "/x")
      (some brings)
      echoes
      3
    ≡ (ok (some (trace_of brings (codes "t1"))), 4)
unfolding same
interceptor-public_token_example =
    interceptor-public_token plain (codes "k") (codes "pw") asks 5_000_000_000 6_000_000_000
      (codes "t1") (codes "/x") echoes 3 brings issued [] plain-SignedIsValid token_given
      (omega arith) refl refl

abbrev always : Text → Bool
always t = true

hello_answered :
    (serve_execute p2c always (codes "t1") (some brings) at_second hello both).0
    ≡ ok (accepted hello)
unfolding serve_execute execute_endpoint unary_interceptor byte_length same execute
    get_client_by_balance pick_loop add_client done get get_index choose_first load_of modify_at
    pick add P2c.done store load empty ◌+ℤ◌ ◌-ℤ◌ wrap64
hello_answered = refl

serve_execute_accepts_example :
    Admitted always (some brings)
    × (byte_length hello.code_block ≤ max_code_block_size)
    × ((id : Text) × ((execute p2c at_second hello both).0 ≡ ok id))
    × (accepted hello ≡ accepted hello)
    × ((serve_execute p2c always (codes "t1") (some brings) at_second hello both).1
        ≡ (execute p2c at_second hello both).1)
serve_execute_accepts_example =
    serve_execute_accepts p2c always (codes "t1") (some brings) at_second hello both
      (accepted hello) hello_answered

abbrev never : Text → Bool
never t = false

weights :
    (parse_int (codes "12") ≡ some (pos 12))
    × (parse_int (codes "-3") ≡ some (negsuc 2))
    × (parse_int (codes "+0") ≡ some (pos 0))
    × (parse_int (codes "") ≡ none)
    × (parse_int (codes "1 ") ≡ none)
    × (parse_int (codes "9223372036854775807") ≡ some (pos 9223372036854775807))
    × (parse_int (codes "9223372036854775808") ≡ none)
    × (parse_int (codes "-9223372036854775808") ≡ some (negsuc 9223372036854775807))
unfolding parse_int parse_digits value_from
weights = (refl, refl, refl, refl, refl, refl, refl, refl)

-- Two bytes each.
bytes : byte_length (codes "éé") ≡ 4
unfolding byte_length
bytes = refl
