-- ===== src/Endpoint/Access.antt =====
-- The ways in: what comes through them.
use code_runner_backend.Prelude.{
  ℕ, ◌+◌, ◌/◌, ◌≤◌, ◌<◌, ◌≡◌, ◌⊎◌, refl, Bool, true, false, List, [], ◌∷◌, Option, none, some, ltb,
  arith, inl, inr, Option-cases, Bool-cases, Result, ok, err, Result-cases, ap, sym, ◌∙◌,
}
use code_runner_backend.Prelude.Text.{Text, codes, same}
use code_runner_backend.Api.{ExecuteRequest, ExecuteResponse}
use code_runner_backend.Balancer.{LoadBalancer}
use code_runner_backend.Manager.{Manager}
use code_runner_backend.Dispatch.{SendWorld, execute}
use code_runner_backend.Endpoint.{
  TokenLib, GenerateTokenRequest, second, token_ttl, public_token, verify, RpcError,
  missing_metadata, token_not_found, invalid_token, Metadata, trace_of, token_method,
  unary_interceptor, byte_length, max_code_block_size, accepted, execute_endpoint, serve_execute,
}

-- The token library: what was signed is valid before the time that it names.
abbrev pub SignedIsValid : TokenLib → Type 0
SignedIsValid lib =
    (secret name t : Text) (expires now : ℕ)
    → lib.sign secret name expires ≡ some t
    → now < expires
    → lib.parse secret now t ≡ some true

-- The first token that a call brings.
abbrev pub first_token : Option Metadata → Option Text
first_token none = none
first_token (some m) = elim m.tokens [ none ↦ none | some [] ↦ none | some (t ∷ _) ↦ some t ]

abbrev pub Admitted : (Text → Bool) → Option Metadata → Type 0
Admitted verified md = (t : Text) × (first_token md ≡ some t) × (verified t ≡ true)

module _ {S A : Type 0} (verified : Text → Bool) (made full_method : Text)
    (handler : Option Text → S → Result RpcError A × S) (s : S) where
  abbrev through : Option Metadata → Result RpcError A × S
  through md = unary_interceptor verified made full_method md handler s

  -- A call of another method than that for tokens either brings a token that is verified, and is
  -- handled with a trace id, or is refused and changes nothing.
  interceptor-cases :
      (md : Option Metadata)
      → same full_method token_method ≡ false
      → (Admitted verified md × ((trace : Text) × (through md ≡ handler (some trace) s)))
        ⊎ ((e : RpcError) × (through md ≡ (err e, s)))
  unfolding unary_interceptor
  interceptor-cases none other = inr (missing_metadata, ground (arith, other))
  interceptor-cases (some m) other = elim (Option-cases m.tokens) [
    | inl e ↦ inr (token_not_found, ground (arith, other, e))
    | inr ([], e) ↦ inr (token_not_found, ground (arith, other, e))
    | inr (t ∷ ts, e) ↦ elim (Bool-cases (verified t)) [
      | inl v ↦ inl ((t, ground (arith, e), v), (trace_of m made, ground (arith, other, e, v)))
      | inr v ↦ inr (invalid_token, ground (arith, other, e, v))
    ]
  ]

  -- With a verified token the handler is what answers.
  interceptor_admits :
      (m : Metadata) (t : Text) (ts : List Text)
      → same full_method token_method ≡ false
      → m.tokens ≡ some (t ∷ ts)
      → verified t ≡ true
      → through (some m) ≡ handler (some (trace_of m made)) s
  unfolding unary_interceptor
  interceptor_admits m t ts other e v = ground (arith, other, e, v)

-- A token that was issued to the right password lets every call of another method through for a day.
pub interceptor-public_token :
    {S A : Type 0}
    → (lib : TokenLib) (secret password : Text) (r : GenerateTokenRequest) (now later : ℕ)
      (made full_method : Text) (handler : Option Text → S → Result RpcError A × S) (s : S)
      (m : Metadata) (t : Text) (ts : List Text)
    → SignedIsValid lib
    → public_token lib secret password r now ≡ ok t
    → later / second < (now + token_ttl) / second
    → same full_method token_method ≡ false
    → m.tokens ≡ some (t ∷ ts)
    → unary_interceptor (verify lib secret later) made full_method (some m) handler s
      ≡ handler (some (trace_of m made)) s
unfolding public_token verify
interceptor-public_token lib secret password r now later made full_method handler s m t ts v e d
      other k =
    interceptor_admits (verify lib secret later) made full_method handler s m t ts other k
      (elim (Option-cases (lib.sign secret r.name ((now + token_ttl) / second))) [
        | inl f ↦ absurd (ground (arith, e, f))
        | inr (t', f) ↦
            ground
              (arith, e, f, v secret r.name t' ((now + token_ttl) / second) (later / second) f d)
      ])

module _ (b : LoadBalancer) where
  open b use {State, Env}

  -- A call of Execute brings a verified token and goes to the endpoint, or is refused and leaves the
  -- manager as it was.
  pub serve_execute-cases :
      (verified : Text → Bool) (made : Text) (md : Option Metadata) (w : SendWorld Env)
      (r : ExecuteRequest) (s : Manager State)
      → (Admitted verified md × (serve_execute b verified made md w r s ≡ execute_endpoint b w r s))
        ⊎ ((e : RpcError) × (serve_execute b verified made md w r s ≡ (err e, s)))
  unfolding serve_execute same
  serve_execute-cases verified made md w r s =
      elim (interceptor-cases verified made (codes "/codeRunner.v1.CodeRunner/Execute")
        (λ trace t. execute_endpoint b w r t) s md refl) [
          | inl (a, (trace, e)) ↦ inl (a, e)
          | inr e ↦ inr e
        ]

  execute_endpoint_accepts :
      (w : SendWorld Env) (r : ExecuteRequest) (s : Manager State) (x : ExecuteResponse)
      → (execute_endpoint b w r s).0 ≡ ok x
      → (byte_length r.code_block ≤ max_code_block_size)
        × ((id : Text) × ((execute b w r s).0 ≡ ok id))
        × (x ≡ accepted r)
        × ((execute_endpoint b w r s).1 ≡ (execute b w r s).1)
  unfolding execute_endpoint
  execute_endpoint_accepts w r s x e =
      elim (Bool-cases (ltb max_code_block_size (byte_length r.code_block))) [
        | inl f ↦ absurd (ground (arith, e, f))
        | inr f ↦ elim (Result-cases (execute b w r s).0) [
          | inl (y, g) ↦ absurd (ground (arith, e, f, g))
          | inr (id, g) ↦
              (ground (arith, f), (id, g), ground (arith, e, f, g), ground (arith, f, g))
        ]
      ]

  -- A call of Execute that is answered without an error brings first a token that is verified, has a
  -- code block of 64 KiB at most, counted in bytes, and was sent to a worker: the answer says so with the
  -- id of the request, and the manager is as sending it leaves it.
  pub serve_execute_accepts :
      (verified : Text → Bool) (made : Text) (md : Option Metadata) (w : SendWorld Env)
      (r : ExecuteRequest) (s : Manager State) (x : ExecuteResponse)
      → (serve_execute b verified made md w r s).0 ≡ ok x
      → Admitted verified md
        × (byte_length r.code_block ≤ max_code_block_size)
        × ((id : Text) × ((execute b w r s).0 ≡ ok id))
        × (x ≡ accepted r)
        × ((serve_execute b verified made md w r s).1 ≡ (execute b w r s).1)
  serve_execute_accepts verified made md w r s x e =
      elim (serve_execute-cases verified made md w r s) [
        | inl (a, q) ↦
            let (size, sent, answer, left) =
              execute_endpoint_accepts w r s x (ap (λ p. p.0) (sym q) ∙ e) in
            (a, size, sent, answer, ap (λ p. p.1) q ∙ left)
        | inr (y, q) ↦ absurd (ground (arith, e, q))
      ]

  -- Without a token that is verified, Execute is refused and the manager is as it was.
  pub serve_execute_refuses :
      (verified : Text → Bool) (made : Text) (md : Option Metadata) (w : SendWorld Env)
      (r : ExecuteRequest) (s : Manager State)
      → ((t : Text) → first_token md ≡ some t → verified t ≡ false)
      → (e : RpcError) × (serve_execute b verified made md w r s ≡ (err e, s))
  serve_execute_refuses verified made md w r s h =
      elim (serve_execute-cases verified made md w r s) [
        | inl ((t, f, v), q) ↦ absurd (cc (h t f, v))
        | inr e ↦ e
      ]
