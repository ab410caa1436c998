-- ===== src/Auth/State.antt =====
-- state.go: the state of a sign-in, signed so that it comes back unchanged.
use code_runner_backend.Prelude.{
  ℕ, ◌+◌, ◌/◌, ◌≤◌, ◌≡◌, refl, sym, ap, ◌∙◌, false, not, List, [], ◌∷◌, ◌++◌, Option, none, some,
  if◌then◌else◌, ltb, Result, ok, err, arith, inl, inr, Option-cases,
}
use code_runner_backend.Prelude.Text.{
  Text, codes, same, same_iff, same_refl, contains_char, split, split-append,
}
use code_runner_backend.Auth.{Crypto, StatePayload}
use code_runner_backend.Auth.Return.{
  ReturnError, normalize_return_to, normalize_return_to_idem, normalize_return_to-IsLocal, IsLocal,
}

pub record StateSigner : Type 0 where
  pub secret : Text
  pub ttl : ℕ

pub data StateError : Type 0 where
  bad_return : ReturnError → StateError
  no_random bad_format bad_signature not_decoded expired : StateError

abbrev pub second : ℕ
second = 1_000_000_000

abbrev pub with_return : {T : Type 0} → Result ReturnError T → Result StateError T
with_return (err e) = err (bad_return e)
with_return (ok t) = ok t

-- `nonce`: the random text, if there is any; `now` in nanoseconds.
unfoldable pub sign_state : Crypto → StateSigner → Text → ℕ → Option Text → Result StateError Text
sign_state c s return_to now nonce = elim (normalize_return_to c return_to) [
  | err e ↦ err (bad_return e)
  | ok normalized ↦ elim nonce [
    | none ↦ err no_random
    | some nonce ↦
        let part =
          c.encode
            (record { nonce = nonce; return_to = normalized; expires = (now + s.ttl) / second }) in
        ok (part ++ b'.' ∷ c.mac s.secret part)
  ]
]

unfoldable pub verify_parts : Crypto → StateSigner → Text → Text → ℕ → Result StateError Text
verify_parts c s part signature now =
    if not (same (c.mac s.secret part) signature) then err bad_signature else elim (c.decode part) [
      | none ↦ err not_decoded
      | some payload ↦
          if ltb payload.expires (now / second)
          then err expired
          else with_return (normalize_return_to c payload.return_to)
    ]

abbrev two_parts : {T : Type 0} → (Text → Text → T) → T → List Text → T
two_parts f other (a ∷ b ∷ []) = f a b
two_parts f other _ = other

unfoldable pub verify_state : Crypto → StateSigner → Text → ℕ → Result StateError Text
unfolding verify_parts
verify_state c s state now =
    two_parts (λ part signature. verify_parts c s part signature now) (err bad_format)
      (split b'.' state)

-- What the encodings promise: a payload comes back, and neither base64 text has a dot in it.
pub record IsSound (c : Crypto) : Type 0 where
  pub decode-encode : (p : StatePayload) → c.decode (c.encode p) ≡ some p
  pub encode-no_dot : (p : StatePayload) → contains_char b'.' (c.encode p) ≡ false
  pub mac-no_dot : (secret part : Text) → contains_char b'.' (c.mac secret part) ≡ false
  pub parse_url-root : c.parse_url (codes "/") ≡ some (record { scheme = []; host = [] })

-- With sound encodings, a state that was signed for an accepted address is verified until its time
-- has passed, and gives that address; afterwards it is expired.
pub verify_state-sign_state :
    (c : Crypto) (s : StateSigner) (return_to path nonce : Text) (now later : ℕ) (state : Text)
    → IsSound c
    → normalize_return_to c return_to ≡ ok path
    → sign_state c s return_to now (some nonce) ≡ ok state
    → verify_state c s state later
      ≡ (if ltb ((now + s.ttl) / second) (later / second) then err expired else ok path)
unfolding sign_state
verify_state-sign_state c s return_to path nonce now later state v n h =
    let payload : StatePayload = record {
      nonce = nonce;
      return_to = path;
      expires = (now + s.ttl) / second;
    } in
    let part = c.encode payload in
    let made : part ++ b'.' ∷ c.mac s.secret part ≡ state = ground arith in
    let again = normalize_return_to_idem c return_to path v.parse_url-root n in
    rw (← made) (
      parts payload
      ∙ ap (λ r. if ltb payload.expires (later / second) then err expired else with_return r) again)
  where
    parts :
        (payload : StatePayload)
        → verify_state c s (c.encode payload ++ b'.' ∷ c.mac s.secret (c.encode payload)) later ≡ (
            if ltb payload.expires (later / second)
            then err expired
            else with_return (normalize_return_to c payload.return_to))
    parts payload =
        unfold verify_state verify_parts in
        rw
          (
            split-append b'.' (c.encode payload) (c.mac s.secret (c.encode payload))
                (v.encode-no_dot payload) (v.mac-no_dot s.secret (c.encode payload)),
            same_refl (c.mac s.secret (c.encode payload)),
            v.decode-encode payload,
          )
          refl

-- What a state that is verified stands for.
pub record Signed (c : Crypto) (s : StateSigner) (state : Text) (now : ℕ) : Type 0 where
  pub part : Text
  pub payload : StatePayload
  pub cut : split b'.' state ≡ part ∷ c.mac s.secret part ∷ []
  pub decoded : c.decode part ≡ some payload
  pub in_time : now / second ≤ payload.expires

verify_parts_sound :
    (c : Crypto) (s : StateSigner) (part signature path : Text) (now : ℕ)
    → verify_parts c s part signature now ≡ ok path
    → (c.mac s.secret part ≡ signature)
      × ((p : StatePayload) × (c.decode part ≡ some p)
          × (now / second ≤ p.expires)
          × (normalize_return_to c p.return_to ≡ ok path))
unfolding verify_parts
verify_parts_sound c s part signature path now h = elim (Option-cases (c.decode part)) [
  | inl e ↦ absurd (ground (arith, same_iff (c.mac s.secret part) signature))
  | inr (p, e) ↦
      let sig : c.mac s.secret part ≡ signature =
        ground (arith, same_iff (c.mac s.secret part) signature) in
      let time : now / second ≤ p.expires = ground arith in
      let rest : with_return (normalize_return_to c p.return_to) ≡ ok path = ground arith in
      (sig, (p, e, time, plain (normalize_return_to c p.return_to) rest))
]
  where
    plain : (r : Result ReturnError Text) → with_return r ≡ ok path → r ≡ ok path
    plain (err e) h = absurd (cc)
    plain (ok t) h = cc

-- Only a state that is a payload and its signature under the secret is verified, and only in its
-- time; the address that comes out is one of the same site.
pub verify_state_sound :
    (c : Crypto) (s : StateSigner) (state path : Text) (now : ℕ)
    → verify_state c s state now ≡ ok path
    → Signed c s state now × IsLocal path
unfolding verify_state
verify_state_sound c s state path now h = go (split b'.' state) refl h
  where
    go :
        (parts : List Text)
        → split b'.' state ≡ parts
        → two_parts (λ part signature. verify_parts c s part signature now) (err bad_format) parts
          ≡ ok path
        → Signed c s state now × IsLocal path
    go [] e k = absurd (cc)
    go (a ∷ []) e k = absurd (cc)
    go (a ∷ b ∷ d ∷ rest) e k = absurd (cc)
    go (a ∷ b ∷ []) e k =
        let found = verify_parts_sound c s a b path now k in
        (
          record {
            part = a;
            payload = found.1.0;
            cut = e ∙ ap (λ t. a ∷ t ∷ []) (sym found.0);
            decoded = found.1.1;
            in_time = found.1.2;
          },
          normalize_return_to-IsLocal c found.1.0.return_to path found.1.3,
        )
