-- ===== src/Worker/Serve.antt =====
-- internal/domain/client/entity/innerServer.go, internal/application/service/client/service.go and
-- CallBackSend of internal/infrastructure/websocket/client/client.go: a request is run and answered.
use code_runner_backend.Prelude.{
  ℕ, zero, suc, ◌+◌, ◌<◌, ◌≡◌, ◌≢◌, refl, ap, sym, subst, ◌∙◌, not, ◌⊎◌, Bool, true, false, Option,
  none, some, if◌then◌else◌, arith, inl, inr, Bool-cases, ◌==◌,
}
use code_runner_backend.Prelude.Text.{Text, codes}
use code_runner_backend.Api.{ExecuteResponse}

-- protocol.MsgType, of the two requests.
pub data MsgType : Type 0 where
  execute execute_sync : MsgType

-- An attempt of CallBackSend: the request cannot be made, the post fails, or it has a status.
pub data Post : Type 0 where
  not_built : Post
  post_failed : Post
  answered : ℕ → Post

pub data SendError : Type 0 where
  bad_request result_send_fail post_error write_failed : SendError

abbrev pub callback_max_retries : ℕ
callback_max_retries = 3

-- The loop, from an attempt on, with the last error: the answer and how many attempts were made.
unfoldable pub post_loop : (ℕ → Post) → ℕ → ℕ → Option SendError → Option SendError × ℕ
post_loop posts zero attempt last = (last, attempt)
post_loop posts (suc left) attempt last = elim (posts attempt) [
  | not_built ↦ (some bad_request, attempt + 1)
  | post_failed ↦ post_loop posts left (attempt + 1) (some post_error)
  | answered status ↦ elim (status == 200) [
    | true ↦ (none, attempt + 1)
    | false ↦ post_loop posts left (attempt + 1) (some result_send_fail)
  ]
]

unfoldable pub call_back_send : (ℕ → Post) → Option SendError × ℕ
unfolding post_loop
call_back_send posts = post_loop posts callback_max_retries 0 none

-- What one request leads to: the error text of the answer is set from the error of the run.
pub data Answer : Type 0 where
  posted : ExecuteResponse → Option SendError → Answer
  sent_back : ExecuteResponse → Option SendError → Answer
  crashed : Answer

-- InnerServerDomainImpl.RunCode: the response, or nil, and the error. `ran`: what Container.RunCode
-- returns; `reported`: does the message with the duration go out?
unfoldable pub inner_run_code :
    ExecuteResponse × Option Text → Bool → Option ExecuteResponse × Option Text
inner_run_code (response, some e) reported = (some response, some e)
inner_run_code (response, none) true = (some response, none)
inner_run_code (response, none) false = (none, some (codes "websocket"))

-- `if err != nil { response.Err = err.Error() }`
unfoldable pub with_error : ExecuteResponse → Option Text → ExecuteResponse
with_error response none = response
with_error response (some e) = record response { err = e }

-- The rest of a round of Run. A nil response is dereferenced to set its error.
unfoldable pub answer_request :
    MsgType → Option ExecuteResponse × Option Text → (ℕ → Post) → Bool → Answer
unfolding call_back_send with_error
answer_request kind (none, e) posts written = crashed
answer_request execute_sync (some response, e) posts written =
    sent_back (with_error response e) (if written then none else some write_failed)
answer_request execute (some response, e) posts written =
    posted (with_error response e) (call_back_send posts).0

-- A round of Run: run the code, report the duration, answer.
unfoldable pub serve : MsgType → ExecuteResponse × Option Text → Bool → (ℕ → Post) → Bool → Answer
unfolding inner_run_code answer_request
serve kind ran reported posts written =
    answer_request kind (inner_run_code ran reported) posts written

-- Has the post with this number been answered with 200?
abbrev pub delivers : Post → Bool
delivers (answered status) = status == 200
delivers _ = false

-- Is another post made after this one?
abbrev pub retries : Post → Bool
retries not_built = false
retries post_failed = true
retries (answered status) = not (status == 200)

Post-cases :
    (p : Post) → (p ≡ not_built) ⊎ (p ≡ post_failed) ⊎ ((status : ℕ) × (p ≡ answered status))
Post-cases not_built = inl refl
Post-cases post_failed = inr (inl refl)
Post-cases (answered status) = inr (inr (status, refl))

post_loop_stops :
    (posts : ℕ → Post) (left attempt : ℕ) (last : Option SendError)
    → delivers (posts attempt) ≡ true
    → post_loop posts (suc left) attempt last ≡ (none, attempt + 1)
unfolding post_loop
post_loop_stops posts left attempt last d = elim (Post-cases (posts attempt)) [
  | inl e ↦ absurd (ground arith)
  | inr (inl e) ↦ absurd (ground arith)
  | inr (inr (status, e)) ↦ ground arith
]

post_loop_goes_on :
    (posts : ℕ → Post) (left attempt : ℕ) (last : Option SendError)
    → retries (posts attempt) ≡ true
    → (next : SendError) × (post_loop posts (suc left) attempt last
        ≡ post_loop posts left (attempt + 1) (some next))
unfolding post_loop
post_loop_goes_on posts left attempt last r = elim (Post-cases (posts attempt)) [
  | inl e ↦ absurd (ground arith)
  | inr (inl e) ↦ (post_error, ground arith)
  | inr (inr (status, e)) ↦ (result_send_fail, ground arith)
]

post_loop_reaches :
    (posts : ℕ → Post) (n left attempt : ℕ) (last : Option SendError)
    → n < left
    → ((j : ℕ) → j < n → retries (posts (attempt + j)) ≡ true)
    → delivers (posts (attempt + n)) ≡ true
    → post_loop posts left attempt last ≡ (none, attempt + n + 1)
post_loop_reaches posts n zero attempt last h r d = absurd (omega arith)
post_loop_reaches posts zero (suc left) attempt last h r d =
    let here : attempt + 0 ≡ attempt = omega arith in
    rw here
      (post_loop_stops posts left attempt last (subst (λ k. delivers (posts k) ≡ true) here d))
post_loop_reaches posts (suc n) (suc left) attempt last h r d =
    let here : attempt + 0 ≡ attempt = omega arith in
    let step : (j : ℕ) → attempt + suc j ≡ attempt + 1 + j = λ j. omega arith in
    let next =
      post_loop_goes_on posts left attempt last
        (subst (λ k. retries (posts k) ≡ true) here (r 0 (omega arith))) in
    let rest =
      post_loop_reaches posts n left (attempt + 1) (some next.0) (omega arith)
        (λ j l. subst (λ k. retries (posts k) ≡ true) (step j) (r (suc j) (omega arith)))
        (subst (λ k. delivers (posts k) ≡ true) (step n) d) in
    next.1 ∙ rest ∙ ap (λ k. (none, k + 1)) (sym (step n))

-- Every post before this one is followed by another.
abbrev pub AllRetried : (ℕ → Post) → ℕ → Type 0
AllRetried posts n = (j : ℕ) → j < n → retries (posts j) ≡ true

post_loop_sound :
    (posts : ℕ → Post) (left attempt : ℕ) (last : Option SendError)
    → (last ≢ none) ⊎ (left ≢ 0)
    → (post_loop posts left attempt last).0 ≡ none
    → (k : ℕ) × (k < left) × (delivers (posts (attempt + k)) ≡ true)
unfolding post_loop
post_loop_sound posts zero attempt last (inl k) e = absurd (k e)
post_loop_sound posts zero attempt last (inr k) e = absurd (k refl)
post_loop_sound posts (suc left) attempt last h e = elim (Bool-cases (delivers (posts attempt))) [
  | inl d ↦ (
    0,
    omega arith,
    subst (λ k. delivers (posts k) ≡ true) (let here : attempt ≡ attempt + 0 = omega arith in here)
        d,
  )
  | inr d ↦
      let again : retries (posts attempt) ≡ true = retried (Post-cases (posts attempt)) d in
      let next = post_loop_goes_on posts left attempt last again in
      let found =
        post_loop_sound posts left (attempt + 1) (some next.0) (inl (λ k. absurd (cc k)))
          (ap (λ r. r.0) (sym next.1) ∙ e) in
      let step : attempt + 1 + found.0 ≡ attempt + suc found.0 = omega arith in
      (suc found.0, omega (arith, found.1), subst (λ k. delivers (posts k) ≡ true) step found.2)
]
  where
    retried :
        (posts attempt ≡ not_built)
          ⊎ (posts attempt ≡ post_failed)
          ⊎ ((status : ℕ) × (posts attempt ≡ answered status))
        → delivers (posts attempt) ≡ false
        → retries (posts attempt) ≡ true
    retried (inl b) d = absurd (ground arith)
    retried (inr (inl b)) d = ground arith
    retried (inr (inr (status, b))) d = ground arith

from_zero : (k : ℕ) → 0 + k ≡ k
from_zero k = omega arith

-- A callback that is reported as sent was answered with 200, at one of the three attempts.
pub call_back_send_sound :
    (posts : ℕ → Post)
    → (call_back_send posts).0 ≡ none
    → (k : ℕ) × (k < callback_max_retries) × (delivers (posts k) ≡ true)
unfolding call_back_send
call_back_send_sound posts e =
    let found =
      post_loop_sound posts callback_max_retries 0 none (inr (λ k. absurd (omega (arith, k)))) e in
    (found.0, found.1, subst (λ k. delivers (posts k) ≡ true) (from_zero found.0) found.2)

-- Where an attempt among the three is answered with 200 and each one before it is not but can be
-- made, the callback is reported as sent, and no further attempt is made.
pub call_back_send_reaches :
    (posts : ℕ → Post) (n : ℕ)
    → n < callback_max_retries
    → AllRetried posts n
    → delivers (posts n) ≡ true
    → call_back_send posts ≡ (none, n + 1)
unfolding call_back_send
call_back_send_reaches posts n h r d =
    post_loop_reaches posts n callback_max_retries 0 none h
      (λ j l. subst (λ k. retries (posts k) ≡ true) (sym (from_zero j)) (r j l))
      (subst (λ k. delivers (posts k) ≡ true) (sym (from_zero n)) d)
    ∙ ap (λ k. (none, k + 1)) (from_zero n)
