-- ===== src/Worker/Loop.antt =====
-- internal/application/service/client/service.go: the loop of a worker, which reads a request, runs it
-- and answers it.
use code_runner_backend.Prelude.{
  ℕ, ◌≡◌, ◌≢◌, ◌⊎◌, Bool, true, false, ◌||◌, List, [], ◌∷◌, Option, none, some, if◌then◌else◌,
  arith, inl, inr, Option-cases, Bool-cases, Result, ok, err,
}
use code_runner_backend.Prelude.Text.{Text, codes, same}
use code_runner_backend.Api.{ExecuteRequest, ExecuteResponse}
use code_runner_backend.Worker.Link.{Link, LinkError, connect}
use code_runner_backend.Worker.Reconnect.{connect-conn}
use code_runner_backend.Worker.Read.{Round, ReadError, read, any_malformed, read_fails, read-conn}
use code_runner_backend.Worker.Serve.{
  MsgType, execute, execute_sync, Post, Answer, posted, sent_back, crashed, serve,
}

-- The `switch` over the type of the message.
unfoldable pub kind_of : Text → MsgType
kind_of type = if same type (codes "execute_sync") then execute_sync else execute

-- A round of the loop: what Read meets, what the run of a request gives, and how the report of the
-- duration and the answer go out.
pub record Task : Type 0 where
  pub rounds : List Round
  pub ran : ExecuteRequest → ExecuteResponse × Option Text
  pub reported : Bool
  pub posts : ℕ → Post
  pub written : Bool

pub data Stop : Type 0 where
  read_stopped : ReadError → Stop
  panicked : Stop

abbrev is_crash : Answer → Bool
is_crash crashed = true
is_crash (posted r e) = false
is_crash (sent_back r e) = false

-- The loop over the tasks that come: why it stopped, if it did, and the answers.
unfoldable pub run_loop : List Task → Link → Option Stop × List Answer × Link
unfolding kind_of
run_loop [] s = (none, [], s)
run_loop (t ∷ rest) s =
    let (result, acked, s') = read t.rounds s in
    elim result [
      | none ↦ (none, [], s')
      | some (err e) ↦ (some (read_stopped e), [], s')
      | some (ok r) ↦
          let answer = serve (kind_of r.msg_type) (t.ran r.request) t.reported t.posts t.written in
          if is_crash answer
          then (some panicked, [], s')
          else let (stop, answers, s'') = run_loop rest s' in (stop, answer ∷ answers, s'')
    ]

-- ServiceImpl.Run: `dialled`, the connection that the first dial makes.
unfoldable pub run_service :
    Option ℕ → List Task → Link → Result LinkError (Option Stop × List Answer) × Link
unfolding run_loop
run_service dialled tasks s =
    let (failure, s') = connect dialled s in
    elim failure [
      | some e ↦ (err e, s')
      | none ↦ let (stop, answers, s'') = run_loop tasks s' in (ok (stop, answers), s'')
    ]

abbrev pub any_bad : List Task → Bool
any_bad [] = false
any_bad (t ∷ rest) = any_malformed t.rounds || any_bad rest

-- On a worker with a connection the loop ends with an error of Read only where the worker was closed or
-- a message was malformed.
pub run_loop_stops :
    (tasks : List Task) (s : Link) (e : ReadError)
    → s.conn ≢ none
    → (run_loop tasks s).0 ≡ some (read_stopped e)
    → ((run_loop tasks s).2.closed ≡ true) ⊎ (any_bad tasks ≡ true)
unfolding run_loop
run_loop_stops [] s e up h = absurd (cc)
run_loop_stops (t ∷ rest) s e up h = elim (Option-cases (read t.rounds s).0) [
  | inl f ↦ absurd (ground (arith, h, f))
  | inr (err x, f) ↦ ground (arith, f, read_fails t.rounds s x up f)
  | inr (ok r, f) ↦
      let answer = serve (kind_of r.msg_type) (t.ran r.request) t.reported t.posts t.written in
      elim (Bool-cases (is_crash answer)) [
        | inl c ↦ absurd (ground (arith, h, f, c))
        | inr c ↦
            let later = run_loop_stops rest (read t.rounds s).2 e (read-conn t.rounds s r f) in
            ground (arith, h, f, c, later)
      ]
]

-- A worker whose first dial works serves on: it stops with an error of Read only where it was closed or
-- a message was malformed, however often its connection is lost.
pub run_service_stops :
    (dialled : Option ℕ) (tasks : List Task) (s : Link) (e : ReadError) (answers : List Answer)
    → (run_service dialled tasks s).0 ≡ ok (some (read_stopped e), answers)
    → ((run_service dialled tasks s).1.closed ≡ true) ⊎ (any_bad tasks ≡ true)
unfolding run_service
run_service_stops dialled tasks s e answers h = elim (Option-cases (connect dialled s).0) [
  | inl f ↦
      ground (arith, h, f, run_loop_stops tasks (connect dialled s).1 e (connect-conn dialled s f))
  | inr (x, f) ↦ absurd (ground (arith, h, f))
]
