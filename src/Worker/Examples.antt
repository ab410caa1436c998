-- ===== src/Worker/Examples.antt =====
-- The theorems of the worker at concrete inputs.
use code_runner_backend.Prelude.{
  ℕ, zero, suc, ◌≡◌, refl, ◌⊎◌, true, false, List, [], ok, ◌∷◌, Option, none, some, arith,
}
use code_runner_backend.Prelude.Text.{Text, codes, same}
use code_runner_backend.Api.{ExecuteRequest, ExecuteResponse}
use code_runner_backend.Worker.Read.{Round, lost, unreadable, arrived, no_message, read}
use code_runner_backend.Worker.Loop.{
  Task, read_stopped, kind_of, run_loop, run_service, any_bad, run_service_stops,
}
use code_runner_backend.Worker.Link.{
  new_link, connect, attempt_all, stop_heartbeat, drop_connection, reconnect, reconnects,
  ping_fails, any_ping_fails, Use, use_all_links, IsTidy, backoff, next_backoff, Attempt,
}
use code_runner_backend.Worker.Reconnect.{IsSettled, reconnect-IsSettled}
use code_runner_backend.Worker.Tidy.{use_all_links-IsTidy}
use code_runner_backend.Worker.Serve.{
  Post, post_failed, answered, Answer, posted, with_error, call_back_send, post_loop, serve,
  inner_run_code, answer_request, crashed, execute, AllRetried,
}

abbrev attempt_of : Option ℕ → Attempt
attempt_of d = record { closes_first = false; closes_meanwhile = false; dialled = d }

-- A ping fails, and the worker connects again.
abbrev lost_and_found : List Use
lost_and_found = ping_fails 1 ∷ reconnects (attempt_of none ∷ attempt_of (some 2) ∷ []) ∷ []

use_all_links-IsTidy_example :
    IsTidy
      (any_ping_fails lost_and_found)
      (use_all_links lost_and_found (connect (some 1) new_link).1)
use_all_links-IsTidy_example = use_all_links-IsTidy (some 1) lost_and_found

reconnect-IsSettled_example :
    IsSettled (reconnect (attempt_of none ∷ attempt_of (some 2) ∷ []) (connect (some 1) new_link).1)
reconnect-IsSettled_example =
    reconnect-IsSettled (attempt_of none ∷ attempt_of (some 2) ∷ []) (connect (some 1) new_link).1
      refl

pauses : (backoff 1 ≡ 6) × (backoff 2 ≡ 12) × (backoff 3 ≡ 24) × (backoff 4 ≡ 30) × (backoff 5 ≡ 30)
unfolding backoff next_backoff
pauses = (refl, refl, refl, refl, refl)

-- The first post fails, the others are answered.
abbrev second_works : ℕ → Post
second_works zero = post_failed
second_works (suc n) = answered 200

second_sent : (call_back_send second_works).0 ≡ none
unfolding call_back_send post_loop
second_sent = refl

first_retried : AllRetried second_works 1
first_retried zero l = refl
first_retried (suc j) l = absurd (omega arith)

abbrev empty_response : ExecuteResponse
empty_response = record {
  id = [];
  uid = 0;
  grpc_code = [];
  result = [];
  err = [];
  call_back_url = [];
}

-- Where the report of the duration fails, the worker crashes.
report_fails : serve execute (empty_response, none) false second_works true ≡ crashed
unfolding serve inner_run_code answer_request
report_fails = refl

abbrev a_request : ExecuteRequest
a_request = record {
  id = codes "r";
  uid = 1;
  language = codes "c";
  code_block = [];
  call_back_url = [];
}

abbrev echo : ExecuteRequest → ExecuteResponse × Option Text
echo r = (record empty_response { id = r.id }, none)

abbrev task_of : List Round → Task
task_of rounds = record {
  rounds = rounds;
  ran = echo;
  reported = true;
  posts = second_works;
  written = true;
}

-- A request that comes after the connection was lost and made again, and then data that is no message.
abbrev two_tasks : List Task
two_tasks =
    task_of (
      lost (attempt_of none ∷ attempt_of (some 2) ∷ [])
      ∷ arrived (codes "execute") (codes "r") (some a_request)
      ∷ [])
    ∷ task_of (unreadable ∷ [])
    ∷ []

abbrev answered_r : List Answer
answered_r = posted (record empty_response { id = codes "r" }) none ∷ []

ends_malformed :
    (run_service (some 1) two_tasks new_link).0 ≡ ok (some (read_stopped no_message), answered_r)
unfolding run_service run_loop read connect kind_of serve inner_run_code answer_request with_error
    call_back_send post_loop reconnect attempt_all stop_heartbeat drop_connection same
ends_malformed = refl

run_service_stops_example :
    ((run_service (some 1) two_tasks new_link).1.closed ≡ true) ⊎ (any_bad two_tasks ≡ true)
run_service_stops_example =
    run_service_stops (some 1) two_tasks new_link no_message answered_r ends_malformed
