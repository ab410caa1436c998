-- ===== src/Socket/Examples.antt =====
-- The connection to a worker at concrete inputs.
use code_runner_backend.Prelude.{◌≡◌, refl, true, false, List, [], ◌∷◌, none, some, err}
use code_runner_backend.Prelude.Text.{Text, codes, same}
use code_runner_backend.Prelude.TextMap.{empty, load, store, delete}
use code_runner_backend.Socket.{
  message, Socket, new_socket, route_result, read_frame, begin_sync, receive, leave, end_sync,
  timed_out, Act, reads, begins, receives, leaves, closes, act, run,
}
use code_runner_backend.Socket.Results.{is_in, run-returns_own}
use code_runner_backend.Socket.Waiting.{answers_once, run-never_waits, run-waits_for_ever}

abbrev result_of : Text → Text → Act
result_of id p = reads (message (record { type = codes "result"; request_id = id; payload = p }))

-- A request that is answered, and another whose caller gives up before its answer comes.
abbrev two_requests : List Act
two_requests =
    begins (codes "r") (codes "run") true
    ∷ begins (codes "s") (codes "run") true
    ∷ result_of (codes "r") (codes "42")
    ∷ leaves 1
    ∷ result_of (codes "s") (codes "7")
    ∷ receives 0
    ∷ leaves 0
    ∷ []

answer_returned : (run two_requests (new_socket true)).returned ≡ (codes "r", codes "42") ∷ []
unfolding run act new_socket read_frame route_result begin_sync receive leave same load store delete
    empty
answer_returned = refl

in_returned : is_in (codes "r") (codes "42") (run two_requests (new_socket true)).returned ≡ true
unfolding run act new_socket read_frame route_result begin_sync receive leave same load store delete
    empty
in_returned = refl

run-returns_own_example :
    is_in (codes "r") (codes "42") (run two_requests (new_socket true)).heard ≡ true
run-returns_own_example = run-returns_own two_requests true (codes "r") (codes "42") in_returned

once : answers_once two_requests (new_socket true) ≡ true
unfolding run act new_socket read_frame route_result begin_sync receive leave same load store delete
    empty
once = refl

run-never_waits_example : (run two_requests (new_socket true)).blocked ≡ none
run-never_waits_example = run-never_waits two_requests true once

-- A request that is answered twice while its caller takes the timeout.
abbrev twice : Socket
twice =
    run
      (begins (codes "r") (codes "run") true
        ∷ result_of (codes "r") (codes "42")
        ∷ result_of (codes "r") (codes "42")
        ∷ [])
      (new_socket true)

twice_waits : twice.blocked ≡ some (0, codes "42")
unfolding twice run act new_socket read_frame route_result begin_sync receive leave same load store
    delete empty
twice_waits = refl

caller_gone : (end_sync 0 true twice).0 ≡ err timed_out
unfolding end_sync
caller_gone = refl

run-waits_for_ever_example :
    ((run (leaves 0 ∷ result_of (codes "q") [] ∷ closes false ∷ []) twice).blocked
      ≡ some (0, codes "42"))
    × ((run (leaves 0 ∷ result_of (codes "q") [] ∷ closes false ∷ []) twice).heard ≡ twice.heard)
run-waits_for_ever_example =
    run-waits_for_ever (leaves 0 ∷ result_of (codes "q") [] ∷ closes false ∷ []) twice 0
      (codes "42") twice_waits refl
