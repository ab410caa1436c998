-- ===== src/Runner/Exec.antt =====
-- container.go: running a command in a container. The docker daemon's answers are given.
use code_runner_backend.Prelude.{
  ℕ, ◌≡◌, Bool, true, false, ◌||◌, Option, none, some, arith, Result, ok, err, ◌>>=◌, ◌>>◌,
  refuse_if, if◌then◌else◌,
}
use code_runner_backend.Prelude.Text.{Text}

-- The output stream: read to its end (perhaps with an error), or cut off by the 30 s deadline.
pub data Stream : Type 0 where
  finished : Option Text → Text → Stream
  timed_out : Stream

pub record Docker : Type 0 where
  pub first_inspect : Option Text
  pub second_inspect : Option Text
  pub exec_create_fails : Bool
  pub exec_attach_fails : Bool
  pub stream : Stream
  pub exec_inspect_fails : Bool
  pub deadline_passed : Bool
  pub elapsed_ms : ℕ

pub data ExecFault : Type 0 where
  create_fault attach_fault timeout_fault inspect_fault : ExecFault
  read_fault : Text → ExecFault

abbrev read_output : Stream → Result ExecFault Text
read_output (finished none output) = ok output
read_output (finished (some e) output) = err (read_fault e)
read_output timed_out = err timeout_fault

-- The exit code is logged, not returned.
unfoldable pub build_exec : Docker → Result ExecFault Text
build_exec d = do
  refuse_if d.exec_create_fails create_fault
  refuse_if d.exec_attach_fails attach_fault
  output ← read_output d.stream
  refuse_if d.exec_inspect_fails inspect_fault
  ok output

-- `ctx.Err()`: a stream that was cut off by the context means that the deadline has passed.
abbrev deadline_exceeded : Docker → Bool
deadline_exceeded d =
    (elim d.stream [ finished _ _ ↦ false | timed_out ↦ true ]) || d.deadline_passed

pub data ExecError : Type 0 where
  exec_timeout inner_server_error : ExecError
  container_missing : Text → ExecError

abbrev answer : Docker → Result ExecFault Text → Result ExecError (ℕ × Text)
answer d (ok output) = ok (d.elapsed_ms, output)
answer d (err _) = err (if deadline_exceeded d then exec_timeout else inner_server_error)

-- A failed inspection is tried once more, after the container has been started.
unfoldable pub in_container_run_code : Docker → Result ExecError (ℕ × Text)
in_container_run_code d = elim d.first_inspect [
  | none ↦ answer d (build_exec d)
  | some _ ↦ elim d.second_inspect [
    | none ↦ answer d (build_exec d)
    | some e ↦ err (container_missing e)
  ]
]

-- Output comes back exactly when the container is found and every step of the exec works; a command
-- that fails with a non-zero exit code is still a success with its output.
pub in_container_run_code-ok :
    (d : Docker) (ms : ℕ) (output : Text)
    → in_container_run_code d ≡ ok (ms, output)
    → (d.stream ≡ finished none output)
      × (d.elapsed_ms ≡ ms)
      × (d.exec_create_fails ≡ false)
      × (d.exec_attach_fails ≡ false)
      × (d.exec_inspect_fails ≡ false)
unfolding in_container_run_code build_exec
in_container_run_code-ok d ms output e = ground arith

-- The deadline makes the timeout error, and no other error is reported as one.
pub in_container_run_code_timeout :
    (d : Docker) → in_container_run_code d ≡ err exec_timeout → deadline_exceeded d ≡ true
unfolding in_container_run_code build_exec
in_container_run_code_timeout d e = ground arith
