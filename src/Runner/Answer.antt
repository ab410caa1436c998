-- ===== src/Runner/Answer.antt =====
-- RunCode of runCode.go: what the response says.
use code_runner_backend.Prelude.{
  ℕ, ◌≡◌, refl, true, false, [], ◌∷◌, ◌++◌, Option, none, some, arith, ok, ◌⊎◌,
}
use code_runner_backend.Prelude.Text.{Text, codes, is_empty}
use code_runner_backend.Api.{ExecuteRequest, ExecuteResponse}
use code_runner_backend.Pool.{ContainerSlot}
use code_runner_backend.Runner.Language.{normalize_lang, get_command, extension_of}
use code_runner_backend.Runner.Files.{create_file_works, made_dir, created_file, wrote, synced}
use code_runner_backend.Runner.Exec.{in_container_run_code}
use code_runner_backend.Runner.Flow.{
  RunError, no_slot, file_failed, unsupported_command, exec_failed, file_effect, executed,
  removed_dir, released, started, World, Outcome, run_code_container, with_slot, run_code,
}

-- The three fields by which the caller finds its request are copied on every branch.
abbrev pub Copies : ExecuteRequest → ExecuteResponse → Type 0
Copies q r = (r.id ≡ q.id) × (r.uid ≡ q.uid) × (r.call_back_url ≡ q.call_back_url)

-- The response carries an error text exactly for the errors of the run itself.
abbrev pub said : World → Option RunError → Text
said w none = []
said w (some (no_slot e)) = []
said w (some (file_failed e)) = []
said w (some (unsupported_command l)) = w.message (unsupported_command l)
said w (some (exec_failed e)) = w.message (exec_failed e)

-- An outcome with an error has no duration and no result.
abbrev pub Silent : Outcome → Type 0
Silent o = (o.error ≡ none) ⊎ ((o.duration ≡ 0) × (o.response.result ≡ []))

-- On every branch the response has the request's id, uid and callback; an error leaves the duration
-- and the result empty; and the error text is there for the errors of the command's run alone, not
-- for a missing slot or a failure to write the file.
pub run_code_answer :
    (w : World) (request : ExecuteRequest)
    → let o = run_code w request in
      Copies request o.response × Silent o × (o.response.err ≡ said w o.error)
unfolding run_code with_slot run_code_container
run_code_answer w request = ground arith

-- With a slot, a disk that works, a known language and a command that runs, the request succeeds:
-- the command of its language is run in the slot's container on the file that was written, and its
-- output and time come back.
pub run_code_success :
    (w : World) (request : ExecuteRequest) (slot : ContainerSlot) (ext output : Text) (ms : ℕ)
    → let language = normalize_lang request.language in
      let path = codes "/app/" ++ w.uuid ++ codes "/main." ++ ext in
      let dir = slot.host_path ++ b'/' ∷ w.uuid in
      let file = dir ++ codes "/main." ++ ext in
      w.acquired language ≡ ok slot
      → w.disk ≡ record { mkdir = none; create = none; write = none; sync = none }
      → extension_of language ≡ some ext
      → is_empty (get_command language path).0 ≡ false
      → in_container_run_code w.docker ≡ ok (ms, output)
      → run_code w request ≡ record {
        language = language;
        duration = ms;
        response = record (started request) { result = output };
        error = none;
        effects =
            file_effect (made_dir dir)
            ∷ file_effect (created_file file)
            ∷ file_effect (wrote file request.code_block)
            ∷ file_effect (synced file)
            ∷ executed slot.name (get_command language path).0 (get_command language path).1
            ∷ removed_dir dir
            ∷ released language slot true
            ∷ [];
      }
unfolding run_code with_slot run_code_container
run_code_success w request slot ext output ms a d x c r =
    let language = normalize_lang request.language in
    let dir = slot.host_path ++ b'/' ∷ w.uuid in
    let made = create_file_works w.disk language request.code_block dir ext x d in
    rw (a, run_code) (rw (made, with_slot) (rw made (rw (c, run_code_container) (rw r refl))))
