-- ===== src/Runner/Flow.antt =====
-- runCode.go, RunCode: the whole of one request, with the two deferred calls that return the slot
-- and remove the directory.
use code_runner_backend.Prelude.{
  ℕ, Bool, true, false, not, List, [], ◌∷◌, ◌++◌, Option, none, some, Result, ok, err,
  if◌then◌else◌, map,
}
use code_runner_backend.Prelude.Text.{Text, codes, is_empty}
use code_runner_backend.Api.{ExecuteRequest, ExecuteResponse}
use code_runner_backend.Pool.{ContainerSlot, PoolError}
use code_runner_backend.Runner.Language.{normalize_lang, get_command}
use code_runner_backend.Runner.Files.{
  Disk, FileError, FileEffect, RunCode, create_file, new_run_code,
}
use code_runner_backend.Runner.Exec.{Docker, ExecError, exec_timeout, in_container_run_code}

pub data RunError : Type 0 where
  no_slot : PoolError → RunError
  file_failed : FileError → RunError
  unsupported_command : Text → RunError
  exec_failed : ExecError → RunError

pub data Effect : Type 0 where
  file_effect : FileEffect → Effect
  executed : Text → Text → List Text → Effect
  removed_dir : Text → Effect
  released : Text → ContainerSlot → Bool → Effect

-- What surrounds one request: what AcquireSlot answers for each language, the disk, docker, a fresh
-- uuid, and the texts of the errors (`Error()`), which go into the response.
pub record World : Type 0 where
  pub acquired : Text → Result PoolError ContainerSlot
  pub disk : Disk
  pub docker : Docker
  pub uuid : Text
  pub message : RunError → Text

-- `language` is `request.Language` as RunCode leaves it in the caller's request.
pub record Outcome : Type 0 where
  pub language : Text
  pub duration : ℕ
  pub response : ExecuteResponse
  pub error : Option RunError
  pub effects : List Effect

abbrev pub started : ExecuteRequest → ExecuteResponse
started request = record {
  id = request.id;
  uid = request.uid;
  grpc_code = [];
  result = [];
  err = [];
  call_back_url = request.call_back_url;
}

-- runCodeContainer: what it returns, and the command that it ran.
unfoldable pub run_code_container :
    World → Text → Text → ContainerSlot → Result RunError (ℕ × Text) × List Effect
run_code_container w language path slot =
    let (cmd, args) = get_command language path in
    if is_empty cmd then (err (unsupported_command language), []) else (
      (elim (in_container_run_code w.docker) [ ok r ↦ ok r | err e ↦ err (exec_failed e) ]),
      executed slot.name cmd args ∷ [],
    )

abbrev pub is_timeout : RunError → Bool
is_timeout (exec_failed exec_timeout) = true
is_timeout _ = false

-- After the file is written: run, remove the directory, return the slot.
abbrev pub finish :
    World
    → ExecuteRequest
    → Text
    → ContainerSlot
    → RunCode
    → Result RunError (ℕ × Text) × List Effect
    → Outcome
finish w request language slot rc (ok (ms, output), ran) = record {
  language = language;
  duration = ms;
  response = record (started request) { result = output };
  error = none;
  effects =
      map file_effect rc.effects ++ ran ++ removed_dir rc.path ∷ released language slot true ∷ [];
}
finish w request language slot rc (err e, ran) = record {
  language = language;
  duration = 0;
  response = record (started request) { err = w.message e };
  error = some e;
  effects =
      map file_effect rc.effects
      ++ ran
      ++ removed_dir rc.path ∷ released language slot (not (is_timeout e)) ∷ [];
}

abbrev pub container_path : World → RunCode → Text
container_path w rc = codes "/app/" ++ w.uuid ++ codes "/main." ++ rc.extension

-- With a slot in hand. The directory's removal is deferred only after the file is there.
unfoldable pub with_slot : World → ExecuteRequest → Text → ContainerSlot → Outcome
with_slot w request language slot =
    let path = slot.host_path ++ b'/' ∷ w.uuid in
    let rc = create_file w.disk language request.code_block path new_run_code in
    elim rc.err [
      | some e ↦ record {
        language = language;
        duration = 0;
        response = started request;
        error = some (file_failed e);
        effects = map file_effect rc.effects ++ released language slot true ∷ [];
      }
      | none ↦
          finish w request language slot rc
            (run_code_container w language (container_path w rc) slot)
    ]

unfoldable pub run_code : World → ExecuteRequest → Outcome
run_code w request = elim (w.acquired (normalize_lang request.language)) [
  | err e ↦ record {
    language = normalize_lang request.language;
    duration = 0;
    response = started request;
    error = some (no_slot e);
    effects = [];
  }
  | ok slot ↦ with_slot w request (normalize_lang request.language) slot
]
