-- ===== src/Runner/Examples.antt =====
-- Requests that run, time out or fail, and the theorems about RunCode at concrete inputs.
use code_runner_backend.Prelude.{
  ◌≡◌, refl, inr, false, true, [], ◌∷◌, none, some, ok, err, count_if, if◌then◌else◌,
}
use code_runner_backend.Prelude.Text.{
  codes, same, trim_space, lower, trim_suffix, base_name, dir_name,
}
use code_runner_backend.Prelude.TextMap.{of_list, load}
use code_runner_backend.Api.{ExecuteRequest}
use code_runner_backend.Prelude.Int.{pos, negsuc}
use code_runner_backend.Pool.{ContainerSlot, ContainerPool, acquire, got, unsupported_language}
use code_runner_backend.Pool.Startup.{ContainerPoolConfig, Daemon, Host, new_docker_client}
use code_runner_backend.Runner.Served.{new_docker_client-serves}
use code_runner_backend.Runner.Language.{
  normalize_lang, alias_entries, get_command, has_runtime, extension_of, extension_entries,
}
use code_runner_backend.Runner.Files.{Disk, os_error}
use code_runner_backend.Runner.Exec.{Docker, Stream, finished, timed_out}
use code_runner_backend.Runner.Flow.{World, run_code, file_failed}
use code_runner_backend.Runner.Release.{
  ReleasesLast, run_code-ReleasesLast, run_code_leaves_dir, is_removal,
}

abbrev py_request : ExecuteRequest
py_request = record {
  id = codes "r1";
  uid = 7;
  language = codes " PY ";
  code_block = codes "print(1)";
  call_back_url = codes "http://cb";
}

abbrev py_slot : ContainerSlot
py_slot = record { name = codes "code-runner-python-0"; host_path = codes "/app/tmp/python-0" }

abbrev good_disk : Disk
good_disk = record { mkdir = none; create = none; write = none; sync = none }

abbrev full_disk : Disk
full_disk = record good_disk { write = some (codes "no space") }

abbrev docker_with : Stream → Docker
docker_with s = record {
  first_inspect = none;
  second_inspect = none;
  exec_create_fails = false;
  exec_attach_fails = false;
  stream = s;
  exec_inspect_fails = false;
  deadline_passed = false;
  elapsed_ms = 12;
}

abbrev world_with : Disk → Stream → World
world_with disk s = record {
  acquired = λ language.
      if same language (codes "python") then ok py_slot else err (unsupported_language language);
  disk = disk;
  docker = docker_with s;
  uuid = codes "u1";
  message = λ _. codes "failed";
}

abbrev good_world : World
good_world = world_with good_disk (finished none (codes "1"))

py_normal : normalize_lang (codes " PY ") ≡ codes "python"
unfolding normalize_lang alias_entries of_list load lower trim_space
py_normal = refl

py_extension : extension_of (normalize_lang py_request.language) ≡ some (codes "py")
unfolding normalize_lang alias_entries of_list load lower trim_space extension_of extension_entries
py_extension = refl

java_line : get_command (codes "java") (codes "/app/u1/main.java") ≡ (
  codes "sh",
  codes "-c" ∷ codes "javac -d /app/u1 /app/u1/main.java && java -cp /app/u1 main" ∷ [],
)
unfolding get_command trim_suffix base_name dir_name
java_line = refl

c_line : get_command (codes "c") (codes "/app/u1/main.c") ≡ (
  codes "sh",
  codes "-c"
      ∷ codes "gcc -Wall -Wextra -Werror -O2 -o /app/u1/main /app/u1/main.c && /app/u1/main"
      ∷ [],
)
unfolding get_command trim_suffix
c_line = refl

py_acquired :
    (disk : Disk) (s : Stream)
    → (world_with disk s).acquired (normalize_lang (codes " PY ")) ≡ ok py_slot
unfolding same normalize_lang load of_list alias_entries lower trim_space
py_acquired disk s = refl

run_code-ReleasesLast_example :
    ReleasesLast
      (normalize_lang (codes " PY "))
      py_slot
      (run_code (world_with good_disk timed_out) py_request)
run_code-ReleasesLast_example =
    run_code-ReleasesLast (world_with good_disk timed_out) py_request py_slot
      (py_acquired good_disk timed_out)

run_code_leaves_dir_example :
    ((run_code (world_with full_disk timed_out) py_request).error
      ≡ some (file_failed (os_error (codes "no space"))))
    × (count_if is_removal (run_code (world_with full_disk timed_out) py_request).effects ≡ 0)
run_code_leaves_dir_example =
    run_code_leaves_dir (world_with full_disk timed_out) py_request py_slot (codes "py")
      (codes "no space") (py_acquired full_disk timed_out) py_extension refl (inr (refl, refl))

-- Nothing configured, and a daemon that fails.
abbrev no_config : ContainerPoolConfig
no_config = record {
  golang = pos 0;
  python = pos 0;
  javascript = negsuc 4;
  java = pos 2;
  c = pos 0;
}

abbrev deaf : Daemon
deaf = record { matches = λ name c. false; list_fails = λ name. true; start_fails = λ name. true }

abbrev bare_host : Host
bare_host = record { directories = []; containers = [] }

js_named :
    load (lower (trim_space (codes " JS"))) (of_list alias_entries) ≡ some (codes "javascript")
unfolding load lower trim_space of_list alias_entries
js_named = refl

new_docker_client-serves_example :
    (p : ContainerPool) × ((new_docker_client no_config deaf bare_host).0 ≡ some p)
    × (has_runtime (normalize_lang (codes " JS")) ≡ true)
    × ((slot : ContainerSlot) × (q : ContainerPool) × (acquire p
            (normalize_lang (codes " JS"))
            false
          ≡ got slot q))
new_docker_client-serves_example =
    new_docker_client-serves no_config deaf bare_host (codes " JS") (codes "javascript") js_named
