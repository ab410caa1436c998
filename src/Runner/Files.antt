-- ===== src/Runner/Files.antt =====
-- runCode.go: the chain of steps that writes the code into the slot's directory. Each step does
-- nothing once an error is recorded; `sync.err` and the other errors of the file system are given.
use code_runner_backend.Prelude.{◌≡◌, List, [], ◌∷◌, ◌++◌, Option, none, some, arith, ◌⊎◌}
use code_runner_backend.Prelude.Text.{Text, codes}
use code_runner_backend.Runner.Language.{extension_of}

pub data FileError : Type 0 where
  unsupported_type : FileError
  os_error : Text → FileError

-- What the operating system answers to each step.
pub record Disk : Type 0 where
  pub mkdir : Option Text
  pub create : Option Text
  pub write : Option Text
  pub sync : Option Text

-- What the steps do to the disk.
pub data FileEffect : Type 0 where
  made_dir created_file : Text → FileEffect
  wrote : Text → Text → FileEffect
  synced : Text → FileEffect

-- `runCode`, with the effects so far.
pub record RunCode : Type 0 where
  pub err : Option FileError
  pub extension : Text
  pub file : Option Text
  pub path : Text
  pub effects : List FileEffect

unfoldable pub new_run_code : RunCode
new_run_code = record { err = none; extension = []; file = none; path = []; effects = [] }

abbrev pub failing : Option Text → Option FileError
failing none = none
failing (some t) = some (os_error t)

abbrev unless_failed : RunCode → RunCode → RunCode
unless_failed r next = elim r.err [ none ↦ next | some e ↦ r ]

abbrev on_success : Option Text → FileEffect → List FileEffect → List FileEffect
on_success none e es = es ++ e ∷ []
on_success (some _) e es = es

unfoldable pub get_file_extension : Text → RunCode → RunCode
get_file_extension lang r = elim (extension_of lang) [
  | some ext ↦ record r { extension = ext }
  | none ↦ record r { err = some unsupported_type }
]

unfoldable pub create_block_content : Disk → Text → RunCode → RunCode
create_block_content disk path r = unless_failed r (record r {
  err = failing disk.mkdir;
  path = path;
  effects = on_success disk.mkdir (made_dir path) r.effects;
})

abbrev code_path : RunCode → Text
code_path r = r.path ++ codes "/main." ++ r.extension

unfoldable pub create_block_file : Disk → RunCode → RunCode
create_block_file disk r = unless_failed r (record r {
  err = failing disk.create;
  file = elim disk.create [ none ↦ some (code_path r) | some _ ↦ none ];
  effects = on_success disk.create (created_file (code_path r)) r.effects;
})

abbrev file_name : RunCode → Text
file_name r = elim r.file [ none ↦ [] | some f ↦ f ]

unfoldable pub write_code : Disk → Text → RunCode → RunCode
write_code disk code r = unless_failed r (record r {
  err = failing disk.write;
  effects = on_success disk.write (wrote (file_name r) code) r.effects;
})

unfoldable pub sync_file : Disk → RunCode → RunCode
sync_file disk r = unless_failed r (record r {
  err = failing disk.sync;
  effects = on_success disk.sync (synced (file_name r)) r.effects;
})

unfoldable pub create_file : Disk → Text → Text → Text → RunCode → RunCode
create_file disk language code path r = unless_failed r (
    sync_file disk (
      write_code disk code
        (create_block_file disk (create_block_content disk path (get_file_extension language r)))))

-- With a known language and a disk that works, the file is on disk with exactly the code, and synced.
pub create_file_works :
    (disk : Disk) (language code path ext : Text)
    → extension_of language ≡ some ext
    → disk ≡ record { mkdir = none; create = none; write = none; sync = none }
    → let file = path ++ codes "/main." ++ ext in
      create_file disk language code path new_run_code ≡ record {
        err = none;
        extension = ext;
        file = some file;
        path = path;
        effects = made_dir path ∷ created_file file ∷ wrote file code ∷ synced file ∷ [];
      }
unfolding create_file sync_file write_code create_block_file create_block_content get_file_extension
    new_run_code
create_file_works disk language code path ext e d = ground arith

-- A language with no extension is refused before anything is written.
pub create_file_unsupported :
    (disk : Disk) (language code path : Text)
    → extension_of language ≡ none
    → create_file disk language code path new_run_code
      ≡ record new_run_code { err = some unsupported_type }
unfolding create_file sync_file write_code create_block_file create_block_content get_file_extension
    new_run_code
create_file_unsupported disk language code path e = ground arith

-- A directory that was made when a later step fails.
pub create_file_partial :
    (disk : Disk) (language code path ext reason : Text)
    → extension_of language ≡ some ext
    → disk.mkdir ≡ none
    → (disk.create ≡ some reason) ⊎ (disk.create ≡ none) × (disk.write ≡ some reason)
    → let r = create_file disk language code path new_run_code in
      (r.err ≡ some (os_error reason)) × (r.path ≡ path)
unfolding create_file sync_file write_code create_block_file create_block_content get_file_extension
    new_run_code
create_file_partial disk language code path ext reason e m f = ground arith
