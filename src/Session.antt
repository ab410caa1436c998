-- ===== src/Session.antt =====
-- internal/agent/session/store.go: the sessions of the chat, a cache of their metadata over files.
-- The two files of a session are keyed by its id, which has no separator of a path in it. A message
-- is a value of the library that the program uses for them, with the size of its JSON; JSON is taken
-- to read back what it wrote.
-- An operation is taken as one step, with the clock and what the disk does as arguments. Create,
-- Append, Delete and GetMessages hold the lock of their session; GetMeta, Exists, ListSessions and
-- the tests of cleanExpired hold none, and what another call does between their parts is left out.
-- A write of a line happens whole or not at all.
pub mod Log
pub mod TooLong
pub mod Cache
pub mod Expiry
pub mod View
pub mod Refinement
mod Examples
use code_runner_backend.Prelude.{
  ℕ, ◌+◌, ◌-◌, ◌*◌, Bool, true, false, ◌||◌, ◌&&◌, not, zero, suc, List, [], ◌∷◌, ◌++◌, Option,
  none, some, ltb, leb, if◌then◌else◌, map, refuse_if, Result, ok, err, ◌>>◌,
}
use code_runner_backend.Prelude.Text.{Text, codes, same, ext, trim_suffix}
use code_runner_backend.Prelude.TextMap.{TextMap, empty, load, store, delete, keys}

pub record SessionMeta : Type 0 where
  pub id : Text
  pub owner_id : Text
  pub instruction : Text
  pub article_id : Text
  pub created_at : ℕ
  pub last_active_at : ℕ

-- What stands in a meta file.
pub data MetaFile : Type 0 where
  parses : SessionMeta → MetaFile
  malformed_meta : MetaFile

-- A line of the file of messages; `malformed`: its size, for a line that is no message.
pub data Line (M : Type 0) : Type 0 where
  blank : Line M
  message : M → Line M
  malformed : ℕ → Line M

pub data StoreError : Type 0 where
  meta_not_written log_not_created log_not_opened line_not_written : StoreError

-- os.WriteFile: it works, or it fails and leaves something behind.
pub data Write : Type 0 where
  written : Write
  failed : Option MetaFile → Write

pub record FileStore (M : Type 0) : Type 0 where
  pub ttl : ℕ
  pub metas : TextMap SessionMeta
  pub meta_files : TextMap MetaFile
  pub logs : TextMap (List (Line M))

-- `time.Since(meta.LastActiveAt) > s.ttl`
abbrev pub is_expired : ℕ → ℕ → SessionMeta → Bool
is_expired ttl now m = ltb ttl (now - m.last_active_at)

-- os.WriteFile at a path of a meta file.
unfoldable pub write_meta : Text → SessionMeta → Write → TextMap MetaFile → TextMap MetaFile
write_meta id m written files = store id (parses m) files
write_meta id m (failed none) files = delete id files
write_meta id m (failed (some left)) files = store id left files

abbrev pub is_written : Write → Bool
is_written written = true
is_written (failed _) = false

-- What the scanner of GetMessages takes for a line at most, its end included.
abbrev pub max_line : ℕ
max_line = 1024 * 1024

-- The test on the name of an entry of the directory.
unfoldable pub is_meta_name : Text → Bool
is_meta_name name =
    same (ext name) (codes ".json") && same (ext (trim_suffix name (codes ".json"))) (codes ".meta")

module _ {M : Type 0} where
  -- A store of another process over the files that are there.
  unfoldable pub new_file_store : ℕ → TextMap MetaFile → TextMap (List (Line M)) → FileStore M
  new_file_store ttl meta_files logs = record {
    ttl = ttl;
    metas = empty;
    meta_files = meta_files;
    logs = logs;
  }

  -- The clock is read for `created_at` and for `last_active_at`.
  unfoldable pub create_with_article :
      Text
      → Text
      → Text
      → Text
      → ℕ
      → ℕ
      → Write
      → Bool
      → FileStore M
      → Option StoreError × FileStore M
  unfolding write_meta
  create_with_article id instruction article_id owner_id created active w log_created s =
      let m : SessionMeta = record {
        id = id;
        owner_id = owner_id;
        instruction = instruction;
        article_id = article_id;
        created_at = created;
        last_active_at = active;
      } in
      let t = record s { meta_files = write_meta id m w s.meta_files } in
      if not (is_written w)
      then (some StoreError.meta_not_written, t)
      else if not log_created
      then (some StoreError.log_not_created, t)
      else (none, record t { logs = store id [] s.logs; metas = store id m s.metas })

  unfoldable pub create :
      Text → Text → ℕ → ℕ → Write → Bool → FileStore M → Option StoreError × FileStore M
  create id instruction created active w log_created s =
      create_with_article id instruction [] [] created active w log_created s

  unfoldable pub exists_session : Text → FileStore M → Bool
  exists_session id s = elim (load id s.metas) [
    | some m ↦ true
    | none ↦ elim (load id s.meta_files) [ some f ↦ true | none ↦ false ]
  ]

  unfoldable pub get_meta : Text → ℕ → FileStore M → Option SessionMeta × FileStore M
  get_meta id now s = elim (load id s.metas) [
    | some m ↦ ((if is_expired s.ttl now m then none else some m), s)
    | none ↦ elim (load id s.meta_files) [
      | none ↦ (none, s)
      | some malformed_meta ↦ (none, s)
      | some (parses m) ↦
          if is_expired s.ttl now m
          then (none, s)
          else (some m, record s { metas = store id m s.metas })
    ]
  ]

  -- The metadata of a session that is in the cache is written with a new time; an error of the
  -- write is not looked at.
  unfoldable pub touch_meta : Text → ℕ → Write → FileStore M → FileStore M
  unfolding write_meta
  touch_meta id now w s = elim (load id s.metas) [
    | none ↦ s
    | some m ↦
        let touched = record m { last_active_at = now } in
        record s {
          metas = store id touched s.metas;
          meta_files = write_meta id touched w s.meta_files;
        }
  ]

  unfoldable pub delete_session : Text → FileStore M → FileStore M
  delete_session id s = record s {
    logs = delete id s.logs;
    meta_files = delete id s.meta_files;
    metas = delete id s.metas;
  }

  -- One round of the callback of `Range`.
  unfoldable pub clean_key : ℕ → Text → FileStore M → FileStore M
  clean_key now id s = elim (load id s.metas) [
    | none ↦ s
    | some m ↦ if is_expired s.ttl now m then delete_session id s else s
  ]

  unfoldable pub clean_keys : ℕ → List Text → FileStore M → FileStore M
  clean_keys now [] s = s
  clean_keys now (id ∷ ids) s = clean_keys now ids (clean_key now id s)

  unfoldable pub clean_expired : ℕ → FileStore M → FileStore M
  clean_expired now s = clean_keys now (keys s.metas) s

  -- `entries`: the names and whether each is a directory.
  unfoldable pub list_entries :
      List (Text × Bool) → ℕ → FileStore M → List SessionMeta × FileStore M
  list_entries [] now s = ([], s)
  list_entries ((name, is_dir) ∷ entries) now s = elim (is_dir || not (is_meta_name name)) [
    | true ↦ list_entries entries now s
    | false ↦
        let (found, t) = get_meta (trim_suffix name (codes ".meta.json")) now s in
        let (result, u) = list_entries entries now t in
        ((elim found [ none ↦ result | some m ↦ m ∷ result ]), u)
  ]

  -- `none`: the directory cannot be read.
  unfoldable pub list_sessions :
      Option (List (Text × Bool)) → ℕ → FileStore M → List SessionMeta × FileStore M
  list_sessions none now s = ([], s)
  list_sessions (some entries) now s = list_entries entries now s

-- `size m`: how many bytes the JSON of a message has.
module _ {M : Type 0} (size : M → ℕ) where
  abbrev line_size : Line M → ℕ
  line_size blank = 0
  line_size (message m) = size m
  line_size (malformed n) = n

  -- The loop of the scanner: the messages, and whether it ended at a line that is too long.
  unfoldable pub scan : List (Line M) → List M × Bool
  scan [] = ([], false)
  scan (l ∷ lines) =
      let rest = scan lines in
      if leb max_line (line_size l)
      then ([], true)
      else elim l [ blank ↦ rest | malformed n ↦ rest | message m ↦ (m ∷ rest.0, rest.1) ]

  -- The messages with the error of the scanner, or the error of opening the file.
  unfoldable pub get_messages : Text → FileStore M → Result StoreError (List M × Bool)
  get_messages id s = elim (load id s.logs) [
    | none ↦ err StoreError.log_not_opened
    | some lines ↦ ok (scan lines)
  ]

module _ {M : Type 0} where
  abbrev log_of : Text → FileStore M → List (Line M)
  log_of id s = elim (load id s.logs) [ none ↦ [] | some lines ↦ lines ]

  -- The loop that writes; `fails_at`: the message whose write does not work.
  unfoldable pub write_lines : List M → Option ℕ → List (Line M) → List (Line M) × Bool
  write_lines [] fails_at lines = (lines, true)
  write_lines (m ∷ msgs) none lines = write_lines msgs none (lines ++ message m ∷ [])
  write_lines (m ∷ msgs) (some zero) lines = (lines, false)
  write_lines (m ∷ msgs) (some (suc i)) lines = write_lines msgs (some i) (lines ++ message m ∷ [])

  -- `opened`: can the file be opened, or made?
  unfoldable pub append :
      Text → List M → ℕ → Bool → Option ℕ → Write → FileStore M → Option StoreError × FileStore M
  append id msgs now opened fails_at w s = elim opened [
    | false ↦ (some StoreError.log_not_opened, s)
    | true ↦
        let (lines, all_written) = write_lines msgs fails_at (log_of id s) in
        let t = record s { logs = store id lines s.logs } in
        if all_written then (none, touch_meta id now w t) else (some StoreError.line_not_written, t)
  ]
