-- ===== src/Session/Examples.antt =====
-- Runs of the session store, and its theorems at concrete inputs. A message is its text, and its
-- JSON is the text between quotes.
use code_runner_backend.Prelude.{
  ℕ, ◌+◌, ◌≡◌, refl, true, false, List, [], ◌∷◌, none, some, ok, arith, length, any,
}
use code_runner_backend.Prelude.Text.{Text, codes, same, trim_suffix, ext}
use code_runner_backend.Prelude.TextMap.{keys, TextMap, empty, load, store, delete}
use code_runner_backend.Session.{
  SessionMeta, MetaFile, parses, FileStore, written, new_file_store, create, create_with_article,
  get_meta, get_messages, append, list_sessions, scan, clean_expired, delete_session, clean_keys,
  clean_key, write_meta, exists_session, is_meta_name, list_entries,
}
use code_runner_backend.Session.Cache.{
  Use, half_creates, use_all, creates, appends, cleans, get_meta-new_file_store,
}
use code_runner_backend.Session.Log.{get_messages-append}
use code_runner_backend.Session.TooLong.{Appended, append_all, append_too_long}
use code_runner_backend.Session.View.{live, nothing, view_all}
use code_runner_backend.Session.Refinement.{read_lines, use_all_refines}
use code_runner_backend.Session.Expiry.{rounds, rounds_keep_leftover}

abbrev json_size : Text → ℕ
json_size t = length t + 2

-- For messages that are their size.
abbrev sizes : ℕ → ℕ
sizes n = n

abbrev one_session : FileStore Text
unfolding create create_with_article new_file_store write_meta store empty
one_session =
    (create (codes "a") (codes "teach") 100 100 written true (new_file_store 50 empty empty)).1

abbrev one_meta : SessionMeta
one_meta = record {
  id = codes "a";
  owner_id = [];
  instruction = codes "teach";
  article_id = [];
  created_at = 100;
  last_active_at = 100;
}

session_expires :
    ((get_meta (codes "a") 150 one_session).0 ≡ some one_meta)
    × ((get_meta (codes "a") 151 one_session).0 ≡ none)
    × (exists_session (codes "a") (clean_expired 151 one_session) ≡ false)
unfolding one_session get_meta exists_session clean_expired clean_keys clean_key delete_session load
    delete create create_with_article new_file_store write_meta store empty keys
session_expires = (refl, refl, refl)

session_listed :
    (list_sessions
      (some ((codes "a.jsonl", false) ∷ (codes "a.meta.json", false) ∷ []))
      120
      one_session).0
    ≡ one_meta ∷ []
unfolding one_session list_sessions list_entries get_meta is_meta_name trim_suffix ext load create
    create_with_article new_file_store write_meta store empty
session_listed = refl

no_messages : get_messages json_size (codes "a") one_session ≡ ok ([], false)
unfolding get_messages scan load store empty one_session
no_messages = refl

get_messages-append_example :
    get_messages json_size
      (codes "a")
      (append (codes "a") (codes "hi" ∷ codes "ho" ∷ []) 120 true (some 1) written one_session).1
    ≡ ok (codes "hi" ∷ [], false)
get_messages-append_example =
    get_messages-append json_size (codes "a") (codes "hi" ∷ codes "ho" ∷ []) 120 (some 1) written
      one_session [] (omega arith, (omega arith, tt)) no_messages

-- A message is its size.
abbrev sized_session : FileStore ℕ
unfolding create create_with_article new_file_store write_meta store empty
sized_session = (create (codes "a") [] 100 100 written true (new_file_store 50 empty empty)).1

no_sized_messages : get_messages sizes (codes "a") sized_session ≡ ok ([], false)
unfolding get_messages scan load store empty sized_session
no_sized_messages = refl

-- Two more appends, one of them to another session.
abbrev two_appends : List (Appended ℕ)
two_appends =
    record {
      id = codes "a";
      msgs = 7 ∷ [];
      now = 130;
      opened = true;
      fails_at = none;
      meta_write = written;
    }
    ∷ record {
      id = codes "b";
      msgs = 8 ∷ 9 ∷ [];
      now = 131;
      opened = true;
      fails_at = some 1;
      meta_write = written;
    }
    ∷ []

append_too_long_example :
    let t = append (codes "a") (1_048_576 ∷ []) 120 true none written sized_session in
    (t.0 ≡ none) × (get_messages sizes (codes "a") (append_all two_appends t.1) ≡ ok ([], true))
append_too_long_example =
    append_too_long sizes (codes "a") 1_048_576 120 written sized_session [] two_appends
      (omega arith) no_sized_messages

abbrev old_files : TextMap MetaFile
unfolding store empty
old_files = store (codes "a") (parses one_meta) empty

old_file : load (codes "a") old_files ≡ some (parses one_meta)
unfolding old_files load store empty
old_file = refl

rounds_keep_leftover_example :
    load
      (codes "a")
      (rounds
        (codes "a")
        (151 ∷ 1000 ∷ [])
        (new_file_store {M = Text} 50 old_files empty)).meta_files
    ≡ some (parses one_meta)
rounds_keep_leftover_example =
    rounds_keep_leftover {M = Text} 50 old_files empty (codes "a") one_meta (151 ∷ 1000 ∷ [])
      old_file (omega arith, (omega arith, tt))

one_cached : load (codes "a") one_session.metas ≡ some one_meta
unfolding one_session load store empty create create_with_article new_file_store write_meta
one_cached = refl

get_meta-new_file_store_example :
    let s =
      use_all
        (creates (codes "a") (codes "teach") [] [] 100 100 true
          ∷ appends (codes "a") (codes "hi" ∷ []) 120 true none
          ∷ cleans 160
          ∷ [])
        (new_file_store 50 empty empty) in
    (get_meta (codes "a") 170 (new_file_store s.ttl s.meta_files s.logs)).0
    ≡ (get_meta (codes "a") 170 s).0
get_meta-new_file_store_example =
    get_meta-new_file_store
      (creates (codes "a") (codes "teach") [] [] 100 100 true
        ∷ appends (codes "a") (codes "hi" ∷ []) 120 true none
        ∷ cleans 160
        ∷ [])
      50 empty empty (codes "a") 170 refl

-- A session that was created and written to, beside a Create of another one that fails; and the same
-- on the view.
abbrev three_uses : List (Use ℕ)
three_uses =
    creates (codes "a") [] [] [] 100 100 true
    ∷ creates (codes "b") [] [] [] 110 110 false
    ∷ appends (codes "a") (5 ∷ []) 130 true none
    ∷ []

other_fails : any (half_creates (codes "a")) three_uses ≡ false
unfolding same
other_fails = refl

use_all_refines_example :
    ((get_meta (codes "a") 140 (use_all three_uses (new_file_store 50 empty empty))).0
      ≡ live 50 140 ((view_all 50 three_uses nothing).meta (codes "a")))
    × (get_messages sizes (codes "a") (use_all three_uses (new_file_store 50 empty empty))
        ≡ read_lines sizes ((view_all 50 three_uses nothing).lines (codes "a")))
use_all_refines_example = use_all_refines sizes 50 three_uses (codes "a") 140 other_fails
