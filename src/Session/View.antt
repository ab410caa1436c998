-- ===== src/Session/View.antt =====
-- store.go: the sessions as a client knows them, and what the calls do to them.
use code_runner_backend.Prelude.{
  ℕ, Bool, true, false, not, List, [], ◌∷◌, ◌++◌, Option, none, some, ltb, if◌then◌else◌, map,
  length,
}
use code_runner_backend.Prelude.Text.{Text, same}
use code_runner_backend.Session.{SessionMeta, MetaFile, parses, Line, message, is_expired}
use code_runner_backend.Session.Log.{written_part}
use code_runner_backend.Session.Cache.{Use, creates, reads, appends, deletes, cleans}

-- What a client knows of the sessions: no cache, no files.
pub record View (M : Type 0) : Type 0 where
  pub meta : Text → Option SessionMeta
  pub lines : Text → Option (List (Line M))

abbrev pub live : ℕ → ℕ → Option SessionMeta → Option SessionMeta
live ttl now none = none
live ttl now (some m) = if is_expired ttl now m then none else some m

-- A function, changed at one key.
abbrev pub update : {A : Type 0} → Text → A → (Text → A) → Text → A
update id v f j = if same id j then v else f j

abbrev pub touched : ℕ → Option SessionMeta → Option SessionMeta
touched now none = none
touched now (some m) = some (record m { last_active_at = now })

abbrev pub lines_or_none : {M : Type 0} → Option (List (Line M)) → List (Line M)
lines_or_none none = []
lines_or_none (some l) = l

-- Does a write that fails at this place touch these messages?
abbrev pub is_whole : {M : Type 0} → List M → Option ℕ → Bool
is_whole msgs none = true
is_whole msgs (some i) = not (ltb i (length msgs))

abbrev pub as_file : Option SessionMeta → Option MetaFile
as_file none = none
as_file (some m) = some (parses m)

module _ {M : Type 0} where
  abbrev pub nothing : View M
  nothing = record { meta = λ j. none; lines = λ j. none }

  -- The calls on the view. A Create that fails and a read change nothing; a clean-up forgets what
  -- has expired.
  unfoldable pub view_use : ℕ → Use M → View M → View M
  view_use ttl (creates id instruction article_id owner_id created active false) v = v
  view_use ttl (creates id instruction article_id owner_id created active true) v = record {
    meta =
        update id
          (some (record {
            id = id;
            owner_id = owner_id;
            instruction = instruction;
            article_id = article_id;
            created_at = created;
            last_active_at = active;
          }))
          v.meta;
    lines = update id (some []) v.lines;
  }
  view_use ttl (reads id now) v = v
  view_use ttl (appends id msgs now false fails_at) v = v
  view_use ttl (appends id msgs now true fails_at) v = record {
    meta = if is_whole msgs fails_at then update id (touched now (v.meta id)) v.meta else v.meta;
    lines =
        update id (some (lines_or_none (v.lines id) ++ map message (written_part msgs fails_at)))
          v.lines;
  }
  view_use ttl (deletes id) v = record {
    meta = update id none v.meta;
    lines = update id none v.lines;
  }
  view_use ttl (cleans now) v = record {
    meta = λ j. live ttl now (v.meta j);
    lines = λ j. elim (v.meta j) [
      | none ↦ v.lines j
      | some m ↦ if is_expired ttl now m then none else v.lines j
    ];
  }

  unfoldable pub view_all : ℕ → List (Use M) → View M → View M
  view_all ttl [] v = v
  view_all ttl (u ∷ us) v = view_all ttl us (view_use ttl u v)
