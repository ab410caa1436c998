-- ===== src/Session/Expiry.antt =====
-- store.go: which sessions are found, and which are cleaned away.
use code_runner_backend.Prelude.{
  ℕ, ◌+◌, ◌-◌, ◌≤◌, ◌<◌, ◌≡◌, refl, sym, subst, ◌∙◌, inl, inr, Bool, true, false, not, ◌||◌, List,
  [], ◌∷◌, ◌++◌, All, none, some, arith, ltb, if◌then◌else◌, Option-cases,
}
use code_runner_backend.Prelude.Text.{Text, codes, same, same_iff, trim_suffix}
use code_runner_backend.Prelude.TextMap.{
  TextMap, load, store, keys, load-store, load-delete, load-empty,
}
use code_runner_backend.Session.{
  SessionMeta, MetaFile, parses, malformed_meta, message, Line, FileStore, new_file_store, get_meta,
  delete_session, clean_key, clean_keys, clean_expired, is_meta_name, list_entries, list_sessions,
  append, touch_meta, write_meta, write_lines, log_of, Write, written, failed,
}

write_meta-other :
    (id j : Text) (m : SessionMeta) (w : Write) (files : TextMap MetaFile)
    → same id j ≡ false
    → load j (write_meta id m w files) ≡ load j files
unfolding write_meta
write_meta-other id j m written files d = ground (arith, load-store id j (parses m) files)
write_meta-other id j m (failed none) files d = ground (arith, load-delete id j files)
write_meta-other id j m (failed (some left)) files d = ground (arith, load-store id j left files)

module _ {M : Type 0} where
  clean_key-get_meta :
      (now later : ℕ) (k j : Text) (s : FileStore M)
      → now ≤ later
      → (get_meta j later (clean_key now k s)).0 ≡ (get_meta j later s).0
  unfolding get_meta clean_key delete_session
  clean_key-get_meta now later k j s t = elim (Option-cases (load k s.metas)) [
    | inl e ↦ ground arith
    | inr (m, e) ↦
        ground (arith, same_iff k j, load-delete k j s.metas, load-delete k j s.meta_files)
  ]

  clean_keys-get_meta :
      (now later : ℕ) (ks : List Text) (j : Text) (s : FileStore M)
      → now ≤ later
      → (get_meta j later (clean_keys now ks s)).0 ≡ (get_meta j later s).0
  unfolding clean_keys
  clean_keys-get_meta now later [] j s t = refl
  clean_keys-get_meta now later (k ∷ ks) j s t =
      clean_keys-get_meta now later ks j (clean_key now k s) t
      ∙ clean_key-get_meta now later k j s t

  -- A clean-up changes nothing of what GetMeta finds from then on.
  pub get_meta-clean_expired :
      (now later : ℕ) (id : Text) (s : FileStore M)
      → now ≤ later
      → (get_meta id later (clean_expired now s)).0 ≡ (get_meta id later s).0
  unfolding clean_expired
  get_meta-clean_expired now later id s t = clean_keys-get_meta now later (keys s.metas) id s t

  -- A session whose metadata stands in a file only.
  abbrev pub OnDiskOnly : Text → SessionMeta → FileStore M → Type 0
  OnDiskOnly id m s = (load id s.metas ≡ none) × (load id s.meta_files ≡ some (parses m))

  clean_key-OnDiskOnly :
      (now : ℕ) (k id : Text) (m : SessionMeta) (s : FileStore M)
      → OnDiskOnly id m s
      → OnDiskOnly id m (clean_key now k s)
  unfolding clean_key delete_session
  clean_key-OnDiskOnly now k id m s v = elim (Option-cases (load k s.metas)) [
    | inl e ↦ ground arith
    | inr (n, e) ↦
        ground (arith, same_iff k id, load-delete k id s.metas, load-delete k id s.meta_files)
  ]

  clean_keys-OnDiskOnly :
      (now : ℕ) (ks : List Text) (id : Text) (m : SessionMeta) (s : FileStore M)
      → OnDiskOnly id m s
      → OnDiskOnly id m (clean_keys now ks s)
  unfolding clean_keys
  clean_keys-OnDiskOnly now [] id m s v = v
  clean_keys-OnDiskOnly now (k ∷ ks) id m s v =
      clean_keys-OnDiskOnly now ks id m (clean_key now k s) (clean_key-OnDiskOnly now k id m s v)

  -- At each of the times: a look at the session, then a clean-up.
  unfoldable pub rounds : Text → List ℕ → FileStore M → FileStore M
  rounds id [] s = s
  rounds id (t ∷ ts) s = rounds id ts (clean_expired t (get_meta id t s).1)

  clean_key-ttl : (now : ℕ) (k : Text) (s : FileStore M) → (clean_key now k s).ttl ≡ s.ttl
  unfolding clean_key delete_session
  clean_key-ttl now k s = ground arith

  clean_keys-ttl : (now : ℕ) (ks : List Text) (s : FileStore M) → (clean_keys now ks s).ttl ≡ s.ttl
  unfolding clean_keys
  clean_keys-ttl now [] s = refl
  clean_keys-ttl now (k ∷ ks) s = clean_keys-ttl now ks (clean_key now k s) ∙ clean_key-ttl now k s

  expired_get_meta :
      (id : Text) (m : SessionMeta) (t : ℕ) (s : FileStore M)
      → OnDiskOnly id m s
      → m.last_active_at + s.ttl < t
      → (get_meta id t s).1 ≡ s
  unfolding get_meta
  expired_get_meta id m t s v h = ground arith

  rounds-OnDiskOnly :
      (id : Text) (m : SessionMeta) (ts : List ℕ) (s : FileStore M)
      → OnDiskOnly id m s
      → All (λ t. m.last_active_at + s.ttl < t) ts
      → OnDiskOnly id m (rounds id ts s)
  unfolding rounds clean_expired
  rounds-OnDiskOnly id m [] s v h = v
  rounds-OnDiskOnly id m (t ∷ ts) s v h =
      let s' = clean_keys t (keys s.metas) s in
      subst (λ u. OnDiskOnly id m (rounds id ts (clean_keys t (keys u.metas) u)))
        (sym (expired_get_meta id m t s v h.0))
        (rounds-OnDiskOnly id m ts s' (clean_keys-OnDiskOnly t (keys s.metas) id m s v)
          (rw (clean_keys-ttl t (keys s.metas) s) h.1))

  -- A session whose metadata is in a file and has expired at each of the times: looks at it in a
  -- new process, each followed by a clean-up, leave the file where it is.
  pub rounds_keep_leftover :
      (ttl : ℕ) (files : TextMap MetaFile) (logs : TextMap (List (Line M))) (id : Text)
      (m : SessionMeta) (ts : List ℕ)
      → load id files ≡ some (parses m)
      → All (λ t. m.last_active_at + ttl < t) ts
      → load id (rounds id ts (new_file_store ttl files logs)).meta_files ≡ some (parses m)
  unfolding new_file_store
  rounds_keep_leftover ttl files logs id m ts e h =
      (rounds-OnDiskOnly id m ts (new_file_store ttl files logs)
        (load-empty {V = SessionMeta} id, e) h).1

  -- What the names of a directory give, asked one by one in the same store.
  unfoldable pub found_of : List (Text × Bool) → ℕ → FileStore M → List SessionMeta
  found_of [] now s = []
  found_of ((name, is_dir) ∷ entries) now s =
      let rest = found_of entries now s in
      if is_dir || not (is_meta_name name)
      then rest
      else elim (get_meta (trim_suffix name (codes ".meta.json")) now s).0 [
        | none ↦ rest
        | some m ↦ m ∷ rest
      ]

  get_meta-get_meta :
      (i j : Text) (now : ℕ) (s : FileStore M)
      → (get_meta j now (get_meta i now s).1).0 ≡ (get_meta j now s).0
  unfolding get_meta
  get_meta-get_meta i j now s = elim (Option-cases (load i s.metas)) [
    | inr (m, e) ↦ ground arith
    | inl e ↦ elim (Option-cases (load i s.meta_files)) [
      | inl f ↦ ground arith
      | inr (malformed_meta, f) ↦ ground arith
      | inr (parses m, f) ↦ ground (arith, same_iff i j, load-store i j m s.metas)
    ]
  ]

  found_of-get_meta :
      (entries : List (Text × Bool)) (i : Text) (now : ℕ) (s : FileStore M)
      → found_of entries now (get_meta i now s).1 ≡ found_of entries now s
  unfolding found_of
  found_of-get_meta [] i now s = refl
  found_of-get_meta ((name, is_dir) ∷ entries) i now s = ground (
    arith,
    get_meta-get_meta i (trim_suffix name (codes ".meta.json")) now s,
    found_of-get_meta entries i now s,
  )

  list_entries_lem :
      (entries : List (Text × Bool)) (now : ℕ) (s : FileStore M)
      → (list_entries entries now s).0 ≡ found_of entries now s
  unfolding list_entries found_of
  list_entries_lem [] now s = refl
  list_entries_lem ((name, is_dir) ∷ entries) now s =
      let id = trim_suffix name (codes ".meta.json") in
      ground (
        arith,
        list_entries_lem entries now s,
        list_entries_lem entries now (get_meta id now s).1,
        found_of-get_meta entries id now s,
      )

  -- ListSessions gives what GetMeta finds for the ids of the meta files, in the directory's order,
  -- although it fills the cache on the way.
  pub list_sessions-get_meta :
      (entries : List (Text × Bool)) (now : ℕ) (s : FileStore M)
      → (list_sessions (some entries) now s).0 ≡ found_of entries now s
  unfolding list_sessions
  list_sessions-get_meta entries now s = list_entries_lem entries now s

  get_meta-touch_meta :
      (id j : Text) (now later : ℕ) (w : Write) (s : FileStore M) (m : SessionMeta)
      → load id s.metas ≡ some m
      → (get_meta j later (touch_meta id now w s)).0 ≡ (
          if same id j
          then (if ltb s.ttl (later - now) then none else some (record m { last_active_at = now }))
          else (get_meta j later s).0)
  unfolding get_meta touch_meta
  get_meta-touch_meta id j now later w s m e =
      let touched : SessionMeta = record m { last_active_at = now } in
      ground (
        arith,
        same_iff id j,
        load-store id j touched s.metas,
        write_meta-other id j touched w s.meta_files,
      )

  write_lines-all : (msgs : List M) (lines : List (Line M)) → (write_lines msgs none lines).1 ≡ true
  unfolding write_lines
  write_lines-all [] lines = refl
  write_lines-all (m ∷ msgs) lines = write_lines-all msgs (lines ++ message m ∷ [])

  get_meta-logs :
      (j : Text) (now : ℕ) (logs : TextMap (List (Line M))) (s : FileStore M)
      → (get_meta j now (record s { logs = logs })).0 ≡ (get_meta j now s).0
  unfolding get_meta
  get_meta-logs j now logs s = ground arith

  append_lem :
      (id : Text) (msgs : List M) (now : ℕ) (w : Write) (s : FileStore M)
      → append id msgs now true none w s ≡ (
        none,
        touch_meta id now w
            (record s { logs = store id (write_lines msgs none (log_of id s)).0 s.logs }),
      )
  unfolding append
  append_lem id msgs now w s = rw (write_lines-all msgs (log_of id s)) refl

  -- A successful append to a session in the cache makes it live for the time to live from then
  -- on, and does not change what is found of other sessions.
  pub get_meta-append :
      (id j : Text) (msgs : List M) (now later : ℕ) (w : Write) (s : FileStore M) (m : SessionMeta)
      → load id s.metas ≡ some m
      → (get_meta j later (append id msgs now true none w s).1).0 ≡ (
          if same id j
          then (if ltb s.ttl (later - now) then none else some (record m { last_active_at = now }))
          else (get_meta j later s).0)
  get_meta-append id j msgs now later w s m e =
      let logs = store id (write_lines msgs none (log_of id s)).0 s.logs in
      rw (append_lem id msgs now w s, ← get_meta-logs j later logs s)
        (get_meta-touch_meta id j now later w (record s { logs = logs }) m e)
