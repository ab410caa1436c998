-- ===== src/Session/Cache.antt =====
-- store.go: the cache of the metadata agrees with the files.
use code_runner_backend.Prelude.{
  ℕ, ◌≡◌, inl, inr, Bool, true, false, List, [], ◌∷◌, Option, some, arith, Bool-cases, Option-cases,
  any, not, ◌&&◌,
}
use code_runner_backend.Prelude.Text.{Text, same, same_iff}
use code_runner_backend.Prelude.TextMap.{
  TextMap, load, store, delete, keys, load-store, load-delete, load-empty,
}
use code_runner_backend.Session.{
  SessionMeta, MetaFile, parses, malformed_meta, Line, written, FileStore, new_file_store,
  create_with_article, get_meta, touch_meta, delete_session, clean_key, clean_keys, clean_expired,
  append, write_meta, write_lines, log_of,
}

-- A use of the store, with a disk that works for the metadata; `log_created`: can the file of the
-- messages be made?
pub data Use (M : Type 0) : Type 0 where
  creates : Text → Text → Text → Text → ℕ → ℕ → Bool → Use M
  reads : Text → ℕ → Use M
  appends : Text → List M → ℕ → Bool → Option ℕ → Use M
  deletes : Text → Use M
  cleans : ℕ → Use M

-- A Create of the session that leaves its metadata on the disk, and fails.
abbrev pub half_creates : {M : Type 0} → Text → Use M → Bool
half_creates j (creates id i a o c t log_created) = not log_created && same id j
half_creates j _ = false

-- The session at a key as the cache and the files have it, where a cached entry is what its file
-- says.
abbrev pub Agree : Text → TextMap SessionMeta → TextMap MetaFile → Type 0
Agree j metas files = (m : SessionMeta) → load j metas ≡ some m → load j files ≡ some (parses m)

Agree-store :
    (j id : Text) (m : SessionMeta) (metas : TextMap SessionMeta) (files : TextMap MetaFile)
    → Agree j metas files
    → Agree j (store id m metas) (store id (parses m) files)
Agree-store j id m metas files v n h =
    ground (arith, v n, load-store id j m metas, load-store id j (parses m) files)

Agree-store_found :
    (j id : Text) (m : SessionMeta) (metas : TextMap SessionMeta) (files : TextMap MetaFile)
    → load id files ≡ some (parses m)
    → Agree j metas files
    → Agree j (store id m metas) files
Agree-store_found j id m metas files e v n h =
    ground (arith, v n, same_iff id j, load-store id j m metas)

-- Only the file of another session is written.
Agree-store_file :
    (j id : Text) (m : SessionMeta) (metas : TextMap SessionMeta) (files : TextMap MetaFile)
    → same id j ≡ false
    → Agree j metas files
    → Agree j metas (store id (parses m) files)
Agree-store_file j id m metas files e v n h = ground (arith, v n, load-store id j (parses m) files)

Agree-delete :
    (j id : Text) (metas : TextMap SessionMeta) (files : TextMap MetaFile)
    → Agree j metas files
    → Agree j (delete id metas) (delete id files)
Agree-delete j id metas files v n h =
    ground (arith, v n, load-delete id j metas, load-delete id j files)

module _ {M : Type 0} where
  unfoldable pub use_store : Use M → FileStore M → FileStore M
  use_store (creates id instruction article_id owner_id created active log_created) s =
      (create_with_article id instruction article_id owner_id created active written log_created
        s).1
  use_store (reads id now) s = (get_meta id now s).1
  use_store (appends id msgs now opened fails_at) s =
      (append id msgs now opened fails_at written s).1
  use_store (deletes id) s = delete_session id s
  use_store (cleans now) s = clean_expired now s

  unfoldable pub use_all : List (Use M) → FileStore M → FileStore M
  use_all [] s = s
  use_all (u ∷ us) s = use_all us (use_store u s)

module _ {M : Type 0} (j : Text) where
  abbrev pub InSync : FileStore M → Type 0
  InSync s = Agree j s.metas s.meta_files

  new_file_store-InSync :
      (ttl : ℕ) (files : TextMap MetaFile) (logs : TextMap (List (Line M)))
      → InSync (new_file_store ttl files logs)
  unfolding new_file_store
  new_file_store-InSync ttl files logs m h = absurd (cc (load-empty {V = SessionMeta} j))

  get_meta-InSync :
      (id : Text) (now : ℕ) (s : FileStore M) → InSync s → InSync (get_meta id now s).1
  unfolding get_meta
  get_meta-InSync id now s v n h = elim (Option-cases (load id s.metas)) [
    | inr (m, e) ↦ ground (arith, v n)
    | inl e ↦ elim (Option-cases (load id s.meta_files)) [
      | inl f ↦ ground (arith, v n)
      | inr (malformed_meta, f) ↦ ground (arith, v n)
      | inr (parses m, f) ↦ ground (arith, v n, Agree-store_found j id m s.metas s.meta_files f v n)
    ]
  ]

  delete_session-InSync : (id : Text) (s : FileStore M) → InSync s → InSync (delete_session id s)
  unfolding delete_session
  delete_session-InSync id s v = Agree-delete j id s.metas s.meta_files v

  touch_meta-InSync :
      (id : Text) (now : ℕ) (s : FileStore M) → InSync s → InSync (touch_meta id now written s)
  unfolding touch_meta write_meta
  touch_meta-InSync id now s v n h = elim (Option-cases (load id s.metas)) [
    | inl e ↦ ground (arith, v n)
    | inr (m, e) ↦
        ground
          (arith, Agree-store j id (record m { last_active_at = now }) s.metas s.meta_files v n)
  ]

  append-InSync :
      (id : Text) (msgs : List M) (now : ℕ) (opened : Bool) (fails_at : Option ℕ) (s : FileStore M)
      → InSync s
      → InSync (append id msgs now opened fails_at written s).1
  unfolding append
  append-InSync id msgs now false fails_at s v = v
  append-InSync id msgs now true fails_at s v =
      elim (Bool-cases (write_lines msgs fails_at (log_of id s)).1) [
        | inl e ↦ rw e (touch_meta-InSync id now _ v)
        | inr e ↦ rw e v
      ]

  create_with_article-InSync :
      (id instruction article_id owner_id : Text) (created active : ℕ) (log_created : Bool)
      (s : FileStore M)
      → half_creates {M = M} j
          (creates id instruction article_id owner_id created active log_created)
        ≡ false
      → InSync s
      → InSync
          (create_with_article id instruction article_id owner_id created active written log_created
            s).1
  unfolding create_with_article write_meta
  create_with_article-InSync id instruction article_id owner_id created active true s e v =
      Agree-store j id _ s.metas s.meta_files v
  create_with_article-InSync id instruction article_id owner_id created active false s e v =
      Agree-store_file j id _ s.metas s.meta_files e v

  clean_key-InSync :
      (now : ℕ) (id : Text) (s : FileStore M) → InSync s → InSync (clean_key now id s)
  unfolding clean_key
  clean_key-InSync now id s v n h = elim (Option-cases (load id s.metas)) [
    | inl e ↦ ground (arith, v n)
    | inr (m, e) ↦ ground (arith, v n, delete_session-InSync id s v n)
  ]

  clean_keys-InSync :
      (now : ℕ) (ids : List Text) (s : FileStore M) → InSync s → InSync (clean_keys now ids s)
  unfolding clean_keys
  clean_keys-InSync now [] s v = v
  clean_keys-InSync now (id ∷ ids) s v =
      clean_keys-InSync now ids (clean_key now id s) (clean_key-InSync now id s v)

  use_store-InSync :
      (u : Use M) (s : FileStore M) → half_creates j u ≡ false → InSync s → InSync (use_store u s)
  unfolding use_store clean_expired
  use_store-InSync (creates id i a o c t l) s e v = create_with_article-InSync id i a o c t l s e v
  use_store-InSync (reads id now) s e v = get_meta-InSync id now s v
  use_store-InSync (appends id msgs now opened f) s e v = append-InSync id msgs now opened f s v
  use_store-InSync (deletes id) s e v = delete_session-InSync id s v
  use_store-InSync (cleans now) s e v = clean_keys-InSync now (keys s.metas) s v

  use_all-InSync :
      (us : List (Use M)) (s : FileStore M)
      → any (half_creates j) us ≡ false
      → InSync s
      → InSync (use_all us s)
  unfolding use_all
  use_all-InSync [] s e v = v
  use_all-InSync (u ∷ us) s e v =
      use_all-InSync us (use_store u s) (ground arith) (use_store-InSync u s (ground arith) v)

  restart_lem :
      (now : ℕ) (s : FileStore M)
      → InSync s
      → (get_meta j now (new_file_store s.ttl s.meta_files s.logs)).0 ≡ (get_meta j now s).0
  unfolding get_meta new_file_store
  restart_lem now s v = elim (Option-cases (load j s.metas)) [
    | inl e ↦ ground (arith, load-empty {V = SessionMeta} j)
    | inr (m, e) ↦ ground (arith, load-empty {V = SessionMeta} j, v m)
  ]

-- After any uses of a new store whose writes of metadata work, a process that starts again over its
-- files finds the same metadata, at every time, for every session that is not one of a Create that
-- fails because the file of the messages cannot be made.
pub get_meta-new_file_store :
    {M : Type 0} (us : List (Use M)) (ttl : ℕ) (files : TextMap MetaFile)
    (logs : TextMap (List (Line M))) (id : Text) (now : ℕ)
    → any (half_creates id) us ≡ false
    → let s = use_all us (new_file_store ttl files logs) in
      (get_meta id now (new_file_store s.ttl s.meta_files s.logs)).0 ≡ (get_meta id now s).0
get_meta-new_file_store us ttl files logs id now e =
    let s = use_all us (new_file_store ttl files logs) in
    restart_lem id now s (
      use_all-InSync id us (new_file_store ttl files logs) e
        (new_file_store-InSync id ttl files logs))
