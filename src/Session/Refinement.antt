-- ===== src/Session/Refinement.antt =====
-- store.go: the store as a client sees it. A session is its metadata and its lines; the cache and
-- the files cannot be told from what GetMeta and GetMessages answer.
use code_runner_backend.Prelude.{
  ℕ, zero, suc, ◌≡◌, refl, Bool, true, false, ◌&&◌, List, [], ◌∷◌, ◌++◌, Option, none, some, arith,
  if◌then◌else◌, inl, inr, Bool-cases, Option-cases, map, any, Result, ok, err,
}
use code_runner_backend.Prelude.Text.{Text, same, same_iff}
use code_runner_backend.Prelude.TextMap.{
  empty, load, store, keys, load-store, load-delete, load-empty, load-keys,
}
use code_runner_backend.Session.{
  SessionMeta, MetaFile, parses, malformed_meta, Line, message, FileStore, StoreError, is_expired,
  new_file_store, get_meta, get_messages, scan, create_with_article, append, touch_meta,
  delete_session, clean_expired, clean_keys, clean_key, write_meta, write_lines, log_of, written,
}
use code_runner_backend.Session.Log.{written_part, write_lines_lem}
use code_runner_backend.Session.Cache.{
  Use, half_creates, creates, reads, appends, deletes, cleans, use_store, use_all,
}
use code_runner_backend.Session.View.{
  View, live, update, touched, lines_or_none, is_whole, as_file, nothing, view_use, view_all,
}

module _ {M : Type 0} where
  is_whole_lem :
      (msgs : List M) (fails_at : Option ℕ) (lines : List (Line M))
      → (write_lines msgs fails_at lines).1 ≡ is_whole msgs fails_at
  unfolding write_lines
  is_whole_lem [] none lines = refl
  is_whole_lem [] (some i) lines = ground arith
  is_whole_lem (m ∷ msgs) none lines = is_whole_lem msgs none (lines ++ message m ∷ [])
  is_whole_lem (m ∷ msgs) (some zero) lines = ground arith
  is_whole_lem (m ∷ msgs) (some (suc i)) lines =
      ground (arith, is_whole_lem msgs (some i) (lines ++ message m ∷ []))

  -- Has the session at this key expired in the cache?
  abbrev is_gone : ℕ → FileStore M → Text → Bool
  is_gone now s j = elim (load j s.metas) [ none ↦ false | some m ↦ is_expired s.ttl now m ]

  clean_keys-entry :
      (now : ℕ) (ks : List Text) (s : FileStore M) (j : Text)
      → let gone = any (λ k. same k j) ks && is_gone now s j in
        let t = clean_keys now ks s in
        (t.ttl ≡ s.ttl)
        × (load j t.metas ≡ (if gone then none else load j s.metas))
        × (load j t.meta_files ≡ (if gone then none else load j s.meta_files))
        × (load j t.logs ≡ (if gone then none else load j s.logs))
  unfolding clean_keys clean_key delete_session
  clean_keys-entry now [] s j = (refl, refl, refl, refl)
  clean_keys-entry now (k ∷ ks) s j = ground (
    arith,
    same_iff k j,
    clean_keys-entry now ks (clean_key now k s) j,
    load-delete k j s.metas,
    load-delete k j s.meta_files,
    load-delete k j s.logs,
  )

-- The session at the key `j`, in a store whose time to live is `ttl`.
module _ {M : Type 0} (ttl : ℕ) (j : Text) where
  -- The store stands for the view at this session.
  abbrev pub Stands : FileStore M → View M → Type 0
  Stands s v =
      (s.ttl ≡ ttl)
      × (load j s.metas ≡ v.meta j)
      × (load j s.meta_files ≡ as_file (v.meta j))
      × (load j s.logs ≡ v.lines j)

  create-Stands :
      (id i a o : Text) (c t : ℕ) (log_created : Bool) (s : FileStore M) (v : View M)
      → half_creates {M = M} j (creates id i a o c t log_created) ≡ false
      → Stands s v
      → Stands
          (use_store (creates id i a o c t log_created) s)
          (view_use ttl (creates id i a o c t log_created) v)
  unfolding use_store view_use create_with_article write_meta
  create-Stands id i a o c t log_created s v e h =
      let m : SessionMeta = record {
        id = id;
        owner_id = o;
        instruction = i;
        article_id = a;
        created_at = c;
        last_active_at = t;
      } in
      elim (Bool-cases log_created) [
        | inl f ↦ ground (
          arith,
          load-store id j m s.metas,
          load-store id j (parses m) s.meta_files,
          load-store {V = List (Line M)} id j [] s.logs,
        )
        | inr f ↦ ground (arith, load-store id j (parses m) s.meta_files)
      ]

  delete-Stands :
      (id : Text) (s : FileStore M) (v : View M)
      → Stands s v
      → Stands (delete_session id s) (view_use ttl (deletes id) v)
  unfolding view_use delete_session
  delete-Stands id s v h =
      ground
        (arith, load-delete id j s.metas, load-delete id j s.meta_files, load-delete id j s.logs)

  -- A read can put the metadata of another session into the cache.
  read-Stands :
      (id : Text) (now : ℕ) (s : FileStore M) (v : View M)
      → Stands s v
      → Stands (get_meta id now s).1 v
  unfolding get_meta
  read-Stands id now s v h = elim (Option-cases (load id s.metas)) [
    | inr (m, e) ↦ ground arith
    | inl e ↦ elim (Option-cases (load id s.meta_files)) [
      | inl f ↦ ground arith
      | inr (malformed_meta, f) ↦ ground arith
      | inr (parses m, f) ↦ ground (arith, same_iff id j, load-store id j m s.metas)
    ]
  ]

  touch-Stands :
      (id : Text) (now : ℕ) (s : FileStore M) (v : View M)
      → Stands s v
      → Stands
          (touch_meta id now written s)
          (record v { meta = update id (touched now (v.meta id)) v.meta })
  unfolding touch_meta write_meta
  touch-Stands id now s v h = elim (Option-cases (load id s.metas)) [
    | inl e ↦ ground (arith, same_iff id j)
    | inr (m, e) ↦
        let m' : SessionMeta = record m { last_active_at = now } in
        ground (
          arith,
          same_iff id j,
          load-store id j m' s.metas,
          load-store id j (parses m') s.meta_files,
        )
  ]

  append-Stands :
      (id : Text) (msgs : List M) (now : ℕ) (opened : Bool) (fails_at : Option ℕ) (s : FileStore M)
      (v : View M)
      → Stands s v
      → Stands
          (append id msgs now opened fails_at written s).1
          (view_use ttl (appends id msgs now opened fails_at) v)
  unfolding append view_use
  append-Stands id msgs now false fails_at s v h = h
  append-Stands id msgs now true fails_at s v h =
      let lines = (write_lines msgs fails_at (log_of id s)).0 in
      let t : FileStore M = record s { logs = store id lines s.logs } in
      let w : View M = record v {
        lines =
            update id
              (some (lines_or_none (v.lines id) ++ map message (written_part msgs fails_at)))
              v.lines;
      } in
      let begun : Stands t w = ground (
        arith,
        same_iff id j,
        write_lines_lem msgs fails_at (log_of id s),
        load-store id j lines s.logs,
      ) in
      let ended = touch-Stands id now t w begun in
      elim (Bool-cases (is_whole msgs fails_at)) [
        | inl e ↦ rw (is_whole_lem msgs fails_at (log_of id s), e) ended
        | inr e ↦ rw (is_whole_lem msgs fails_at (log_of id s), e) begun
      ]

  clean-Stands :
      (now : ℕ) (s : FileStore M) (v : View M)
      → Stands s v
      → Stands (clean_expired now s) (view_use ttl (cleans now) v)
  unfolding clean_expired view_use
  clean-Stands now s v h = elim (Bool-cases (any (λ k. same k j) (keys s.metas))) [
    | inl e ↦ ground (arith, clean_keys-entry now (keys s.metas) s j)
    | inr e ↦ ground (arith, load-keys j s.metas e, clean_keys-entry now (keys s.metas) s j)
  ]

  use_store-Stands :
      (u : Use M) (s : FileStore M) (v : View M)
      → half_creates j u ≡ false
      → Stands s v
      → Stands (use_store u s) (view_use ttl u v)
  unfolding use_store view_use
  use_store-Stands (creates id i a o c t l) s v e h = create-Stands id i a o c t l s v e h
  use_store-Stands (reads id now) s v e h = read-Stands id now s v h
  use_store-Stands (appends id msgs now opened f) s v e h = append-Stands id msgs now opened f s v h
  use_store-Stands (deletes id) s v e h = delete-Stands id s v h
  use_store-Stands (cleans now) s v e h = clean-Stands now s v h

  use_all-Stands :
      (us : List (Use M)) (s : FileStore M) (v : View M)
      → any (half_creates j) us ≡ false
      → Stands s v
      → Stands (use_all us s) (view_all ttl us v)
  unfolding use_all view_all
  use_all-Stands [] s v e h = h
  use_all-Stands (u ∷ us) s v e h =
      use_all-Stands us (use_store u s) (view_use ttl u v) (ground arith)
        (use_store-Stands u s v (ground arith) h)

  new-Stands : Stands (new_file_store ttl empty empty) nothing
  unfolding new_file_store
  new-Stands = (
    refl,
    load-empty {V = SessionMeta} j,
    load-empty {V = MetaFile} j,
    load-empty {V = List (Line M)} j,
  )

  Stands-get_meta :
      (now : ℕ) (s : FileStore M) (v : View M)
      → Stands s v
      → (get_meta j now s).0 ≡ live ttl now (v.meta j)
  unfolding get_meta
  Stands-get_meta now s v h = ground arith

module _ {M : Type 0} (size : M → ℕ) where
  abbrev pub read_lines : Option (List (Line M)) → Result StoreError (List M × Bool)
  read_lines none = err StoreError.log_not_opened
  read_lines (some l) = ok (scan size l)

  -- After any uses of a store that began with no files, and whose writes of metadata work, the two
  -- reads answer, at every time, what the same calls on the view give, for every session that is not
  -- one of a Create that fails because the file of the messages cannot be made.
  pub use_all_refines :
      (ttl : ℕ) (us : List (Use M)) (id : Text) (now : ℕ)
      → any (half_creates id) us ≡ false
      → let s = use_all us (new_file_store ttl empty empty) in
        let v = view_all ttl us nothing in
        ((get_meta id now s).0 ≡ live ttl now (v.meta id))
        × (get_messages size id s ≡ read_lines (v.lines id))
  unfolding get_messages
  use_all_refines ttl us id now e =
      let s = use_all us (new_file_store ttl empty empty) in
      let v = view_all ttl us nothing in
      let h =
        use_all-Stands ttl id us (new_file_store ttl empty empty) nothing e (new-Stands ttl id) in
      (Stands-get_meta ttl id now s v h, rw (get_messages, h.3) ground arith)
