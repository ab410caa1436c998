-- ===== src/Session/TooLong.antt =====
-- store.go: a message whose line is too long for the scanner of GetMessages.
use code_runner_backend.Prelude.{
  ℕ, ◌≤◌, ◌≡◌, refl, ap, inl, inr, Bool, true, false, List, [], ◌∷◌, map, Option, none, arith,
  Bool-cases, ok,
}
use mathlib.Core.List.{append-nil}
use code_runner_backend.Prelude.Text.{Text, same, same_iff}
use code_runner_backend.Prelude.TextMap.{store, load-store}
use code_runner_backend.Session.{
  message, Write, FileStore, max_line, scan, get_messages, write_lines, log_of, append,
}
use code_runner_backend.Session.Log.{
  written_part, touch_meta-logs, scan-append_whole, scan-append_cut, get_messages-append_lem,
  log_of-read,
}

-- A call of Append.
pub record Appended (M : Type 0) : Type 0 where
  pub id : Text
  pub msgs : List M
  pub now : ℕ
  pub opened : Bool
  pub fails_at : Option ℕ
  pub meta_write : Write

unfoldable pub append_one : {M : Type 0} → Appended M → FileStore M → FileStore M
append_one a s = (append a.id a.msgs a.now a.opened a.fails_at a.meta_write s).1

unfoldable pub append_all : {M : Type 0} → List (Appended M) → FileStore M → FileStore M
unfolding append_one
append_all [] s = s
append_all (a ∷ later) s = append_all later (append_one a s)

module _ {M : Type 0} (size : M → ℕ) where
  -- The message that is too long ends the reading.
  get_messages-append_long :
      (id : Text) (m : M) (now : ℕ) (w : Write) (s : FileStore M) (old : List M)
      → max_line ≤ size m
      → get_messages size id s ≡ ok (old, false)
      → get_messages size id (append id (m ∷ []) now true none w s).1 ≡ ok (old, true)
  get_messages-append_long id m now w s old long h =
      let before = log_of-read size id s (old, false) h in
      rw
        (
          get_messages-append_lem size id (m ∷ []) now none w s,
          scan-append_whole size (log_of id s) (message m ∷ []) (ap (λ r. r.1) before),
          before,
          scan_long,
        )
        (ap (λ l. ok (l, true)) (append-nil old))
    where
      scan_long : scan size (message m ∷ []) ≡ ([], true)
      scan_long = unfold scan in ground arith

  -- Once the reading ends with an error, no append changes what is read.
  get_messages-append_cut :
      (id : Text) (later : List M) (at : ℕ) (fails_at : Option ℕ) (v : Write) (s : FileStore M)
      (old : List M)
      → get_messages size id s ≡ ok (old, true)
      → get_messages size id (append id later at true fails_at v s).1 ≡ ok (old, true)
  get_messages-append_cut id later at fails_at v s old h =
      let cut = log_of-read size id s (old, true) h in
      rw
        (
          get_messages-append_lem size id later at fails_at v s,
          scan-append_cut size (log_of id s) (map message (written_part later fails_at))
              (ap (λ r. r.1) cut),
          cut,
        )
        refl

  -- Nor does an append to another session, or one whose file cannot be opened.
  append_one-cut :
      (id : Text) (a : Appended M) (s : FileStore M) (old : List M)
      → get_messages size id s ≡ ok (old, true)
      → get_messages size id (append_one a s) ≡ ok (old, true)
  unfolding append_one append get_messages
  append_one-cut id a s old h = elim (Bool-cases a.opened) [
    | inr e ↦ rw (append_one, e) h
    | inl e ↦ elim (Bool-cases (same a.id id)) [
      | inl f ↦
          rw (append_one, e, (same_iff a.id id).0 f)
            (get_messages-append_cut id a.msgs a.now a.fails_at a.meta_write s old h)
      | inr f ↦
          let lines = (write_lines a.msgs a.fails_at (log_of a.id s)).0 in
          let t : FileStore M = record s { logs = store a.id lines s.logs } in
          ground
            (arith, h, touch_meta-logs a.id a.now a.meta_write t, load-store a.id id lines s.logs)
    ]
  ]

  append_all-cut :
      (id : Text) (later : List (Appended M)) (s : FileStore M) (old : List M)
      → get_messages size id s ≡ ok (old, true)
      → get_messages size id (append_all later s) ≡ ok (old, true)
  unfolding append_all
  append_all-cut id [] s old h = h
  append_all-cut id (a ∷ later) s old h =
      append_all-cut id later (append_one a s) old (append_one-cut id a s old h)

  append_answer :
      (id : Text) (m : M) (now : ℕ) (w : Write) (s : FileStore M)
      → (append id (m ∷ []) now true none w s).0 ≡ none
  unfolding append write_lines
  append_answer id m now w s = refl

  -- Where a session reads without an error, an append of one message that is too long for the
  -- scanner, whose file opens and whose write works, succeeds, and a read after it, and after any
  -- further appends to any sessions, gives the messages in front of it with an error.
  pub append_too_long :
      (id : Text) (m : M) (now : ℕ) (w : Write) (s : FileStore M) (old : List M)
      (later : List (Appended M))
      → max_line ≤ size m
      → get_messages size id s ≡ ok (old, false)
      → let t = append id (m ∷ []) now true none w s in
        (t.0 ≡ none) × (get_messages size id (append_all later t.1) ≡ ok (old, true))
  append_too_long id m now w s old later long h = (
    append_answer id m now w s,
    append_all-cut id later _ old (get_messages-append_long id m now w s old long h),
  )
