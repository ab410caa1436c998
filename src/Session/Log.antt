-- ===== src/Session/Log.antt =====
-- store.go: the messages that are appended and read.
use code_runner_backend.Prelude.{
  ℕ, zero, suc, ◌<◌, ◌≡◌, refl, sym, ◌∙◌, ap, inl, inr, Bool, true, false, List, [], ◌∷◌, ◌++◌, map,
  take, All, Option, none, some, arith, Option-cases, ok,
}
use mathlib.Core.List.{append_assoc, append-nil}
use code_runner_backend.Prelude.Text.{Text, same_refl}
use code_runner_backend.Prelude.TextMap.{load, store, load-store}
use code_runner_backend.Session.{
  Line, message, blank, malformed, Write, FileStore, max_line, scan, get_messages, write_lines,
  log_of, append, touch_meta,
}

-- The messages of a call of Append that reach the file.
abbrev pub written_part : {M : Type 0} → List M → Option ℕ → List M
written_part msgs none = msgs
written_part msgs (some i) = take i msgs

module _ {M : Type 0} where
  pub write_lines_lem :
      (msgs : List M) (fails_at : Option ℕ) (lines : List (Line M))
      → (write_lines msgs fails_at lines).0 ≡ lines ++ map message (written_part msgs fails_at)
  unfolding write_lines
  write_lines_lem [] none lines = sym (append-nil lines)
  write_lines_lem [] (some zero) lines = sym (append-nil lines)
  write_lines_lem [] (some (suc i)) lines = sym (append-nil lines)
  write_lines_lem (m ∷ msgs) none lines =
      write_lines_lem msgs none (lines ++ message m ∷ []) ∙ append_assoc lines (message m ∷ []) _
  write_lines_lem (m ∷ msgs) (some zero) lines = sym (append-nil lines)
  write_lines_lem (m ∷ msgs) (some (suc i)) lines =
      write_lines_lem msgs (some i) (lines ++ message m ∷ [])
      ∙ append_assoc lines (message m ∷ []) _

  pub touch_meta-logs :
      (id : Text) (now : ℕ) (w : Write) (s : FileStore M) → (touch_meta id now w s).logs ≡ s.logs
  unfolding touch_meta
  touch_meta-logs id now w s = elim (Option-cases (load id s.metas)) [
    | inl e ↦ ground arith
    | inr (m, e) ↦ ground arith
  ]

  append-log :
      (id : Text) (msgs : List M) (now : ℕ) (fails_at : Option ℕ) (w : Write) (s : FileStore M)
      → load id (append id msgs now true fails_at w s).1.logs
        ≡ some (log_of id s ++ map message (written_part msgs fails_at))
  unfolding append
  append-log id msgs now fails_at w s =
      let lines = (write_lines msgs fails_at (log_of id s)).0 in
      let t : FileStore M = record s { logs = store id lines s.logs } in
      ground (
        arith,
        same_refl id,
        write_lines_lem msgs fails_at (log_of id s),
        touch_meta-logs id now w t,
        load-store id id lines s.logs,
      )

module _ {M : Type 0} (size : M → ℕ) where
  -- The scanner takes the line of the message.
  abbrev pub Fits : M → Type 0
  Fits m = size m < max_line

  pub scan-append_whole :
      (lines more : List (Line M))
      → (scan size lines).1 ≡ false
      → scan size (lines ++ more) ≡ ((scan size lines).0 ++ (scan size more).0, (scan size more).1)
  unfolding scan
  scan-append_whole [] more h = refl
  scan-append_whole (blank ∷ lines) more h = ground (arith, scan-append_whole lines more)
  scan-append_whole (message m ∷ lines) more h = ground (arith, scan-append_whole lines more)
  scan-append_whole (malformed n ∷ lines) more h = ground (arith, scan-append_whole lines more)

  pub scan-append_cut :
      (lines more : List (Line M))
      → (scan size lines).1 ≡ true
      → scan size (lines ++ more) ≡ scan size lines
  unfolding scan
  scan-append_cut [] more h = cc
  scan-append_cut (blank ∷ lines) more h = ground (arith, scan-append_cut lines more)
  scan-append_cut (message m ∷ lines) more h = ground (arith, scan-append_cut lines more)
  scan-append_cut (malformed n ∷ lines) more h = ground (arith, scan-append_cut lines more)

  scan-map : (msgs : List M) → All Fits msgs → scan size (map message msgs) ≡ (msgs, false)
  unfolding scan
  scan-map [] h = refl
  scan-map (m ∷ msgs) h = ground (arith, scan-map msgs)

  -- What get_messages reads after an append.
  pub get_messages-append_lem :
      (id : Text) (msgs : List M) (now : ℕ) (fails_at : Option ℕ) (w : Write) (s : FileStore M)
      → get_messages size id (append id msgs now true fails_at w s).1
        ≡ ok (scan size (log_of id s ++ map message (written_part msgs fails_at)))
  unfolding get_messages
  get_messages-append_lem id msgs now fails_at w s =
      rw (get_messages, append-log id msgs now fails_at w s) refl

  All-take : (i : ℕ) (msgs : List M) → All Fits msgs → All Fits (take i msgs)
  All-take zero msgs h = tt
  All-take (suc i) [] h = tt
  All-take (suc i) (m ∷ msgs) h = (h.0, All-take i msgs h.1)

  All-written_part :
      (msgs : List M) (fails_at : Option ℕ) → All Fits msgs → All Fits (written_part msgs fails_at)
  All-written_part msgs none h = h
  All-written_part msgs (some i) h = All-take i msgs h

  pub log_of-read :
      (id : Text) (s : FileStore M) (r : List M × Bool)
      → get_messages size id s ≡ ok r
      → scan size (log_of id s) ≡ r
  unfolding get_messages
  log_of-read id s r h = elim (Option-cases (load id s.logs)) [
    | inl e ↦ absurd (ground arith)
    | inr (l, e) ↦ ground arith
  ]

  -- Where a session reads without an error, messages that fit are read back behind the old ones
  -- in their order; a write that fails at one of them loses it and those behind it.
  pub get_messages-append :
      (id : Text) (msgs : List M) (now : ℕ) (fails_at : Option ℕ) (w : Write) (s : FileStore M)
      (old : List M)
      → All Fits msgs
      → get_messages size id s ≡ ok (old, false)
      → get_messages size id (append id msgs now true fails_at w s).1
        ≡ ok (old ++ written_part msgs fails_at, false)
  get_messages-append id msgs now fails_at w s old fits h =
      let part = written_part msgs fails_at in
      let before = log_of-read id s (old, false) h in
      rw
        (
          get_messages-append_lem id msgs now fails_at w s,
          scan-append_whole (log_of id s) (map message part) (ap (λ r. r.1) before),
          scan-map part (All-written_part msgs fails_at fits),
          before,
        )
        refl
