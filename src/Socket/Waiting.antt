-- ===== src/Socket/Waiting.antt =====
-- The server's client.go: when the reader waits for a caller of SendSync.
use code_runner_backend.Prelude.{
  ℕ, ◌≡◌, refl, ◌∙◌, Bool, true, false, not, List, [], ◌∷◌, none, some, ◌==◌, ◌&&◌, ◌||◌, arith,
  inl, inr, Option-cases, Bool-cases,
}
use code_runner_backend.Prelude.Text.{Text, codes, same, same_iff}
use code_runner_backend.Prelude.TextMap.{load, store, load-store, load-delete}
use code_runner_backend.Socket.{
  Frame, unreadable, message, Socket, new_socket, route_result, read_frame, send, begin_sync,
  receive, leave, close, Act, reads, sends, begins, receives, leaves, closes, act, run,
}
use code_runner_backend.Socket.Results.{IsRouted, new_socket-IsRouted, act-IsRouted}

-- Has a result for this request come in?
abbrev pub is_answered : Text → List (Text × Text) → Bool
is_answered id [] = false
is_answered id ((i, q) ∷ l) = same i id || is_answered id l

-- Is the frame a result for a request that had none?
abbrev pub is_first : Frame → List (Text × Text) → Bool
is_first (unreadable text) heard = true
is_first (message m) heard =
    same m.type (codes "ack")
    || not (same m.type (codes "result"))
    || not (is_answered m.request_id heard)

-- The worker answers no request twice.
abbrev pub answers_once : List Act → Socket → Bool
answers_once [] s = true
answers_once (reads f ∷ rest) s = is_first f s.heard && answers_once rest (act (reads f) s)
answers_once (a ∷ rest) s = answers_once rest (act a s)

-- The reader does not wait, and the channel of a request without an answer is empty.
abbrev IsOpen : Socket → Type 0
IsOpen s =
    (s.blocked ≡ none)
    × ((id : Text) (ch : ℕ)
        → load id s.pending ≡ some ch
        → is_answered id s.heard ≡ false
        → s.buffers ch ≡ none)

route_result-IsOpen :
    (id p : Text) (s : Socket)
    → IsRouted s
    → IsOpen s
    → is_answered id s.heard ≡ false
    → IsOpen (route_result id p s)
unfolding route_result
route_result-IsOpen id p s r v h = elim (Option-cases (load id s.pending)) [
  | inl e ↦ (ground (arith, v.0), λ i c f g. ground (arith, v.1 i c))
  | inr (ch, e) ↦ (
    ground (arith, v.0, v.1 id ch e),
    λ i c f g. ground (arith, v.1 i c, v.1 id ch e, r.0 id ch e, r.0 i c, same_iff id i),
  )
]

act-IsOpen :
    (a : Act) (s : Socket)
    → IsRouted s
    → IsOpen s
    → answers_once (a ∷ []) s ≡ true
    → IsOpen (act a s)
unfolding act read_frame send begin_sync receive leave close
act-IsOpen (reads (unreadable text)) s r v h = ground (arith, v)
act-IsOpen (reads (message m)) s r v h = elim (Bool-cases (same m.type (codes "ack"))) [
  | inl e ↦ ground (arith, v)
  | inr e ↦ elim (Bool-cases (same m.type (codes "result"))) [
    | inl f ↦ ground (arith, v.0, route_result-IsOpen m.request_id m.payload s r v (ground arith))
    | inr f ↦ ground (arith, v)
  ]
]
act-IsOpen (sends id p writes) s r v h = ground (arith, v)
act-IsOpen (begins id p writes) s r v h = (
  ground (arith, v.0),
  λ i c f g. ground (
    arith,
    v.1 i c,
    r.0 i c,
    same_iff id i,
    load-store id i s.made s.pending,
    load-delete id i (store id s.made s.pending),
  ),
)
act-IsOpen (receives ch) s r v h = (ground (arith, v.0), λ i c f g. ground (arith, v.0, v.1 i c))
act-IsOpen (leaves ch) s r v h =
    (v.0, λ i c f g. ground (arith, v.1 i c, load-delete (s.made_for ch) i s.pending))
act-IsOpen (closes fails) s r v h = ground (arith, v)

answers_once-parts :
    (a : Act) (rest : List Act) (s : Socket)
    → answers_once (a ∷ rest) s ≡ true
    → (answers_once (a ∷ []) s ≡ true) × (answers_once rest (act a s) ≡ true)
answers_once-parts (reads f) rest s h = ground (arith, h)
answers_once-parts (sends id p writes) rest s h = (refl, h)
answers_once-parts (begins id p writes) rest s h = (refl, h)
answers_once-parts (receives ch) rest s h = (refl, h)
answers_once-parts (leaves ch) rest s h = (refl, h)
answers_once-parts (closes fails) rest s h = (refl, h)

run-IsOpen :
    (acts : List Act) (s : Socket)
    → IsRouted s
    → IsOpen s
    → answers_once acts s ≡ true
    → IsOpen (run acts s)
unfolding run
run-IsOpen [] s r v h = v
run-IsOpen (a ∷ rest) s r v h =
    let (first, later) = answers_once-parts a rest s h in
    run-IsOpen rest (act a s) (act-IsRouted a s r) (act-IsOpen a s r v first) later

-- As long as the worker answers no request twice, the reader of a new connection never waits for a
-- caller, whatever the callers do.
pub run-never_waits :
    (acts : List Act) (h : Bool)
    → answers_once acts (new_socket h) ≡ true
    → (run acts (new_socket h)).blocked ≡ none
unfolding new_socket
run-never_waits acts h once =
    (run-IsOpen acts (new_socket h) (new_socket-IsRouted h) (refl, λ id ch e f. refl) once).0

abbrev pub takes_from : ℕ → Act → Bool
takes_from ch (receives c) = c == ch
takes_from ch _ = false

abbrev pub any_takes_from : ℕ → List Act → Bool
any_takes_from ch [] = false
any_takes_from ch (a ∷ rest) = takes_from ch a || any_takes_from ch rest

-- A reader that waits for a caller who takes no more reads nothing any more: whatever else happens on
-- the connection, a Close too, it goes on waiting and no other result comes in.
pub run-waits_for_ever :
    (acts : List Act) (s : Socket) (ch : ℕ) (p : Text)
    → s.blocked ≡ some (ch, p)
    → any_takes_from ch acts ≡ false
    → ((run acts s).blocked ≡ some (ch, p)) × ((run acts s).heard ≡ s.heard)
unfolding run act send begin_sync receive leave close
run-waits_for_ever [] s ch p e h = (e, refl)
run-waits_for_ever (a ∷ rest) s ch p e h =
    let (f, g) = keeps a (ground arith) in
    let (f', g') = run-waits_for_ever rest (act a s) ch p f (ground arith) in (f', g' ∙ g)
  where
    keeps :
        (a : Act)
        → takes_from ch a ≡ false
        → ((act a s).blocked ≡ some (ch, p)) × ((act a s).heard ≡ s.heard)
    keeps (reads f) k = ground (arith, e)
    keeps (sends id q writes) k = ground (arith, e)
    keeps (begins id q writes) k = ground (arith, e)
    keeps (receives c) k = ground (arith, e)
    keeps (leaves c) k = ground (arith, e)
    keeps (closes fails) k = ground (arith, e)
