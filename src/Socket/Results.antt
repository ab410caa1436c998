-- ===== src/Socket/Results.antt =====
-- The server's client.go: SendSync returns only what the worker answered to its own request.
use code_runner_backend.Prelude.{
  ℕ, ◌<◌, ◌≡◌, Bool, true, false, List, [], ◌∷◌, some, ◌&&◌, ◌||◌, arith, inl, inr, Option-cases,
}
use code_runner_backend.Prelude.Text.{Text, same, same_iff}
use code_runner_backend.Prelude.TextMap.{load, store, load-store, load-delete, load-empty}
use code_runner_backend.Socket.{
  Frame, unreadable, message, Socket, new_socket, route_result, read_frame, send, begin_sync,
  receive, leave, close, Act, reads, sends, begins, receives, leaves, closes, act, run,
}

-- Is the result for this request with this payload in a list?
abbrev pub is_in : Text → Text → List (Text × Text) → Bool
is_in id p [] = false
is_in id p ((i, q) ∷ l) = (same i id && same q p) || is_in id p l

-- Channels stand for the requests that they were made for, and hold answers to these.
abbrev pub IsRouted : Socket → Type 0
IsRouted s =
    ((id : Text) (ch : ℕ) → load id s.pending ≡ some ch → (s.made_for ch ≡ id) × (ch < s.made))
    × ((ch : ℕ) (p : Text) → s.buffers ch ≡ some p → is_in (s.made_for ch) p s.heard ≡ true)
    × ((ch : ℕ) (p : Text)
        → s.blocked ≡ some (ch, p)
        → (is_in (s.made_for ch) p s.heard ≡ true) × (ch < s.made))
    × ((id p : Text) → is_in id p s.returned ≡ true → is_in id p s.heard ≡ true)

pub new_socket-IsRouted : (h : Bool) → IsRouted (new_socket h)
unfolding new_socket
new_socket-IsRouted h = (
  λ id ch e. absurd (ground (arith, load-empty {V = ℕ} id)),
  λ ch p e. absurd (cc),
  λ ch p e. absurd (cc),
  λ id p e. absurd (cc),
)

route_result-IsRouted : (id p : Text) (s : Socket) → IsRouted s → IsRouted (route_result id p s)
unfolding route_result
route_result-IsRouted id p s v = (
  λ i ch e. ground (arith, v.0 i ch),
  λ ch q e. ground (arith, v.0 id ch, v.1 ch q, same_iff id id, same_iff p q),
  λ ch q e. ground (arith, v.0 id ch, v.2 ch q, same_iff id id, same_iff p q),
  λ i q e. ground (arith, v.3 i q),
)

begin_sync-IsRouted :
    (id p : Text) (writes : Bool) (s : Socket) → IsRouted s → IsRouted (begin_sync id p writes s).1
unfolding begin_sync
begin_sync-IsRouted id p writes s v = (
  λ i ch e. ground (
    arith,
    v.0 i ch,
    same_iff id i,
    load-store id i s.made s.pending,
    load-delete id i (store id s.made s.pending),
  ),
  λ ch q e. ground (arith, v.1 ch q),
  λ ch q e. ground (arith, v.2 ch q),
  λ i q e. ground (arith, v.3 i q),
)

receive-IsRouted : (ch : ℕ) (s : Socket) → IsRouted s → IsRouted (receive ch s).1
unfolding receive
receive-IsRouted ch s v = (
  λ i c e. ground (arith, v.0 i c),
  λ c q e. ground (arith, v.1 c q, v.2 c q),
  λ c q e. ground (arith, v.2 c q),
  λ i q e. elim (Option-cases (s.buffers ch)) [
    | inl f ↦ ground (arith, v.3 i q)
    | inr (x, f) ↦ ground (arith, v.3 i q, v.1 ch x f, same_iff (s.made_for ch) i, same_iff x q)
  ],
)

leave-IsRouted : (ch : ℕ) (s : Socket) → IsRouted s → IsRouted (leave ch s)
unfolding leave
leave-IsRouted ch s v =
    (λ i c e. ground (arith, v.0 i c, load-delete (s.made_for ch) i s.pending), v.1, v.2, v.3)

read_frame-IsRouted : (f : Frame) (s : Socket) → IsRouted s → IsRouted (read_frame f s).1
unfolding read_frame
read_frame-IsRouted (unreadable text) s v = v
read_frame-IsRouted (message m) s v =
    ground (arith, v, route_result-IsRouted m.request_id m.payload s v)

pub act-IsRouted : (a : Act) (s : Socket) → IsRouted s → IsRouted (act a s)
unfolding act send close
act-IsRouted (reads f) s v = ground (arith, v, read_frame-IsRouted f s v)
act-IsRouted (sends id p writes) s v = ground (arith, v)
act-IsRouted (begins id p writes) s v = begin_sync-IsRouted id p writes s v
act-IsRouted (receives ch) s v = receive-IsRouted ch s v
act-IsRouted (leaves ch) s v = leave-IsRouted ch s v
act-IsRouted (closes fails) s v = ground (arith, v)

run-IsRouted : (acts : List Act) (s : Socket) → IsRouted s → IsRouted (run acts s)
unfolding run
run-IsRouted [] s v = v
run-IsRouted (a ∷ rest) s v = run-IsRouted rest (act a s) (act-IsRouted a s v)

-- After any acts on a new connection, whatever SendSync returned for a request is the payload of a
-- result that came in with the id of that request.
pub run-returns_own :
    (acts : List Act) (h : Bool) (id p : Text)
    → let s = run acts (new_socket h) in is_in id p s.returned ≡ true → is_in id p s.heard ≡ true
run-returns_own acts h id p = (run-IsRouted acts (new_socket h) (new_socket-IsRouted h)).3 id p
