-- ===== src/Socket.antt =====
-- internal/infrastructure/websocket/server/client.go: the server's end of the connection to a worker.
-- The reader and the callers of SendSync run beside each other: an act is what one of them does between
-- two points where it can wait. A channel of SendSync is a number.
pub mod Results
pub mod Waiting
mod Examples
use code_runner_backend.Prelude.{
  ℕ, suc, Bool, true, false, not, List, [], ◌∷◌, Option, none, some, if◌then◌else◌, ◌==◌, ◌&&◌,
  ◌||◌, Result, ok, err,
}
use code_runner_backend.Prelude.Text.{Text, codes, same}
use code_runner_backend.Prelude.TextMap.{TextMap, empty, load, store, delete}

pub record WsMessage : Type 0 where
  pub type : Text
  pub request_id : Text
  pub payload : Text

-- What ReadMessage gives: data that is no WsMessage, or one.
pub data Frame : Type 0 where
  unreadable : Text → Frame
  message : WsMessage → Frame

-- `buffers`: what is in the channel, which has room for one. `made_for`: the request that SendSync made
-- the channel for. `blocked`: the channel that the reader waits to send to, and the result. `acked`: the
-- calls of the handler; `sent`: what was written; `heard`: the results that were read, the last one
-- first; `returned`: what SendSync returned.
pub record Socket : Type 0 where
  pub is_closed : Bool
  pub has_handler : Bool
  pub pending : TextMap ℕ
  pub made : ℕ
  pub made_for : ℕ → Text
  pub buffers : ℕ → Option Text
  pub blocked : Option (ℕ × Text)
  pub acked : List Text
  pub sent : List WsMessage
  pub heard : List (Text × Text)
  pub returned : List (Text × Text)

unfoldable pub new_socket : Bool → Socket
new_socket has_handler = record {
  is_closed = false;
  has_handler = has_handler;
  pending = empty;
  made = 0;
  made_for = λ ch. [];
  buffers = λ ch. none;
  blocked = none;
  acked = [];
  sent = [];
  heard = [];
  returned = [];
}

-- A function, changed at one number.
abbrev pub update : {A : Type 0} → ℕ → A → (ℕ → A) → ℕ → A
update n v f i = if n == i then v else f i

-- A result goes to the channel of its request, if there is one; if that is full, the reader waits.
unfoldable pub route_result : Text → Text → Socket → Socket
route_result id p s =
    let t = record s { heard = (id, p) ∷ s.heard } in
    elim (load id s.pending) [
      | none ↦ t
      | some ch ↦ elim (s.buffers ch) [
        | none ↦ record t { buffers = update ch (some p) s.buffers }
        | some _ ↦ record t { blocked = some (ch, p) }
      ]
    ]

-- The body of the loop of Read: what Read returns, or none to go on.
unfoldable pub read_frame : Frame → Socket → Option Text × Socket
unfolding route_result
read_frame (unreadable text) s = (some text, s)
read_frame (message m) s =
    if same m.type (codes "ack")
    then (none, if s.has_handler then record s { acked = m.request_id ∷ s.acked } else s)
    else if same m.type (codes "result")
    then (none, route_result m.request_id m.payload s)
    else (some m.payload, s)

pub data SocketError : Type 0 where
  read_failed write_failed timed_out : SocketError

-- Read over the frames that come, `none` for an error; without a result it still waits, for a frame or
-- for a channel.
unfoldable pub read : List (Option Frame) → Socket → Option (Result SocketError Text) × Socket
unfolding read_frame
read [] s = (none, s)
read (none ∷ frames) s = (some (err read_failed), s)
read (some f ∷ frames) s =
    let (out, t) = read_frame f s in
    elim out [
      | some text ↦ (some (ok text), t)
      | none ↦ elim t.blocked [ some _ ↦ (none, t) | none ↦ read frames t ]
    ]

-- `writes`: whether the write works.
unfoldable pub send : Text → Text → Bool → Socket → Option SocketError × Socket
send id p writes s =
    if writes
    then (
      none,
      record s { sent = record { type = codes "execute"; request_id = id; payload = p } ∷ s.sent },
    )
    else (some write_failed, s)

-- SendSync up to its select: the channel, and with a write that fails the end of it.
unfoldable pub begin_sync : Text → Text → Bool → Socket → Result SocketError ℕ × Socket
begin_sync id p writes s =
    let ch = s.made in
    let t = record s {
      pending = store id ch s.pending;
      made = suc ch;
      made_for = update ch id s.made_for;
      buffers = update ch none s.buffers;
    } in
    if writes
    then (
      ok ch,
      record t {
        sent = record { type = codes "execute_sync"; request_id = id; payload = p } ∷ s.sent;
      },
    )
    else (err write_failed, record t { pending = delete id t.pending })

-- The select of SendSync takes what is in the channel; then a reader that waits can send.
unfoldable pub receive : ℕ → Socket → Option Text × Socket
receive ch s = elim (s.buffers ch) [
  | none ↦ (none, s)
  | some p ↦
      let t = record s { returned = (s.made_for ch, p) ∷ s.returned } in
      elim s.blocked [
        | none ↦ (some p, record t { buffers = update ch none s.buffers })
        | some (waited, q) ↦
            if waited == ch
            then (some p, record t { buffers = update ch (some q) s.buffers; blocked = none })
            else (some p, record t { buffers = update ch none s.buffers })
      ]
]

-- The deferred Delete of SendSync.
unfoldable pub leave : ℕ → Socket → Socket
leave ch s = record s { pending = delete (s.made_for ch) s.pending }

-- SendSync from the end of its select on. `times_out`: whether the select takes the timeout; while the
-- channel is empty there is nothing else to take.
unfoldable pub end_sync : ℕ → Bool → Socket → Result SocketError Text × Socket
unfolding receive leave
end_sync ch times_out s =
    if times_out
    then (err timed_out, leave ch s)
    else let (out, t) = receive ch s in
      elim out [ none ↦ (err timed_out, leave ch t) | some p ↦ (ok p, leave ch t) ]

-- With what the connection's Close gives, once.
unfoldable pub close : Bool → Socket → Bool × Socket
close fails s = if s.is_closed then (true, s) else (not fails, record s { is_closed = true })

pub data Act : Type 0 where
  reads : Frame → Act
  sends : Text → Text → Bool → Act
  begins : Text → Text → Bool → Act
  receives : ℕ → Act
  leaves : ℕ → Act
  closes : Bool → Act

-- A reader that waits reads no frame.
unfoldable pub act : Act → Socket → Socket
unfolding read_frame send begin_sync receive leave close
act (reads f) s = elim s.blocked [ some _ ↦ s | none ↦ (read_frame f s).1 ]
act (sends id p writes) s = (send id p writes s).1
act (begins id p writes) s = (begin_sync id p writes s).1
act (receives ch) s = (receive ch s).1
act (leaves ch) s = leave ch s
act (closes fails) s = (close fails s).1

unfoldable pub run : List Act → Socket → Socket
unfolding act
run [] s = s
run (a ∷ rest) s = run rest (act a s)
