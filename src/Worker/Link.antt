-- ===== src/Worker/Link.antt =====
-- internal/infrastructure/websocket/client/client.go: the connection to the server. A connection and
-- its heartbeat are a number; an operation under lifecycleMu is one step, and Close can come into
-- each attempt of a reconnect.
use code_runner_backend.Prelude.{
  ℕ, zero, suc, ◌*◌, ◌≡◌, Bool, true, false, List, [], ◌∷◌, Option, none, some, if◌then◌else◌, ltb,
  keep, not, ◌==◌, ◌⊎◌,
}

-- `connections`: the ones that are open; `beating`: those whose heartbeat runs.
pub record Link : Type 0 where
  pub conn : Option ℕ
  pub stop : Option ℕ
  pub closed : Bool
  pub connections : List ℕ
  pub beating : List ℕ

abbrev pub new_link : Link
new_link = record { conn = none; stop = none; closed = false; connections = []; beating = [] }

abbrev drop_one : ℕ → List ℕ → List ℕ
drop_one c cs = keep (λ d. not (d == c)) cs

-- `close(i.currentStopCh); i.currentStopCh = nil`, if there is one.
unfoldable pub stop_heartbeat : Link → Link
stop_heartbeat s = elim s.stop [
  | none ↦ s
  | some c ↦ record s { stop = none; beating = drop_one c s.beating }
]

-- `i.conn.Close(); i.conn = nil`, if there is one.
unfoldable pub drop_connection : Link → Link
drop_connection s = elim s.conn [
  | none ↦ s
  | some c ↦ record s { conn = none; connections = drop_one c s.connections }
]

unfoldable pub close_link : Link → Link
unfolding stop_heartbeat drop_connection
close_link s = if s.closed then s else drop_connection (stop_heartbeat (record s { closed = true }))

pub data LinkError : Type 0 where
  client_closed dial_failed : LinkError

-- `dialled`: the connection that the dialer made, if it did.
unfoldable pub connect : Option ℕ → Link → Option LinkError × Link
unfolding stop_heartbeat
connect none s = (some dial_failed, s)
connect (some c) s =
    if s.closed
    then (some client_closed, s)
    else let t = stop_heartbeat s in
      (
        none,
        record t {
          stop = some c;
          conn = some c;
          connections = c ∷ t.connections;
          beating = c ∷ t.beating;
        },
      )

-- A ping on the connection fails: its heartbeat ends by itself.
unfoldable pub heartbeat_fails : ℕ → Link → Link
heartbeat_fails c s = record s { beating = drop_one c s.beating }

-- A round of the loop of reconnect: whether Close comes before its check or while the dialer is
-- at work, and what the dialer does.
pub record Attempt : Type 0 where
  pub closes_first : Bool
  pub closes_meanwhile : Bool
  pub dialled : Option ℕ

-- The rounds; `none` for the result: more rounds are needed.
unfoldable pub attempt_all : List Attempt → Link → Option (Option LinkError) × Link
attempt_all [] s = (none, s)
attempt_all (a ∷ rest) s =
    let t = if a.closes_first then close_link s else s in
    elim t.closed [
      | true ↦ (some (some client_closed), t)
      | false ↦
          let (failure, u) = connect a.dialled (if a.closes_meanwhile then close_link t else t) in
          elim failure [ none ↦ (some none, u) | some _ ↦ attempt_all rest u ]
    ]

unfoldable pub reconnect : List Attempt → Link → Option (Option LinkError) × Link
unfolding stop_heartbeat drop_connection attempt_all
reconnect attempts s =
    if s.closed
    then (some (some client_closed), s)
    else attempt_all attempts (drop_connection (stop_heartbeat s))

-- The pauses between the rounds, in seconds.
unfoldable pub next_backoff : ℕ → ℕ
next_backoff b = if ltb b 30 then (if ltb 30 (b * 2) then 30 else b * 2) else b

unfoldable pub backoff : ℕ → ℕ
unfolding next_backoff
backoff zero = 3
backoff (suc n) = next_backoff (backoff n)

-- Exactly the connection in use is open; it has a heartbeat, and no other has one, unless a ping has
-- failed, when there may be no heartbeat; and after Close there is no connection.
abbrev pub of_option : Option ℕ → List ℕ
of_option none = []
of_option (some c) = c ∷ []

abbrev pub IsTidy : Bool → Link → Type 0
IsTidy ping_failed s =
    (s.connections ≡ of_option s.conn)
    × ((s.beating ≡ of_option s.conn) ⊎ ((s.beating ≡ []) × (ping_failed ≡ true)))
    × (s.stop ≡ s.conn)
    × (s.closed ≡ true → s.conn ≡ none)

-- What the worker does with its connection after the first dial: reconnects, closings, and pings that fail.
pub data Use : Type 0 where
  reconnects : List Attempt → Use
  closes_link : Use
  ping_fails : ℕ → Use

unfoldable pub use_link : Use → Link → Link
unfolding heartbeat_fails
use_link (reconnects attempts) s = (reconnect attempts s).1
use_link closes_link s = close_link s
use_link (ping_fails c) s = heartbeat_fails c s

abbrev pub any_ping_fails : List Use → Bool
any_ping_fails [] = false
any_ping_fails (ping_fails c ∷ us) = true
any_ping_fails (_ ∷ us) = any_ping_fails us

unfoldable pub use_all_links : List Use → Link → Link
use_all_links [] s = s
use_all_links (u ∷ us) s = use_all_links us (use_link u s)
