-- ===== src/Worker/Read.antt =====
-- client.go: Read of the worker, which answers its caller with a request and the server with an
-- acknowledgement, and makes a new connection where one is lost.
use code_runner_backend.Prelude.{
  ◌≡◌, ◌≢◌, ◌⊎◌, refl, Bool, true, false, ◌||◌, List, [], ◌∷◌, Option, none, some, if◌then◌else◌,
  arith, inl, inr, Option-cases, Bool-cases, Result, ok, err,
}
use code_runner_backend.Prelude.Text.{Text, codes, same}
use code_runner_backend.Api.{ExecuteRequest}
use code_runner_backend.Worker.Reconnect.{connect-conn}
use code_runner_backend.Worker.Link.{
  Link, Attempt, LinkError, client_closed, close_link, connect, attempt_all, reconnect,
  stop_heartbeat, drop_connection,
}

-- What ReadMessage gives in a round: an error, and the rounds of the reconnect that it leads to; data
-- that is no WsMessage; or a message with a type, an id and what its payload is as a request.
pub data Round : Type 0 where
  lost : List Attempt → Round
  unreadable : Round
  arrived : Text → Text → Option ExecuteRequest → Round

pub data ReadError : Type 0 where
  link_error : LinkError → ReadError
  no_message no_request : ReadError

pub record ReadResult : Type 0 where
  pub request : ExecuteRequest
  pub msg_type : Text

-- The acknowledgement of a message: of `execute` alone, and before its payload is looked at.
unfoldable pub acks_of : Text → Text → List Text
acks_of type id = if same type (codes "execute") then id ∷ [] else []

-- Read over the rounds that come: its result, if these are enough for one, the ids that were
-- acknowledged, and the connection.
unfoldable pub read : List Round → Link → Option (Result ReadError ReadResult) × List Text × Link
unfolding acks_of
read [] s = (none, [], s)
read (lost attempts ∷ rest) s =
    if s.closed then (some (err (link_error client_closed)), [], s) else elim s.conn [
      | none ↦ (some (err (link_error client_closed)), [], s)
      | some _ ↦
          let (result, t) = reconnect attempts s in
          elim result [
            | none ↦ (none, [], t)
            | some (some e) ↦ (some (err (link_error e)), [], t)
            | some none ↦ read rest t
          ]
    ]
read (unreadable ∷ rest) s =
    if s.closed then (some (err (link_error client_closed)), [], s) else elim s.conn [
      | none ↦ (some (err (link_error client_closed)), [], s)
      | some _ ↦ (some (err no_message), [], s)
    ]
read (arrived type id payload ∷ rest) s =
    if s.closed then (some (err (link_error client_closed)), [], s) else elim s.conn [
      | none ↦ (some (err (link_error client_closed)), [], s)
      | some _ ↦ elim payload [
        | none ↦ (some (err no_request), acks_of type id, s)
        | some r ↦ (some (ok (record { request = r; msg_type = type })), acks_of type id, s)
      ]
    ]

-- WebsocketSend, for data that can be marshalled.
unfoldable pub websocket_send : Bool → Link → Bool
websocket_send written s = elim s.conn [ none ↦ false | some _ ↦ written ]

abbrev pub is_malformed : Round → Bool
is_malformed (lost attempts) = false
is_malformed unreadable = true
is_malformed (arrived type id none) = true
is_malformed (arrived type id (some r)) = false

abbrev pub any_malformed : List Round → Bool
any_malformed [] = false
any_malformed (r ∷ rest) = is_malformed r || any_malformed rest

-- A reconnect that fails has found the worker closed.
attempt_all-closed :
    (attempts : List Attempt) (s : Link) (e : LinkError)
    → (attempt_all attempts s).0 ≡ some (some e)
    → (attempt_all attempts s).1.closed ≡ true
unfolding attempt_all
attempt_all-closed [] s e h = absurd (cc)
attempt_all-closed (a ∷ rest) s e h =
    let t : Link = if a.closes_first then close_link s else s in
    let t' : Link = if a.closes_meanwhile then close_link t else t in
    let u = connect a.dialled t' in
    elim (Bool-cases t.closed) [
      | inl k ↦ ground (arith, k)
      | inr k ↦ elim (Option-cases u.0) [
        | inl f ↦ absurd (ground (arith, h, k, f))
        | inr (x, f) ↦ ground (arith, h, k, f, attempt_all-closed rest u.1 e)
      ]
    ]

-- A reconnect that works has made a connection.
attempt_all-conn :
    (attempts : List Attempt) (s : Link)
    → (attempt_all attempts s).0 ≡ some none
    → (attempt_all attempts s).1.conn ≢ none
unfolding attempt_all
attempt_all-conn [] s h = absurd (cc)
attempt_all-conn (a ∷ rest) s h =
    let t : Link = if a.closes_first then close_link s else s in
    let t' : Link = if a.closes_meanwhile then close_link t else t in
    let u = connect a.dialled t' in
    elim (Bool-cases t.closed) [
      | inl k ↦ absurd (ground (arith, h, k))
      | inr k ↦ elim (Option-cases u.0) [
        | inl f ↦ ground (arith, k, f, connect-conn a.dialled t' f)
        | inr (x, f) ↦ ground (arith, h, k, f, attempt_all-conn rest u.1)
      ]
    ]

reconnect-closed :
    (attempts : List Attempt) (s : Link) (e : LinkError)
    → (reconnect attempts s).0 ≡ some (some e)
    → (reconnect attempts s).1.closed ≡ true
unfolding reconnect
reconnect-closed attempts s e h =
    ground (arith, h, attempt_all-closed attempts (drop_connection (stop_heartbeat s)) e)

reconnect-conn :
    (attempts : List Attempt) (s : Link)
    → (reconnect attempts s).0 ≡ some none
    → (reconnect attempts s).1.conn ≢ none
unfolding reconnect
reconnect-conn attempts s h =
    ground (arith, h, attempt_all-conn attempts (drop_connection (stop_heartbeat s)))

-- On a worker with a connection, Read fails only where the worker was closed or a message was
-- malformed: a connection that is lost is never the error.
pub read_fails :
    (rounds : List Round) (s : Link) (e : ReadError)
    → s.conn ≢ none
    → (read rounds s).0 ≡ some (err e)
    → ((read rounds s).2.closed ≡ true) ⊎ (any_malformed rounds ≡ true)
unfolding read
read_fails [] s e up h = absurd (cc)
read_fails (unreadable ∷ rest) s e up h = inr refl
read_fails (arrived type id none ∷ rest) s e up h = inr refl
read_fails (arrived type id (some r) ∷ rest) s e up h = ground (arith, up, h)
read_fails (lost attempts ∷ rest) s e up h = elim (Bool-cases s.closed) [
  | inl k ↦ inl (ground (arith, k))
  | inr k ↦ elim (Option-cases s.conn) [
    | inl c ↦ absurd (up c)
    | inr (c, f) ↦ elim (Option-cases (reconnect attempts s).0) [
      | inl g ↦ absurd (ground (arith, h, k, f, g))
      | inr (some x, g) ↦ inl (ground (arith, k, f, g, reconnect-closed attempts s x g))
      | inr (none, g) ↦
          let up' = reconnect-conn attempts s g in
          ground (arith, h, k, f, g, read_fails rest (reconnect attempts s).1 e up')
    ]
  ]
]

-- On the way to a request that Read returns, one id was acknowledged if its type is `execute`, and none
-- otherwise.
pub read-acks :
    (rounds : List Round) (s : Link) (r : ReadResult)
    → (read rounds s).0 ≡ some (ok r)
    → (id : Text) × ((read rounds s).1 ≡ acks_of r.msg_type id)
unfolding read
read-acks [] s r h = absurd (cc)
read-acks (unreadable ∷ rest) s r h = absurd (ground (arith, h))
read-acks (arrived type id none ∷ rest) s r h = absurd (ground (arith, h))
read-acks (arrived type id (some q) ∷ rest) s r h = (id, ground (arith, h))
read-acks (lost attempts ∷ rest) s r h = elim (Bool-cases s.closed) [
  | inl k ↦ absurd (ground (arith, h, k))
  | inr k ↦ elim (Option-cases s.conn) [
    | inl c ↦ absurd (ground (arith, h, k, c))
    | inr (c, f) ↦ elim (Option-cases (reconnect attempts s).0) [
      | inl g ↦ absurd (ground (arith, h, k, f, g))
      | inr (some x, g) ↦ absurd (ground (arith, h, k, f, g))
      | inr (none, g) ↦
          let (id, a) = read-acks rest (reconnect attempts s).1 r (ground (arith, h, k, f, g)) in
          (id, ground (arith, k, f, g, a))
    ]
  ]
]

-- A request comes over a connection that is still there.
pub read-conn :
    (rounds : List Round) (s : Link) (r : ReadResult)
    → (read rounds s).0 ≡ some (ok r)
    → (read rounds s).2.conn ≢ none
unfolding read
read-conn [] s r h = absurd (cc)
read-conn (unreadable ∷ rest) s r h = absurd (ground (arith, h))
read-conn (arrived type id none ∷ rest) s r h = absurd (ground (arith, h))
read-conn (arrived type id (some q) ∷ rest) s r h = ground (arith, h)
read-conn (lost attempts ∷ rest) s r h = elim (Bool-cases s.closed) [
  | inl k ↦ absurd (ground (arith, h, k))
  | inr k ↦ elim (Option-cases s.conn) [
    | inl c ↦ absurd (ground (arith, h, k, c))
    | inr (c, f) ↦ elim (Option-cases (reconnect attempts s).0) [
      | inl g ↦ absurd (ground (arith, h, k, f, g))
      | inr (some x, g) ↦ absurd (ground (arith, h, k, f, g))
      | inr (none, g) ↦
          let later = read-conn rest (reconnect attempts s).1 r (ground (arith, h, k, f, g)) in
          ground (arith, k, f, g, later)
    ]
  ]
]
