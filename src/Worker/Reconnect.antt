-- ===== src/Worker/Reconnect.antt =====
-- client.go: a reconnect ends.
use code_runner_backend.Prelude.{
  ℕ, ◌≡◌, ◌≢◌, Bool, true, false, List, [], ◌∷◌, Option, none, some, if◌then◌else◌, not, ◌&&◌, ◌||◌,
  arith, inl, inr, Option-cases, Bool-cases, ◌⊎◌,
}
use code_runner_backend.Worker.Link.{
  Link, Attempt, LinkError, client_closed, stop_heartbeat, drop_connection, close_link, connect,
  attempt_all, reconnect,
}

abbrev is_some : Option ℕ → Bool
is_some none = false
is_some (some _) = true

-- A round after which no other is needed: Close came before it, or the dialer made a connection and
-- Close did not come in the meantime.
abbrev pub settles : Attempt → Bool
settles a = a.closes_first || (is_some a.dialled && not a.closes_meanwhile)

abbrev pub any_settles : List Attempt → Bool
any_settles [] = false
any_settles (a ∷ rest) = settles a || any_settles rest

close_link-closed : (s : Link) → (close_link s).closed ≡ true
unfolding close_link drop_connection stop_heartbeat
close_link-closed s = ground arith

-- The reconnect is over: the worker is closed, or it has a connection.
abbrev pub IsSettled : Option (Option LinkError) × Link → Type 0
IsSettled (r, s) =
    ((r ≡ some (some client_closed)) × (s.closed ≡ true)) ⊎ ((r ≡ some none) × (s.conn ≢ none))

connect_works :
    (c : ℕ) (s : Link)
    → s.closed ≡ false
    → ((connect (some c) s).0 ≡ none) × ((connect (some c) s).1.conn ≡ some c)
unfolding connect stop_heartbeat
connect_works c s h = ground arith

pub connect-conn : (d : Option ℕ) (s : Link) → (connect d s).0 ≡ none → (connect d s).1.conn ≢ none
unfolding connect stop_heartbeat
connect-conn none s h k = cc
connect-conn (some c) s h k = ground arith

-- A round that is not over does not settle.
unsettled :
    (a : Attempt) (s : Link) (x : LinkError)
    → (if a.closes_first then close_link s else s).closed ≡ false
    → (connect a.dialled (
        if a.closes_meanwhile
        then close_link (if a.closes_first then close_link s else s)
        else (if a.closes_first then close_link s else s))).0
      ≡ some x
    → settles a ≡ false
unfolding connect
unsettled a s x e f = elim (Bool-cases a.closes_first) [
  | inl c ↦ ground (arith, close_link-closed s)
  | inr c ↦ elim (Option-cases a.dialled) [
    | inl d ↦ ground arith
    | inr (k, d) ↦ elim (Bool-cases a.closes_meanwhile) [
      | inl m ↦ ground arith
      | inr m ↦ ground (arith, connect_works k s)
    ]
  ]
]

attempt_all-IsSettled :
    (attempts : List Attempt) (s : Link)
    → any_settles attempts ≡ true
    → IsSettled (attempt_all attempts s)
unfolding attempt_all
attempt_all-IsSettled [] s h = absurd (cc)
attempt_all-IsSettled (a ∷ rest) s h =
    let t : Link = if a.closes_first then close_link s else s in
    let t' : Link = if a.closes_meanwhile then close_link t else t in
    let u = connect a.dialled t' in
    elim (Bool-cases t.closed) [
      | inl e ↦ ground arith
      | inr e ↦ elim (Option-cases u.0) [
        | inl f ↦ ground (arith, connect-conn a.dialled t' f)
        | inr (x, f) ↦
            ground (arith, attempt_all-IsSettled rest u.1 (ground (arith, unsettled a s x e f)))
      ]
    ]

-- Among the rounds of a reconnect is one that the worker enters closed, or whose dial works with no
-- Close in the meantime: then the reconnect is over with these rounds, and its worker is closed, with
-- the error that says so, or has a connection.
pub reconnect-IsSettled :
    (attempts : List Attempt) (s : Link)
    → any_settles attempts ≡ true
    → IsSettled (reconnect attempts s)
unfolding reconnect
reconnect-IsSettled attempts s h =
    ground (arith, attempt_all-IsSettled attempts (drop_connection (stop_heartbeat s)) h)
