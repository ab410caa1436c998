-- ===== src/Worker/Tidy.antt =====
-- client.go: one connection at a time.
use code_runner_backend.Prelude.{
  ℕ, ◌≡◌, ◌≢◌, refl, Bool, true, false, List, [], ◌∷◌, Option, none, some, if◌then◌else◌, arith,
  inl, inr, Option-cases, Bool-cases,
}
use code_runner_backend.Worker.Link.{
  Link, new_link, Attempt, stop_heartbeat, drop_connection, close_link, connect, attempt_all,
  reconnect, IsTidy, Use, reconnects, closes_link, ping_fails, heartbeat_fails, any_ping_fails,
  use_link, use_all_links,
}

-- No connection is in use.
abbrev IsFree : Link → Type 0
IsFree s = (s.conn ≡ none) × (s.stop ≡ none) × (s.connections ≡ []) × (s.beating ≡ [])

close-IsFree : (s : Link) → IsFree s → IsFree (close_link s)
unfolding close_link drop_connection stop_heartbeat
close-IsFree s v = ground arith

module _ (b : Bool) where
  drop-IsFree : (s : Link) → IsTidy b s → IsFree (drop_connection (stop_heartbeat s))
  unfolding drop_connection stop_heartbeat
  drop-IsFree s v = elim (Option-cases s.conn) [ inl e ↦ ground arith | inr (c, e) ↦ ground arith ]

  free-IsTidy : (s : Link) → IsFree s → IsTidy b s
  free-IsTidy s v = ground arith

  connect-IsFree :
      (d : Option ℕ) (s : Link)
      → IsFree s
      → IsTidy b (connect d s).1 × ((connect d s).0 ≢ none → IsFree (connect d s).1)
  unfolding connect stop_heartbeat
  connect-IsFree none s v = (free-IsTidy s v, λ k. v)
  connect-IsFree (some c) s v = elim (Bool-cases s.closed) [
    | inl e ↦ (ground (arith, free-IsTidy s v), λ k. ground arith)
    | inr e ↦ (ground arith, λ k. absurd (k (ground arith)))
  ]

  attempt_all-IsTidy :
      (attempts : List Attempt) (s : Link) → IsFree s → IsTidy b (attempt_all attempts s).1
  unfolding attempt_all
  attempt_all-IsTidy [] s v = free-IsTidy s v
  attempt_all-IsTidy (a ∷ rest) s v =
      let t : Link = if a.closes_first then close_link s else s in
      let w : IsFree t = closing a.closes_first s v in
      let t' : Link = if a.closes_meanwhile then close_link t else t in
      let u = connect a.dialled t' in
      let dialled = connect-IsFree a.dialled t' (closing a.closes_meanwhile t w) in
      elim (Bool-cases t.closed) [
        | inl e ↦ ground (arith, free-IsTidy t w)
        | inr e ↦ elim (Option-cases u.0) [
          | inl f ↦ ground (arith, dialled.0)
          | inr (x, f) ↦
              ground (arith, attempt_all-IsTidy rest u.1 (dialled.1 (λ k. absurd (cc (f, k)))))
        ]
      ]
    where
      closing : (b : Bool) (r : Link) → IsFree r → IsFree (if b then close_link r else r)
      closing true r v = close-IsFree r v
      closing false r v = v

  close-IsTidy : (s : Link) → IsTidy b s → IsTidy b (close_link s)
  unfolding close_link
  close-IsTidy s v = elim (Bool-cases s.closed) [
    | inl e ↦ ground (arith, v)
    | inr e ↦ ground (arith, drop-IsFree (record s { closed = true }))
  ]

  heartbeat_fails-IsTidy :
      (c : ℕ) (s : Link) → b ≡ true → IsTidy b s → IsTidy b (heartbeat_fails c s)
  unfolding heartbeat_fails
  heartbeat_fails-IsTidy c s t v = elim (Option-cases s.conn) [
    | inl e ↦ ground arith
    | inr (d, e) ↦ ground arith
  ]

  use_link-IsTidy :
      (u : Use) (s : Link)
      → (any_ping_fails (u ∷ []) ≡ true → b ≡ true)
      → IsTidy b s
      → IsTidy b (use_link u s)
  unfolding use_link reconnect
  use_link-IsTidy closes_link s t v = close-IsTidy s v
  use_link-IsTidy (ping_fails c) s t v = heartbeat_fails-IsTidy c s (t refl) v
  use_link-IsTidy (reconnects attempts) s t v = elim (Bool-cases s.closed) [
    | inl e ↦ ground (arith, v)
    | inr e ↦
        let r = drop_connection (stop_heartbeat s) in
        ground (arith, attempt_all-IsTidy attempts r (drop-IsFree s v))
  ]

  use_all_links-IsTidy_from :
      (us : List Use) (s : Link)
      → (any_ping_fails us ≡ true → b ≡ true)
      → IsTidy b s
      → IsTidy b (use_all_links us s)
  unfolding use_all_links
  use_all_links-IsTidy_from [] s t v = v
  use_all_links-IsTidy_from (closes_link ∷ us) s t v =
      use_all_links-IsTidy_from us (use_link closes_link s) t
        (use_link-IsTidy closes_link s (λ e. absurd (cc e)) v)
  use_all_links-IsTidy_from (ping_fails c ∷ us) s t v =
      use_all_links-IsTidy_from us (use_link (ping_fails c) s) (λ _. t refl)
        (use_link-IsTidy (ping_fails c) s t v)
  use_all_links-IsTidy_from (reconnects attempts ∷ us) s t v =
      use_all_links-IsTidy_from us (use_link (reconnects attempts) s) t
        (use_link-IsTidy (reconnects attempts) s (λ e. absurd (cc e)) v)

-- After the first dial and any reconnects, closings and failing pings, the connection in use, if there
-- is one, is the only one that is open, and a closed worker has none. No other has a heartbeat, and
-- the connection in use has one, unless a ping has failed.
pub use_all_links-IsTidy :
    (d : Option ℕ) (us : List Use)
    → IsTidy (any_ping_fails us) (use_all_links us (connect d new_link).1)
use_all_links-IsTidy d us =
    use_all_links-IsTidy_from (any_ping_fails us) us (connect d new_link).1 (λ e. e)
      (connect-IsFree (any_ping_fails us) d new_link (refl, refl, refl, refl)).0
