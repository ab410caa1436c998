-- ===== src/Dispatch/Disconnect.antt =====
-- service.go, Run: what a disconnect does to the worker and to its requests.
use code_runner_backend.Prelude.{
  ℕ, ◌+◌, ◌≡◌, ◌∙◌, inl, inr, true, false, List, [], ◌∷◌, none, arith, ok, if◌then◌else◌,
  Option-cases, Bool-cases,
}
use code_runner_backend.Prelude.Text.{Text, same, same_refl}
use code_runner_backend.Prelude.TextMap.{load, load-delete}
use code_runner_backend.Api.{ExecuteRequest}
use code_runner_backend.Balancer.{LoadBalancer}
use code_runner_backend.Manager.{
  Manager, get_client_by_balance, remove_client, done, drain_pending, track_request, outstanding,
}
use code_runner_backend.Manager.Registry.{IsCoherent, done-IsCoherent, remove_client-IsCoherent}
use code_runner_backend.Manager.Picking.{get_client_by_balance-IsCoherent}
use code_runner_backend.Manager.Pending.{outstanding-drain_pending}
use code_runner_backend.Dispatch.{SendWorld, execute, redispatch, disconnect}
use code_runner_backend.Dispatch.Tracking.{execute-cases, execute_untracked, outstanding-pending}

module _ (b : LoadBalancer) where
  open b use {State, Env}

  -- Coherence does not look at the requests in flight.
  IsCoherent-pending :
      (s t : Manager State)
      → t.clients ≡ s.clients
      → t.balancer ≡ s.balancer
      → IsCoherent b s
      → IsCoherent b t
  IsCoherent-pending s t c p v = record {
    sound = rw p v.sound;
    filed = λ j d h. v.filed j d (rw c at h);
    matched = λ j. rw (p, c) (v.matched j);
  }

  track_request-IsCoherent :
      (id : Text) (req : ExecuteRequest) (s : Manager State)
      → IsCoherent b s
      → IsCoherent b (track_request b id req s)
  unfolding track_request
  track_request-IsCoherent id req s v =
      IsCoherent-pending s (track_request b id req s) (ground arith) (ground arith) v

  drain_pending-IsCoherent :
      (id : Text) (s : Manager State) → IsCoherent b s → IsCoherent b (drain_pending b id s).1
  unfolding drain_pending
  drain_pending-IsCoherent id s v =
      IsCoherent-pending s (drain_pending b id s).1 (ground arith) (ground arith) v

  pub execute-IsCoherent :
      (w : SendWorld Env) (req : ExecuteRequest) (s : Manager State)
      → IsCoherent b s
      → IsCoherent b (execute b w req s).1
  execute-IsCoherent w req s v =
      let t = (get_client_by_balance b w.picks s).1 in
      let got = get_client_by_balance-IsCoherent b w.picks s v in
      elim (execute-cases b w req s) [
        | inl (e, q) ↦ rw q got
        | inr (c, e, q) ↦ elim (Bool-cases w.write_fails) [
          | inl bad ↦ rw q (rw bad (done-IsCoherent b c.id w.took true w.now t got))
          | inr good ↦ rw q (
              rw good (
                track_request-IsCoherent c.id req (done b c.id w.took false w.now t)
                  (done-IsCoherent b c.id w.took false w.now t got)))
        ]
      ]

  redispatch-IsCoherent :
      (ws : ℕ → SendWorld Env) (i : ℕ) (reqs : List ExecuteRequest) (s : Manager State)
      → IsCoherent b s
      → IsCoherent b (redispatch b ws i reqs s)
  unfolding redispatch
  redispatch-IsCoherent ws i [] s v = v
  redispatch-IsCoherent ws i (req ∷ rest) s v =
      redispatch-IsCoherent ws (i + 1) rest (execute b (ws i) req s).1
        (execute-IsCoherent (ws i) req s v)

  removed : (id : Text) (s : Manager State) → load id (remove_client b false id s).1.clients ≡ none
  unfolding remove_client
  removed id s = elim (Option-cases (load id s.clients)) [
    | inl e ↦ rw (e, remove_client) e
    | inr (c, e) ↦ ground (arith, load-delete id id s.clients, same_refl id)
  ]

  -- A disconnect whose close works takes the worker out of the table and out of the balancer, whatever
  -- the requests that are sent again do, and keeps the two in step.
  pub disconnect_removes :
      (ws : ℕ → SendWorld Env) (id : Text) (s : Manager State)
      → IsCoherent b s
      → let t = disconnect b ws false id s in
        IsCoherent b t × (load id t.clients ≡ none) × (b.has t.balancer id ≡ false)
  unfolding disconnect
  disconnect_removes ws id s v =
      let (reqs, t) = drain_pending b id s in
      let u = redispatch b ws 0 reqs t in
      let kept =
        remove_client-IsCoherent b false id u
          (redispatch-IsCoherent ws 0 reqs t (drain_pending-IsCoherent id s v)) in
      let gone = removed id u in (kept, gone, ground (arith, kept.matched id, gone))

  drained-entry : (id : Text) (s : Manager State) → load id (drain_pending b id s).1.pending ≡ none
  unfolding drain_pending
  drained-entry id s = ground (arith, load-delete id id s.pending, same_refl id)

  -- A drained request that is sent again, and accepted, by the very worker that has disconnected, is
  -- recorded nowhere: afterwards that worker has nothing outstanding and the others have what they
  -- had, so no later disconnect sends the request again.
  pub redispatch_to_self :
      (w : SendWorld Env) (req : ExecuteRequest) (s : Manager State) (id : Text)
      → (execute b w req (drain_pending b id s).1).0 ≡ ok id
      → (j r : Text)
      → outstanding b j r (execute b w req (drain_pending b id s).1).1
        ≡ (if same id j then none else outstanding b j r s)
  redispatch_to_self w req s id h j r =
      let t = (drain_pending b id s).1 in
      outstanding-pending b j r (execute b w req t).1 t
        (execute_untracked b w req t id h (drained-entry id s))
      ∙ outstanding-drain_pending b id s j r
