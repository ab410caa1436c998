-- ===== src/Manager/Pending.antt =====
-- clientManager.go: the requests in flight.
use mathlib.Core.List.{Mem}
use code_runner_backend.Prelude.{◌≡◌, inl, inr, none, some, arith, if◌then◌else◌, Option-cases}
use code_runner_backend.Prelude.Text.{Text, same, same_iff, same_refl}
use code_runner_backend.Prelude.TextMap.{
  TextMap, load, store, delete, load-store, load-delete, load-values,
}
use code_runner_backend.Api.{ExecuteRequest}
use code_runner_backend.Balancer.{LoadBalancer}
use code_runner_backend.Manager.{
  Manager, track_request, acknowledge_request, drain_pending, outstanding,
}

module _ (b : LoadBalancer) where
  open b use {State}

  -- Tracking records the request for its client, and touches no other entry.
  pub outstanding-track_request :
      (id : Text) (req : ExecuteRequest) (s : Manager State) (reqs : TextMap ExecuteRequest)
      (j r : Text)
      → load id s.pending ≡ some reqs
      → outstanding b j r (track_request b id req s) ≡ (
          if same id j
          then (if same req.id r then some req else outstanding b j r s)
          else outstanding b j r s)
  unfolding outstanding track_request
  outstanding-track_request id req s reqs j r e = ground (
    arith,
    same_iff id j,
    load-store id j (store req.id req reqs) s.pending,
    load-store req.id r req reqs,
  )

  -- An acknowledgement takes exactly that request of that client away.
  pub outstanding-acknowledge_request :
      (id rid : Text) (s : Manager State) (j r : Text)
      → outstanding b j r (acknowledge_request b id rid s) ≡ (
          if same id j
          then (if same rid r then none else outstanding b j r s)
          else outstanding b j r s)
  unfolding outstanding acknowledge_request
  outstanding-acknowledge_request id rid s j r = elim (Option-cases (load id s.pending)) [
    | inl e ↦ ground (arith, same_iff id j)
    | inr (reqs, e) ↦
        ground (
          arith,
          same_iff id j,
          load-store id j (delete rid reqs) s.pending,
          load-delete rid r reqs,
        )
  ]

  -- Draining hands out every request that the client has not acknowledged.
  pub drain_pending-mem :
      (id r : Text) (s : Manager State) (req : ExecuteRequest)
      → outstanding b id r s ≡ some req
      → Mem req (drain_pending b id s).0
  unfolding outstanding drain_pending
  drain_pending-mem id r s req h = elim (Option-cases (load id s.pending)) [
    | inl e ↦ absurd (ground arith)
    | inr (reqs, e) ↦ rw (e, drain_pending) (load-values r reqs req (ground arith))
  ]

  -- Afterwards that client has none, and the others have theirs.
  pub outstanding-drain_pending :
      (id : Text) (s : Manager State) (j r : Text)
      → outstanding b j r (drain_pending b id s).1
        ≡ (if same id j then none else outstanding b j r s)
  unfolding outstanding drain_pending
  outstanding-drain_pending id s j r = elim (Option-cases (load id s.pending)) [
    | inl e ↦ ground (arith, same_iff id j)
    | inr (reqs, e) ↦ ground (arith, load-delete id j s.pending)
  ]

  acknowledged_entry :
      (id rid : Text) (s : Manager State) (reqs : TextMap ExecuteRequest)
      → load id s.pending ≡ some reqs
      → load id (acknowledge_request b id rid s).pending ≡ some (delete rid reqs)
  unfolding acknowledge_request
  acknowledged_entry id rid s reqs e =
      ground (arith, same_refl id, load-store id id (delete rid reqs) s.pending)

  -- An acknowledgement that comes before its request is recorded is forgotten: the request stays
  -- outstanding, and a later disconnect hands it out once more.
  pub track_after_acknowledge :
      (id : Text) (req : ExecuteRequest) (s : Manager State) (reqs : TextMap ExecuteRequest)
      → load id s.pending ≡ some reqs
      → let late = track_request b id req (acknowledge_request b id req.id s) in
        let timely = acknowledge_request b id req.id (track_request b id req s) in
        (outstanding b id req.id timely ≡ none)
        × (outstanding b id req.id late ≡ some req)
        × Mem req (drain_pending b id late).0
  track_after_acknowledge id req s reqs e =
      let early = acknowledge_request b id req.id s in
      let entry = acknowledged_entry id req.id s reqs e in
      let late = outstanding-track_request id req early (delete req.id reqs) id req.id entry in
      let kept : outstanding b id req.id (track_request b id req early) ≡ some req =
        ground (arith, late, same_refl id, same_refl req.id) in
      let gone = outstanding-acknowledge_request id req.id (track_request b id req s) id req.id in
      (
        ground (arith, gone, same_refl id, same_refl req.id),
        kept,
        drain_pending-mem id req.id (track_request b id req early) req kept,
      )
