-- ===== src/Dispatch/Tracking.antt =====
-- service.go, Execute and ExecuteSync: what each outcome leaves behind.
use code_runner_backend.Prelude.{
  ℕ, zero, suc, ◌+◌, ◌≡◌, refl, ap, ◌∙◌, inl, inr, ◌⊎◌, Bool, true, false, none, some, arith, ok,
  err, if◌then◌else◌, Option-cases, Bool-cases,
}
use code_runner_backend.Prelude.Text.{Text, same}
use code_runner_backend.Prelude.TextMap.{TextMap, load}
use code_runner_backend.Api.{ExecuteRequest}
use code_runner_backend.Balancer.{LoadBalancer}
use code_runner_backend.Manager.{
  Client, Manager, get_client_by_balance, pick_loop, remove_client, done, track_request,
  outstanding,
}
use code_runner_backend.Manager.Registry.{IsCoherent}
use code_runner_backend.Manager.Picking.{get_client_by_balance_live}
use code_runner_backend.Manager.Pending.{outstanding-track_request}
use code_runner_backend.Dispatch.{SendError, no_worker, write_failed, SendWorld, execute}

module _ (b : LoadBalancer) where
  open b use {State, Env}

  remove_client-pending :
      (close_fails : Bool) (id : Text) (s : Manager State)
      → (remove_client b close_fails id s).1.pending ≡ s.pending
  unfolding remove_client
  remove_client-pending close_fails id s = ground arith

  -- Choosing a worker does not touch the requests in flight.
  pick_loop-pending :
      (left i : ℕ) (envs : ℕ → Env) (s : Manager State)
      → (pick_loop b left i envs s).1.pending ≡ s.pending
  unfolding pick_loop
  pick_loop-pending zero i envs s = refl
  pick_loop-pending (suc left) i envs s =
      let balancer = (b.get (envs i) s.balancer).1 in
      let t : Manager State = record s { balancer = balancer } in
      elim (Option-cases (b.get (envs i) s.balancer).0) [
        | inl e ↦ rw (e, pick_loop) refl
        | inr (id, e) ↦ elim (Option-cases (load id s.clients)) [
          | inl f ↦
              rw (e, pick_loop)
                (rw f (
                  pick_loop-pending left (i + 1) envs
                    (record t { balancer = b.remove id balancer })))
          | inr (c, f) ↦ elim (Bool-cases c.is_closed) [
            | inl shut ↦
                rw (e, pick_loop)
                  (rw f (
                    rw shut (
                      pick_loop-pending left (i + 1) envs (remove_client b false c.id t).1
                      ∙ remove_client-pending false c.id t)))
            | inr up ↦ rw (e, pick_loop) (rw f (rw up refl))
          ]
        ]
      ]

  pub get_client_by_balance-pending :
      (envs : ℕ → Env) (s : Manager State) → (get_client_by_balance b envs s).1.pending ≡ s.pending
  unfolding get_client_by_balance
  get_client_by_balance-pending envs s = pick_loop-pending 3 0 envs s

  pub execute-cases :
      (w : SendWorld Env) (req : ExecuteRequest) (s : Manager State)
      → let t = (get_client_by_balance b w.picks s).1 in
        ((get_client_by_balance b w.picks s).0 ≡ none) × (execute b w req s ≡ (err no_worker, t))
        ⊎ ((c : Client) × ((get_client_by_balance b w.picks s).0 ≡ some c)
            × (execute b w req s ≡ (
                if w.write_fails
                then (err write_failed, done b c.id w.took true w.now t)
                else (ok c.id, track_request b c.id req (done b c.id w.took false w.now t)))))
  unfolding execute
  execute-cases w req s = elim (Option-cases (get_client_by_balance b w.picks s).0) [
    | inl e ↦ inl (e, rw (e, execute) refl)
    | inr (c, e) ↦ inr (c, e, ground arith)
  ]

  pub outstanding-pending :
      (j r : Text) (s t : Manager State)
      → s.pending ≡ t.pending
      → outstanding b j r s ≡ outstanding b j r t
  unfolding outstanding
  outstanding-pending j r s t e = rw (e, outstanding) refl

  track_request-clients :
      (id : Text) (req : ExecuteRequest) (s : Manager State)
      → (track_request b id req s).clients ≡ s.clients
  unfolding track_request
  track_request-clients id req s = ground arith

  -- A call that is accepted, opened up.
  accepted :
      (w : SendWorld Env) (req : ExecuteRequest) (s : Manager State) (id : Text)
      → (execute b w req s).0 ≡ ok id
      → let t = (get_client_by_balance b w.picks s).1 in
        (c : Client) × ((get_client_by_balance b w.picks s).0 ≡ some c)
        × (c.id ≡ id)
        × ((execute b w req s).1 ≡ track_request b id req (done b id w.took false w.now t))
  accepted w req s id h = elim (execute-cases w req s) [
    | inl (e, q) ↦ absurd (ground arith)
    | inr (c, e, q) ↦ elim (Bool-cases w.write_fails) [
      | inl bad ↦ absurd (ground arith)
      | inr good ↦
          let name : c.id ≡ id = ground arith in (c, e, name, rw q (rw good (rw name refl)))
    ]
  ]

  module _ (w : SendWorld Env) (req : ExecuteRequest) (s : Manager State) (id : Text)
      (h : (execute b w req s).0 ≡ ok id) where
    -- Execute accepts a request only for a worker that is registered and open.
    pub execute_live :
        IsCoherent b s
        → (c : Client) × (c.id ≡ id)
          × (load id (execute b w req s).1.clients ≡ some c)
          × (c.is_closed ≡ false)
    unfolding done
    execute_live v =
        let (c, e, name, q) = accepted w req s id h in
        let (f, up) = get_client_by_balance_live b w.picks s c v e in
        let t = done b id w.took false w.now (get_client_by_balance b w.picks s).1 in
        (c, name, rw q (rw (track_request-clients id req t) (rw (← name) f)), up)

    -- If that worker has an entry for its requests, the accepted request is outstanding for it, and
    -- nothing else that was in flight has changed.
    pub execute_tracks :
        (reqs : TextMap ExecuteRequest)
        → load id s.pending ≡ some reqs
        → (j r : Text)
        → outstanding b j r (execute b w req s).1 ≡ (
            if same id j
            then (if same req.id r then some req else outstanding b j r s)
            else outstanding b j r s)
    unfolding done
    execute_tracks reqs e j r =
        let (c, _, name, q) = accepted w req s id h in
        let t = done b id w.took false w.now (get_client_by_balance b w.picks s).1 in
        let p = get_client_by_balance-pending w.picks s in
        rw q (
          outstanding-track_request b id req t reqs j r (rw p e)
          ∙ ap (λ o. if same id j then (if same req.id r then some req else o) else o)
              (outstanding-pending j r t s p))

    -- If it has none, the accepted request is recorded nowhere: the requests in flight are as before.
    pub execute_untracked : load id s.pending ≡ none → (execute b w req s).1.pending ≡ s.pending
    unfolding done track_request
    execute_untracked e =
        let (c, _, name, q) = accepted w req s id h in
        let p = get_client_by_balance-pending w.picks s in
        let t = (get_client_by_balance b w.picks s).1 in
        let absent : load id t.pending ≡ none = rw p e in rw q (ground (arith, p, absent))

  -- A request that Execute refuses leaves every outstanding request as it was.
  pub execute_refused :
      (w : SendWorld Env) (req : ExecuteRequest) (s : Manager State) (x : SendError)
      → (execute b w req s).0 ≡ err x
      → (execute b w req s).1.pending ≡ s.pending
  unfolding done
  execute_refused w req s x h = elim (execute-cases w req s) [
    | inl (e, q) ↦ rw q (get_client_by_balance-pending w.picks s)
    | inr (c, e, q) ↦ elim (Bool-cases w.write_fails) [
      | inl bad ↦ rw q (rw bad (get_client_by_balance-pending w.picks s))
      | inr good ↦ absurd (ground arith)
    ]
  ]
