-- ===== src/Dispatch.antt =====
-- internal/application/service/server/service.go and internal/domain/server/entity/client.go: how a
-- request goes to a worker, and what happens to its requests when a worker disconnects.
pub mod Tracking
pub mod Disconnect
pub mod Sample
mod Examples
use code_runner_backend.Prelude.{
  ℕ, zero, suc, ◌+◌, Bool, true, false, List, [], ◌∷◌, ◌++◌, Option, none, some, Result, ok, err,
  if◌then◌else◌,
}
use code_runner_backend.Prelude.Text.{Text}
use code_runner_backend.Prelude.TextMap.{TextMap}
use code_runner_backend.Prelude.Int.{ℤ}
use code_runner_backend.Api.{ExecuteRequest, ExecuteResponse}
use code_runner_backend.Balancer.{LoadBalancer}
use code_runner_backend.Manager.{
  Client, Manager, add_client, remove_client, get_client_by_balance, done, track_request,
  acknowledge_request, drain_pending,
}

pub data SendError : Type 0 where
  no_worker write_failed sync_timeout bad_result : SendError

-- What surrounds one call: the balancer's choices, whether the write to the websocket fails, and
-- what the clock says.
pub record SendWorld (E : Type 0) : Type 0 where
  pub picks : ℕ → E
  pub write_fails : Bool
  pub took : ℕ
  pub now : ℕ

-- What comes back to a synchronous send: a result message, a result that is no JSON, or nothing.
pub data Reply : Type 0 where
  replied : ExecuteResponse → Reply
  malformed silent : Reply

module _ (b : LoadBalancer) where
  open b use {State, Env}

  abbrev after_send :
      SendWorld Env
      → ExecuteRequest
      → Option Client × Manager State
      → Result SendError Text × Manager State
  after_send w req (none, s) = (err no_worker, s)
  after_send w req (some c, s) =
      let t = done b c.id w.took w.write_fails w.now s in
      if w.write_fails then (err write_failed, t) else (ok c.id, track_request b c.id req t)

  -- The worker's id is what the log line says; the Go function returns the error alone.
  unfoldable pub execute :
      SendWorld Env → ExecuteRequest → Manager State → Result SendError Text × Manager State
  execute w req s = after_send w req (get_client_by_balance b w.picks s)

  -- SendSync of the entity: marshalling works, so what can fail is the write, the wait, the result.
  unfoldable pub send_sync : Bool → Reply → Result SendError ExecuteResponse
  send_sync write_fails reply =
      if write_fails
      then err write_failed
      else elim reply [ replied r ↦ ok r | malformed ↦ err bad_result | silent ↦ err sync_timeout ]

  abbrev failed {ℓ κ} : {E : Type κ} {A : Type ℓ} → Result E A → Bool
  failed (ok _) = false
  failed (err _) = true

  abbrev after_sync :
      SendWorld Env
      → Reply
      → Option Client × Manager State
      → Result SendError ExecuteResponse × Manager State
  after_sync w reply (none, s) = (err no_worker, s)
  after_sync w reply (some c, s) =
      let r = send_sync w.write_fails reply in (r, done b c.id w.took (failed r) w.now s)

  unfoldable pub execute_sync :
      SendWorld Env → Reply → Manager State → Result SendError ExecuteResponse × Manager State
  unfolding send_sync
  execute_sync w reply s = after_sync w reply (get_client_by_balance b w.picks s)

  -- The loop that sends the drained requests again; an error is logged and the request dropped.
  unfoldable pub redispatch :
      (ℕ → SendWorld Env) → ℕ → List ExecuteRequest → Manager State → Manager State
  redispatch ws i [] s = s
  redispatch ws i (req ∷ rest) s = redispatch ws (i + 1) rest (execute (ws i) req s).1

  -- What a failed Read sets off in Run: drain, send again, and only then (deferred) remove the client.
  unfoldable pub disconnect : (ℕ → SendWorld Env) → Bool → Text → Manager State → Manager State
  disconnect ws close_fails id s =
      let (reqs, t) = drain_pending b id s in
      (remove_client b close_fails id (redispatch ws 0 reqs t)).1

  -- The start of Run.
  unfoldable pub connect : Text → ℤ → ℕ → Manager State → Manager State
  connect id weight now s = add_client b id weight now s
