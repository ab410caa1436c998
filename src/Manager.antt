-- ===== src/Manager.antt =====
-- internal/domain/server/service/clientManager.go and internal/domain/server/entity/client.go: the
-- workers that are connected, and the requests that each has not acknowledged. The load balancer is
-- an argument, an implementation of the interface Balancer.
pub mod Picking
pub mod Pending
pub mod Registry
use code_runner_backend.Prelude.{
  ℕ, zero, suc, ◌+◌, ◌≡◌, refl, Bool, true, false, not, ◌&&◌, List, [], ◌∷◌, Option, none, some,
  if◌then◌else◌,
}
use code_runner_backend.Prelude.Text.{Text, same}
use code_runner_backend.Prelude.TextMap.{TextMap, empty, load, store, delete, values}
use code_runner_backend.Prelude.Int.{ℤ}
use code_runner_backend.Api.{ExecuteRequest}
use code_runner_backend.Balancer.{LoadBalancer}

-- A connected worker: `entity.Client` with its websocket, of which the manager asks `IsClosed`.
pub record Client : Type 0 where
  pub id : Text
  pub is_closed : Bool

abbrev pub Requests : Type 0
Requests = TextMap ExecuteRequest

pub record Manager (S : Type 0) : Type 0 where
  pub clients : TextMap Client
  pub pending : TextMap Requests
  pub balancer : S

pub data ManagerError : Type 0 where
  not_found_effective_server close_failed : ManagerError

abbrev pub max_retry_pick_client : ℕ
max_retry_pick_client = 3

module _ (b : LoadBalancer) where
  open b use {State, Env}

  unfoldable pub add_client : Text → ℤ → ℕ → Manager State → Manager State
  add_client id weight now s = record {
    clients = store id (record { id = id; is_closed = false }) s.clients;
    pending = store id empty s.pending;
    balancer = b.add id weight now s.balancer;
  }

  unfoldable pub get_client_by_id : Text → Manager State → Option Client
  get_client_by_id id s = load id s.clients

  -- A client that is found is closed, unless it is closed already; if that fails it stays.
  -- `close_fails`: what `conn.Close()` would answer.
  unfoldable pub remove_client : Bool → Text → Manager State → Option ManagerError × Manager State
  remove_client close_fails id s = elim (load id s.clients) [
    | none ↦ (some not_found_effective_server, s)
    | some c ↦
        if not c.is_closed && close_fails
        then (
          some close_failed,
          record s { clients = store id (record c { is_closed = true }) s.clients },
        )
        else (none, record s { clients = delete id s.clients; balancer = b.remove id s.balancer })
  ]

  -- The retry loop: a node with no client, or a closed one, is taken out and the next is tried.
  unfoldable pub pick_loop : ℕ → ℕ → (ℕ → Env) → Manager State → Option Client × Manager State
  pick_loop zero i envs s = (none, s)
  pick_loop (suc left) i envs s =
      let (chosen, balancer) = b.get (envs i) s.balancer in
      let t = record s { balancer = balancer } in
      elim chosen [
        | none ↦ (none, t)
        | some id ↦ elim (load id t.clients) [
          | none ↦ pick_loop left (i + 1) envs (record t { balancer = b.remove id t.balancer })
          | some c ↦ elim c.is_closed [
            | true ↦ pick_loop left (i + 1) envs (remove_client false c.id t).1
            | false ↦ (some c, t)
          ]
        ]
      ]

  -- `none` is the error NotFoundEffectiveServer.
  unfoldable pub get_client_by_balance : (ℕ → Env) → Manager State → Option Client × Manager State
  get_client_by_balance envs s = pick_loop max_retry_pick_client 0 envs s

  unfoldable pub done : Text → ℕ → Bool → ℕ → Manager State → Manager State
  done id took failed now s = record s { balancer = b.done id took failed now s.balancer }

  -- A client that has no entry any more is not tracked.
  unfoldable pub track_request : Text → ExecuteRequest → Manager State → Manager State
  track_request id req s = elim (load id s.pending) [
    | none ↦ s
    | some reqs ↦ record s { pending = store id (store req.id req reqs) s.pending }
  ]

  unfoldable pub acknowledge_request : Text → Text → Manager State → Manager State
  acknowledge_request id request_id s = elim (load id s.pending) [
    | none ↦ s
    | some reqs ↦ record s { pending = store id (delete request_id reqs) s.pending }
  ]

  unfoldable pub drain_pending : Text → Manager State → List ExecuteRequest × Manager State
  drain_pending id s = elim (load id s.pending) [
    | none ↦ ([], s)
    | some reqs ↦ (values reqs, record s { pending = delete id s.pending })
  ]

  -- The request of an id that a client has not acknowledged.
  unfoldable pub outstanding : Text → Text → Manager State → Option ExecuteRequest
  outstanding id request_id s = elim (load id s.pending) [
    | none ↦ none
    | some reqs ↦ load request_id reqs
  ]
