-- ===== src/Dispatch/Examples.antt =====
-- Two workers behind the P2C balancer: a request that is sent, acknowledged late, or sent again after
-- a disconnect; and the theorems on the client manager and the dispatch at these inputs.
use mathlib.Core.List.{Mem}
use code_runner_backend.Prelude.{
  ◌≡◌, refl, Bool, true, false, List, [], ◌∷◌, none, some, arith, any, ok,
}
use code_runner_backend.Prelude.Text.{Text, codes, same, same_iff}
use code_runner_backend.Prelude.TextMap.{empty, load, store, delete, load-empty}
use code_runner_backend.Prelude.Int.{ℤ, pos, ◌+ℤ◌, ◌-ℤ◌, wrap64}
use code_runner_backend.Balancer.P2c.{
  Floats, P2cNode, P2cEnv, get, get_index, choose_first, load_of, modify_at, pick, add, remove,
}
use code_runner_backend.Balancer.P2c
use code_runner_backend.Manager.{
  Client, Manager, add_client, remove_client, pick_loop, get_client_by_balance, done, track_request,
  acknowledge_request, drain_pending, outstanding,
}
use code_runner_backend.Manager.Registry.{
  IsCoherent, add_client-IsCoherent, remove_client-IsCoherent,
}
use code_runner_backend.Manager.Picking.{
  is_live, get_client_by_balance_live, get_client_by_balance_finds,
}
use code_runner_backend.Manager.Pending.{track_after_acknowledge}
use code_runner_backend.Dispatch.{execute, disconnect}
use code_runner_backend.Dispatch.Disconnect.{disconnect_removes, redispatch_to_self}
use code_runner_backend.Dispatch.Sample.{p2c, nobody, both, at_second, hello}

nobody-IsCoherent : IsCoherent p2c nobody
nobody-IsCoherent = record {
  sound = tt;
  filed = λ j c h. cc (load-empty j);
  matched = λ j. rw (load-empty j) refl;
}

both-IsCoherent : IsCoherent p2c both
both-IsCoherent =
    add_client-IsCoherent p2c (codes "b") (pos 1) 6 _
      (add_client-IsCoherent p2c (codes "a") (pos 1) 5 nobody nobody-IsCoherent)

a_has_entry : load (codes "a") both.pending ≡ some empty
unfolding add_client store load empty
a_has_entry = refl

-- The first worker has closed, and closing it again has failed, so it is still there.
abbrev one_down : Manager (List (P2cNode ℤ))
one_down = (remove_client p2c true (codes "a") both).1

one_down-IsCoherent : IsCoherent p2c one_down
one_down-IsCoherent = remove_client-IsCoherent p2c true (codes "a") both both-IsCoherent

only_a_down :
    (j : Text)
    → p2c.has one_down.balancer j ≡ true
    → is_live p2c one_down j ≡ false
    → any (λ d. same d j) (codes "a" ∷ []) ≡ true
unfolding remove_client add_client store load empty add
only_a_down j h n = ground (arith, same_iff (codes "a") j, same_iff (codes "b") j)

get_client_by_balance_finds_example :
    (c : Client) × ((get_client_by_balance p2c at_second.picks one_down).0 ≡ some c)
unfolding remove_client add_client store load empty add
get_client_by_balance_finds_example =
    get_client_by_balance_finds p2c at_second.picks one_down (codes "a" ∷ []) (codes "b")
      one_down-IsCoherent (omega arith) only_a_down refl refl

picks_b :
    (get_client_by_balance p2c at_second.picks one_down).0
    ≡ some (record { id = codes "b"; is_closed = false })
unfolding remove_client get_client_by_balance pick_loop add_client get get_index choose_first
    load_of modify_at pick add remove store load empty delete ◌+ℤ◌ wrap64
picks_b = refl

get_client_by_balance_live_example :
    (load (codes "b") (get_client_by_balance p2c at_second.picks one_down).1.clients
      ≡ some (record { id = codes "b"; is_closed = false }))
    × (◌≡◌ {A = Bool} false false)
get_client_by_balance_live_example =
    get_client_by_balance_live p2c at_second.picks one_down
      (record { id = codes "b"; is_closed = false }) one_down-IsCoherent picks_b

disconnect_removes_example :
    let t = disconnect p2c (λ i. at_second) false (codes "a") both in
    IsCoherent p2c t
    × (load (codes "a") t.clients ≡ none)
    × (p2c.has t.balancer (codes "a") ≡ false)
disconnect_removes_example =
    disconnect_removes p2c (λ i. at_second) (codes "a") both both-IsCoherent

-- The worker `a` has the request, disconnects, and is chosen again.
abbrev sent : Manager (List (P2cNode ℤ))
sent = track_request p2c (codes "a") hello both

goes_to_a_again :
    (execute p2c at_second hello (drain_pending p2c (codes "a") sent).1).0 ≡ ok (codes "a")
unfolding execute get_client_by_balance pick_loop add_client done get get_index choose_first load_of
    modify_at pick add P2c.done store load empty ◌+ℤ◌ ◌-ℤ◌ wrap64 drain_pending track_request delete
goes_to_a_again = refl

redispatch_to_self_example :
    outstanding p2c
      (codes "a")
      (codes "r1")
      (execute p2c at_second hello (drain_pending p2c (codes "a") sent).1).1
    ≡ none
unfolding same
redispatch_to_self_example =
    redispatch_to_self p2c at_second hello sent (codes "a") goes_to_a_again (codes "a") (codes "r1")

track_after_acknowledge_example :
    let late =
      track_request p2c (codes "a") hello (acknowledge_request p2c (codes "a") (codes "r1") both) in
    let timely =
      acknowledge_request p2c (codes "a") (codes "r1") (track_request p2c (codes "a") hello both) in
    (outstanding p2c (codes "a") (codes "r1") timely ≡ none)
    × (outstanding p2c (codes "a") (codes "r1") late ≡ some hello)
    × Mem hello (drain_pending p2c (codes "a") late).0
track_after_acknowledge_example =
    track_after_acknowledge p2c (codes "a") hello both empty a_has_entry
