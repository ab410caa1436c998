-- ===== src/Dispatch/Sample.antt =====
-- Two workers behind the P2C balancer, and a request that goes to the first of them.
use code_runner_backend.Prelude.{◌≡◌, refl, false, List, [], ok}
use code_runner_backend.Prelude.Text.{codes}
use code_runner_backend.Prelude.TextMap.{empty, load, store}
use code_runner_backend.Prelude.Int.{ℤ, pos, ◌+ℤ◌, ◌-ℤ◌, wrap64}
use code_runner_backend.Api.{ExecuteRequest}
use code_runner_backend.Balancer.{LoadBalancer}
use code_runner_backend.Balancer.P2c.{
  Floats, P2cNode, P2cEnv, get, get_index, choose_first, load_of, modify_at, pick, add, remove,
}
use code_runner_backend.Balancer.P2c
use code_runner_backend.Balancer.P2c.Sample.{integers}
use code_runner_backend.Balancer.P2c.Filled.{p2c_balancer}
use code_runner_backend.Manager.{Manager, add_client, pick_loop, get_client_by_balance, done}
use code_runner_backend.Dispatch.{SendWorld, execute}

abbrev pub p2c : LoadBalancer
p2c = p2c_balancer integers

abbrev pub nobody : Manager (List (P2cNode ℤ))
nobody = record { clients = empty; pending = empty; balancer = [] }

abbrev pub both : Manager (List (P2cNode ℤ))
both = add_client p2c (codes "b") (pos 1) 6 (add_client p2c (codes "a") (pos 1) 5 nobody)

abbrev pub at_second : SendWorld P2cEnv
at_second = record {
  picks = λ i. record { first = 0; second = 0; now = 7; now_pick = 8 };
  write_fails = false;
  took = 1;
  now = 9;
}

abbrev pub hello : ExecuteRequest
hello = record {
  id = codes "r1";
  uid = 7;
  language = codes "c";
  code_block = [];
  call_back_url = [];
}

pub goes_to_a : (execute p2c at_second hello both).0 ≡ ok (codes "a")
unfolding execute get_client_by_balance pick_loop add_client done get get_index choose_first load_of
    modify_at pick add P2c.done store load empty ◌+ℤ◌ ◌-ℤ◌ wrap64
goes_to_a = refl
