-- ===== src/Balancer/P2c/Examples.antt =====
-- The P2C balancer over integers in place of floating point, and its theorems at concrete inputs.
use code_runner_backend.Prelude.{ℕ, ◌≡◌, ◌≢◌, refl, false, List, [], ◌∷◌, some, arith, get_elem?}
use code_runner_backend.Prelude.Text.{Text, codes, same}
use code_runner_backend.Prelude.Int.{ℤ, pos, ◌+ℤ◌, wrap64}
use code_runner_backend.Balancer.P2c.{
  P2cNode, P2cEnv, get, done, get_index, load_of, pick, modify_at, choose_first,
}
use code_runner_backend.Balancer.P2c.Sample.{integers}
use code_runner_backend.Balancer.P2c.Membership.{Distinct}
use code_runner_backend.Balancer.P2c.Choice.{Wins, get_index-Wins}
use code_runner_backend.Balancer.P2c.Inflight.{inflight_of, done-get, Counts64}

abbrev worker : Text → ℕ → P2cNode ℤ
worker id picked = record {
  server_id = id;
  weight = pos 1;
  lag = pos 0;
  inflight = pos 0;
  success = pos 1000;
  requests = pos 0;
  last_pick = picked;
  stamp = 0;
}

abbrev two_workers : List (P2cNode ℤ)
two_workers = worker (codes "a") 5 ∷ worker (codes "b") 6 ∷ []

abbrev at_seven : P2cEnv
at_seven = record { first = 4; second = 9; now = 7; now_pick = 8 }

takes_a : (get integers at_seven two_workers).0 ≡ some (codes "a")
unfolding get get_index choose_first load_of ◌+ℤ◌ wrap64 modify_at pick
takes_a = refl

-- A node that was never picked is starved, and is taken although it is no less busy.
takes_new :
    (get integers
      (record at_seven { now = 2_000_000_000 })
      (record (worker (codes "a") 1_999_999_999) { lag = pos 0 } ∷ worker (codes "b") 0 ∷ [])).0
    ≡ some (codes "b")
unfolding get get_index choose_first load_of ◌+ℤ◌ wrap64 modify_at pick
takes_new = refl

get_index-Wins_example :
    (i : ℕ) × (j : ℕ) × (c : P2cNode ℤ) × (o : P2cNode ℤ) × (get_index integers at_seven two_workers
      ≡ some i)
    × (i ≢ j)
    × (get_elem? two_workers i ≡ some c)
    × (get_elem? two_workers j ≡ some o)
    × Wins integers 7 c o
get_index-Wins_example =
    get_index-Wins integers at_seven (worker (codes "a") 5) (worker (codes "b") 6) []

two_workers-Distinct : Distinct two_workers
unfolding same
two_workers-Distinct = (refl, (refl, tt))

two_workers-Counts64 : Counts64 integers two_workers
unfolding inflight_of
two_workers-Counts64 j k e = ground arith

done-get_example :
    inflight_of integers
      (codes "a")
      (done integers (codes "a") 12 false 20 (get integers at_seven two_workers).1)
    ≡ inflight_of integers (codes "a") two_workers
done-get_example =
    done-get integers at_seven two_workers (codes "a") 12 false 20 (codes "a") two_workers-Distinct
      two_workers-Counts64 takes_a
