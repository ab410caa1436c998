-- ===== src/Balancer/WeightedRr/Examples.antt =====
-- Weighted round robin at concrete inputs.
use code_runner_backend.Prelude.{ℕ, ◌≡◌, ◌==◌, refl, List, [], ◌∷◌, arith, count_if}
use code_runner_backend.Prelude.Int.{pos, ◌+ℤ◌, ◌-ℤ◌, wrap64, bits64, signed64}
use code_runner_backend.Prelude.Text.{codes, same}
use code_runner_backend.Balancer.WeightedRr.{
  new_weighted_rr, add, add_all, take_out, remove, keep_best, next_loop, lower_at, next, next_many,
}
use code_runner_backend.Balancer.WeightedRr.Fair.{Member}
use code_runner_backend.Balancer.WeightedRr.Round.{int_weights, weight_of, next_many-fair}

abbrev five_one_one : List Member
five_one_one = (codes "a", 5) ∷ (codes "b", 1) ∷ (codes "c", 1) ∷ []

-- The calls of a round are spread.
spread :
    (next_many 7 (add_all (int_weights five_one_one) new_weighted_rr)).0
    ≡ 0 ∷ 0 ∷ 1 ∷ 0 ∷ 2 ∷ 0 ∷ 0 ∷ []
unfolding next_many next next_loop lower_at keep_best add_all add ◌+ℤ◌ ◌-ℤ◌ wrap64 bits64 signed64
spread = refl

next_many-fair_example :
    let s = add_all (int_weights five_one_one) new_weighted_rr in
    ((next_many 7 s).1 ≡ s)
    × ((i : ℕ) → count_if (λ j. j == i) (next_many 7 s).0 ≡ weight_of i five_one_one)
next_many-fair_example = next_many-fair five_one_one (omega arith) (omega arith)

-- A node that is removed takes its weight along, not what it has run up: the weights of the others
-- still make up for it.
removed :
    remove
      (codes "a")
      (next_many 1 (add_all ((codes "a", pos 1) ∷ (codes "b", pos 1) ∷ []) new_weighted_rr)).1
    ≡ record {
      nodes = record { server_id = codes "b"; cur_weight = pos 1; weight = pos 1 } ∷ [];
      total_weight = pos 1;
    }
unfolding remove take_out same next_many next next_loop lower_at keep_best add_all add ◌+ℤ◌ ◌-ℤ◌
    wrap64 bits64 signed64
removed = refl
