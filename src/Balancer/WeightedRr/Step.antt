-- ===== src/Balancer/WeightedRr/Step.antt =====
-- weightedRR.go: one call of Next, with weights whose total is positive.
use native.Mathlib.Nat.{mul-suc, suc-mul, mul-le-mul}
use code_runner_backend.Prelude.{
  ℕ, zero, suc, ◌+◌, ◌*◌, ◌≤◌, ◌<◌, ◌≡◌, refl, ap, true, List, [], ◌∷◌, some, arith, All,
}
use code_runner_backend.Prelude.Int.{ℤ, pos, ltb_ℤ, half_range}
use code_runner_backend.Balancer.WeightedRr.{lower_at}
use code_runner_backend.Balancer.WeightedRr.Ghost.{
  Share, view, views, raise, bump, Small, sub-take, any_positive, weight_at,
}

abbrev pub sum_up : List Share → ℕ
sum_up [] = 0
sum_up (g ∷ gs) = g.up + sum_up gs

abbrev pub sum_down : List Share → ℕ
sum_down [] = 0
sum_down (g ∷ gs) = g.down + sum_down gs

abbrev pub sum_weight : List Share → ℕ
sum_weight [] = 0
sum_weight (g ∷ gs) = g.weight + sum_weight gs

-- After `k` calls, in a list of nodes with the total `w`.
abbrev pub Steady : ℕ → ℕ → Share → Type 0
Steady w k g = (g.up ≡ k * g.weight) × (g.down ≡ w * g.picks) × (g.down < g.up + w) × (g.weight ≤ w)

-- In the middle of a call, where all weights have been raised.
abbrev pub IsRaised : ℕ → Share → Type 0
IsRaised w g = g.up + w < half_range

Steady-Small : (w k : ℕ) (g : Share) → k < w → w * w + w < half_range → Steady w k g → Small w g
Steady-Small w k g h b v =
    let bound : suc k * g.weight ≤ w * w = mul-le-mul h v.3 in
    let more : suc k * g.weight ≡ k * g.weight + g.weight = suc-mul k g.weight in
    (omega (arith, v.0, bound, more, b), v.2)

pub All-Small :
    (w k : ℕ) (gs : List Share)
    → k < w
    → w * w + w < half_range
    → All (Steady w k) gs
    → All (Small w) gs
All-Small w k [] h b v = tt
All-Small w k (g ∷ gs) h b v = (Steady-Small w k g h b v.0, All-Small w k gs h b v.1)

pub raise-Steady :
    (w k : ℕ) (gs : List Share) → All (Steady w k) gs → All (Steady w (suc k)) (raise gs)
raise-Steady w k [] v = tt
raise-Steady w k (g ∷ gs) v =
    let more : suc k * g.weight ≡ k * g.weight + g.weight = suc-mul k g.weight in
    ((omega (arith, v.0.0, more), v.0.1, omega (arith, v.0.2), v.0.3), raise-Steady w k gs v.1)

pub raise-IsRaised : (w : ℕ) (gs : List Share) → All (Small w) gs → All (IsRaised w) (raise gs)
raise-IsRaised w [] v = tt
raise-IsRaised w (g ∷ gs) v = (v.0.0, raise-IsRaised w gs v.1)

pub bump-Steady :
    (w k j : ℕ) (gs : List Share) (x : ℤ)
    → All (Steady w k) gs
    → weight_at j gs ≡ some x
    → ltb_ℤ (pos 0) x ≡ true
    → All (Steady w k) (bump j w gs)
bump-Steady w k j [] x v e p = tt
bump-Steady w k zero (g ∷ gs) x v e p =
    let more : w * suc g.picks ≡ w * g.picks + w = mul-suc w g.picks in
    ((v.0.0, omega (arith, v.0.1, more), ground (arith, v.0.2, e, p), v.0.3), v.1)
bump-Steady w k (suc j) (g ∷ gs) x v e p = (v.0, bump-Steady w k j gs x v.1 e p)

pub lower_at-bump :
    (w j : ℕ) (gs : List Share) (x : ℤ)
    → All (IsRaised w) gs
    → weight_at j gs ≡ some x
    → ltb_ℤ (pos 0) x ≡ true
    → lower_at j (pos w) (views gs) ≡ views (bump j w gs)
unfolding lower_at
lower_at-bump w j [] x v e p = refl
lower_at-bump w zero (g ∷ gs) x v e p =
    ap (λ c. record (view g) { cur_weight = c } ∷ views gs)
      (sub-take g.up g.down w (ground (arith, v.0)) (ground (arith, v.0, e, p)))
lower_at-bump w (suc j) (g ∷ gs) x v e p = ap (λ ns. view g ∷ ns) (lower_at-bump w j gs x v.1 e p)

pub positive_exists : (gs : List Share) → sum_down gs < sum_up gs → any_positive gs ≡ true
positive_exists [] h = absurd (omega (arith, h))
positive_exists (g ∷ gs) h = ground (arith, h, positive_exists gs)

pub sum_up-raise : (gs : List Share) → sum_up (raise gs) ≡ sum_up gs + sum_weight gs
sum_up-raise [] = omega arith
sum_up-raise (g ∷ gs) = omega (arith, sum_up-raise gs)

pub sum_down-raise : (gs : List Share) → sum_down (raise gs) ≡ sum_down gs
sum_down-raise [] = refl
sum_down-raise (g ∷ gs) = omega (arith, sum_down-raise gs)

pub sum_weight-raise : (gs : List Share) → sum_weight (raise gs) ≡ sum_weight gs
sum_weight-raise [] = refl
sum_weight-raise (g ∷ gs) = omega (arith, sum_weight-raise gs)

pub bump-sums :
    (w j : ℕ) (gs : List Share) (x : ℤ)
    → weight_at j gs ≡ some x
    → (sum_up (bump j w gs) ≡ sum_up gs)
      × (sum_down (bump j w gs) ≡ sum_down gs + w)
      × (sum_weight (bump j w gs) ≡ sum_weight gs)
bump-sums w j [] x e = absurd (cc)
bump-sums w zero (g ∷ gs) x e = (refl, omega arith, refl)
bump-sums w (suc j) (g ∷ gs) x e =
    let (u, d, s) = bump-sums w j gs x e in (omega (arith, u), omega (arith, d), omega (arith, s))
