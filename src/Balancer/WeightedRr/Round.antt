-- ===== src/Balancer/WeightedRr/Round.antt =====
-- weightedRR.go: a round, which is as many calls as the total of the weights.
use mathlib.Core.List.{append-nil, append_assoc}
use native.Mathlib.Nat.{mul-suc, lt_of_mul-lt-mul_left, eq_of_mul-eq-mul_left, mul-le-mul_left}
use code_runner_backend.Prelude.{
  ℕ, zero, suc, ◌+◌, ◌*◌, ◌≤◌, ◌<◌, ◌≡◌, refl, ap, subst, sym, ◌∙◌, List, [], ◌∷◌, ◌++◌, ◌==◌,
  arith, All, count_if,
}
use code_runner_backend.Prelude.Int.{ℤ, pos, half_range, ◌+ℤ◌, wrap64, wrap64-InRange64}
use code_runner_backend.Prelude.Text.{Text}
use code_runner_backend.Balancer.WeightedRr.{WeightNode, next_many}
use code_runner_backend.Balancer.WeightedRr.Ghost.{Share, views}
use code_runner_backend.Balancer.WeightedRr.Step.{sum_up, sum_down, sum_weight, Steady}
use code_runner_backend.Balancer.WeightedRr.{new_weighted_rr, add, add_all}
use code_runner_backend.Balancer.WeightedRr.Fair.{wrr, picks_at, Member, members, next_many-Reached}

abbrev pub fresh : List Member → List Share
fresh [] = []
fresh ((id, weight) ∷ ms) =
    record { server_id = id; weight = weight; up = 0; down = 0; picks = 0 } ∷ fresh ms

abbrev pub total_of : List Member → ℕ
total_of [] = 0
total_of ((id, weight) ∷ ms) = weight + total_of ms

abbrev pub weight_of : ℕ → List Member → ℕ
weight_of i [] = 0
weight_of zero ((id, weight) ∷ ms) = weight
weight_of (suc i) (m ∷ ms) = weight_of i ms

fresh-sums :
    (ms : List Member)
    → (sum_up (fresh ms) ≡ 0)
      × (sum_down (fresh ms) ≡ 0)
      × (sum_weight (fresh ms) ≡ total_of ms)
      × (members (fresh ms) ≡ ms)
fresh-sums [] = (refl, refl, refl, refl)
fresh-sums (m ∷ ms) =
    let (u, d, t, e) = fresh-sums ms in
    (omega (arith, u), omega (arith, d), omega (arith, t), ap (λ l. m ∷ l) e)

fresh-Steady : (w : ℕ) (ms : List Member) → 0 < w → total_of ms ≤ w → All (Steady w 0) (fresh ms)
fresh-Steady w [] h t = tt
fresh-Steady w ((id, weight) ∷ ms) h t = (
  (omega arith, omega arith, omega (arith, h), omega (arith, t)),
  fresh-Steady w ms h (omega (arith, t)),
)

-- At the end of a round no node has lost more than it was given.
share_le : (w : ℕ) (g : Share) → Steady w w g → g.down ≤ g.up
share_le w g v =
    let more : w * suc g.weight ≡ w * g.weight + w = mul-suc w g.weight in
    let below : g.picks < suc g.weight =
      lt_of_mul-lt-mul_left w (omega (arith, v.2, v.0, v.1, more)) in
    let bound : w * g.picks ≤ w * g.weight = mul-le-mul_left w (omega (arith, below)) in
    omega (arith, v.0, v.1, bound)

sums_le : (w : ℕ) (gs : List Share) → All (Steady w w) gs → sum_down gs ≤ sum_up gs
sums_le w [] v = omega arith
sums_le w (g ∷ gs) v = omega (arith, share_le w g v.0, sums_le w gs v.1)

-- So with equal sums each has lost what it was given: it was taken as often as its weight says.
share_whole : (w : ℕ) (g : Share) → 0 < w → Steady w w g → g.up ≡ g.down → g.picks ≡ g.weight
share_whole w g h v e = eq_of_mul-eq-mul_left w h g.picks g.weight (omega (arith, v.0, v.1, e))

round-shares :
    (w : ℕ) (gs : List Share)
    → 0 < w
    → All (Steady w w) gs
    → sum_up gs ≡ sum_down gs
    → (views gs ≡ views (fresh (members gs))) × ((i : ℕ) → picks_at i gs ≡ weight_of i (members gs))
round-shares w [] h v e = (refl, λ i. refl)
round-shares w (g ∷ gs) h v e =
    let here = share_le w g v.0 in
    let there = sums_le w gs v.1 in
    let same_here : g.up ≡ g.down = omega (arith, e, here, there) in
    let (behind, counts) = round-shares w gs h v.1 (omega (arith, e, here, there)) in
    (
      ground (arith, behind, same_here),
      λ i. elim i as (λ k. picks_at k (g ∷ gs) ≡ weight_of k (members (g ∷ gs))) [
        | zero ↦ share_whole w g h v.0 same_here
        | suc i ↦ counts i
      ],
    )

picks_at-fresh : (i : ℕ) (ms : List Member) → picks_at i (fresh ms) ≡ 0
picks_at-fresh i [] = refl
picks_at-fresh zero (m ∷ ms) = refl
picks_at-fresh (suc i) (m ∷ ms) = picks_at-fresh i ms

round-fair :
    (ms : List Member) (w : ℕ)
    → total_of ms ≡ w
    → 0 < w
    → w * w + w < half_range
    → ((next_many w (wrr w (fresh ms))).1 ≡ wrr w (fresh ms))
      × ((i : ℕ) → count_if (λ j. j == i) (next_many w (wrr w (fresh ms))).0 ≡ weight_of i ms)
round-fair ms w t h b =
    let (u, d, s, m) = fresh-sums ms in
    let (after, e, (v, sums, _), m', counted) =
      next_many-Reached w w 0 (fresh ms) (omega arith) b
        (fresh-Steady w ms h (omega (arith, t)), omega (arith, u, d), omega (arith, s, t)) in
    let same_members = m' ∙ m in
    let (whole, counts) =
      round-shares w after h (subst (λ k. All (Steady w k) after) (omega arith) v) sums in
    (
      e
          ∙ ap (λ ns. record { nodes = ns; total_weight = pos w }) whole
          ∙ ap (λ l. wrr w (fresh l)) same_members,
      λ i. omega (arith, counted i, picks_at-fresh i ms, counts i, ap (weight_of i) same_members),
    )

abbrev pub int_weights : List Member → List (Text × ℤ)
int_weights [] = []
int_weights ((id, weight) ∷ ms) = (id, pos weight) ∷ int_weights ms

pos-add : (t w : ℕ) → t + w < half_range → wrap64 (pos t +ℤ pos w) ≡ pos (t + w)
pos-add t w h = ap wrap64 (exact t w) ∙ wrap64-InRange64 (pos (t + w)) (ground (arith, h))
  where
    exact : (t w : ℕ) → pos t +ℤ pos w ≡ pos (t + w)
    exact t w = unfold ◌+ℤ◌ in ground arith

-- Adding nodes one after the other makes a fresh list.
add_all-fresh :
    (ms : List Member) (ns : List WeightNode) (t : ℕ)
    → t + total_of ms < half_range
    → add_all (int_weights ms) (record { nodes = ns; total_weight = pos t })
      ≡ record { nodes = ns ++ views (fresh ms); total_weight = pos (t + total_of ms) }
unfolding add_all add
add_all-fresh [] ns t h =
    ap (λ l. record { nodes = l; total_weight = pos t }) (sym (append-nil ns))
    ∙ ap (λ k. record { nodes = ns ++ []; total_weight = pos k }) (omega arith)
add_all-fresh ((id, weight) ∷ ms) ns t h =
    let n : WeightNode = record { server_id = id; cur_weight = pos 0; weight = pos weight } in
    let e : t + weight + total_of ms ≡ t + (weight + total_of ms) = omega arith in
    ap (λ k. add_all (int_weights ms) (record { nodes = ns ++ n ∷ []; total_weight = k }))
      (pos-add t weight (omega (arith, h)))
    ∙ add_all-fresh ms (ns ++ n ∷ []) (t + weight) (omega (arith, h))
    ∙ ap (λ l. record { nodes = l; total_weight = pos (t + weight + total_of ms) })
        (append_assoc ns (n ∷ []) (views (fresh ms)))
    ∙ ap (λ k. record { nodes = ns ++ n ∷ views (fresh ms); total_weight = pos k }) e

-- In as many calls of Next as the total of the weights, on a list just made of nodes whose weights are
-- not negative and not all zero, each node is returned exactly as often as its weight says, and the list
-- is as it was. The square of the total must be in the range of int64, and more of it by the total.
pub next_many-fair :
    (ms : List Member)
    → 0 < total_of ms
    → total_of ms * total_of ms + total_of ms < half_range
    → let s = add_all (int_weights ms) new_weighted_rr in
      ((next_many (total_of ms) s).1 ≡ s)
      × ((i : ℕ) → count_if (λ j. j == i) (next_many (total_of ms) s).0 ≡ weight_of i ms)
next_many-fair ms h b =
    let w = total_of ms in
    let built : add_all (int_weights ms) new_weighted_rr ≡ wrr w (fresh ms) =
      add_all-fresh ms [] 0 (omega (arith, b))
      ∙ ap (λ k. record { nodes = views (fresh ms); total_weight = pos k }) (omega arith) in
    subst
      (λ s.
        ((next_many w s).1 ≡ s)
        × ((i : ℕ) → count_if (λ j. j == i) (next_many w s).0 ≡ weight_of i ms))
      (sym built) (round-fair ms w refl h b)
