-- ===== src/Balancer/WeightedRr.antt =====
-- internal/infrastructure/balanceStrategy/weightedRRBalance: smooth weighted round robin. Weights are
-- int64 and wrap.
pub mod Ghost
pub mod Step
pub mod Fair
pub mod Round
mod Examples
use code_runner_backend.Prelude.{
  ℕ, zero, suc, Bool, true, false, List, [], ◌∷◌, ◌++◌, Option, none, some, if◌then◌else◌,
}
use code_runner_backend.Prelude.Int.{ℤ, pos, negsuc, ltb_ℤ, ◌+ℤ◌, ◌-ℤ◌, wrap64}
use code_runner_backend.Prelude.Text.{Text, same}

pub record WeightNode : Type 0 where
  pub server_id : Text
  pub cur_weight : ℤ
  pub weight : ℤ

pub record WeightedRr : Type 0 where
  pub nodes : List WeightNode
  pub total_weight : ℤ

abbrev pub new_weighted_rr : WeightedRr
new_weighted_rr = record { nodes = []; total_weight = pos 0 }

unfoldable pub add : Text → ℤ → WeightedRr → WeightedRr
unfolding ◌+ℤ◌ wrap64
add id weight w = record {
  nodes = w.nodes ++ record { server_id = id; cur_weight = pos 0; weight = weight } ∷ [];
  total_weight = wrap64 (w.total_weight +ℤ weight);
}

-- A list of nodes, added one after the other.
unfoldable pub add_all : List (Text × ℤ) → WeightedRr → WeightedRr
unfolding add
add_all [] w = w
add_all ((id, weight) ∷ more) w = add_all more (add id weight w)

-- The first node with the id, and the nodes without it.
unfoldable pub take_out : Text → List WeightNode → Option WeightNode × List WeightNode
take_out id [] = (none, [])
take_out id (n ∷ ns) =
    let (found, rest) = take_out id ns in
    if same n.server_id id then (some n, ns) else (found, n ∷ rest)

unfoldable pub remove : Text → WeightedRr → WeightedRr
unfolding take_out ◌-ℤ◌ wrap64
remove id w =
    let (found, rest) = take_out id w.nodes in
    elim found [
      | none ↦ w
      | some n ↦ record { nodes = rest; total_weight = wrap64 (w.total_weight -ℤ n.weight) }
    ]

-- `best == nil || node.curWeight > best.curWeight`
abbrev pub is_better : ℤ → Option (ℕ × ℤ) → Bool
is_better cur none = true
is_better cur (some (j, top)) = ltb_ℤ top cur

unfoldable pub keep_best : ℕ → ℤ → Option (ℕ × ℤ) → Option (ℕ × ℤ)
keep_best i cur best = if is_better cur best then some (i, cur) else best

-- The loop of Next from the node with index `i` on, with the index and the weight of the best node so
-- far: the nodes with their weights raised, and the best node of all.
unfoldable pub next_loop : ℕ → Option (ℕ × ℤ) → List WeightNode → List WeightNode × Option (ℕ × ℤ)
unfolding ◌+ℤ◌ wrap64 keep_best
next_loop i best [] = ([], best)
next_loop i best (n ∷ ns) =
    let cur = wrap64 (n.cur_weight +ℤ n.weight) in
    let (rest, found) = next_loop (suc i) (keep_best i cur best) ns in
    (record n { cur_weight = cur } ∷ rest, found)

-- `best.curWeight -= w.totalWeight`, for the node with this index.
unfoldable pub lower_at : ℕ → ℤ → List WeightNode → List WeightNode
unfolding ◌-ℤ◌ wrap64
lower_at i total [] = []
lower_at zero total (n ∷ ns) = record n { cur_weight = wrap64 (n.cur_weight -ℤ total) } ∷ ns
lower_at (suc i) total (n ∷ ns) = n ∷ lower_at i total ns

-- The index of the node that Next returns; `none` for the error of an empty list.
unfoldable pub next : WeightedRr → Option ℕ × WeightedRr
unfolding next_loop lower_at
next w =
    let (raised, best) = next_loop 0 none w.nodes in
    elim best [
      | none ↦ (none, w)
      | some (i, top) ↦ (some i, record w { nodes = lower_at i w.total_weight raised })
    ]

-- Calls of Next: the indices of the nodes that they return.
unfoldable pub next_many : ℕ → WeightedRr → List ℕ × WeightedRr
next_many zero w = ([], w)
next_many (suc k) w =
    let (picked, w') = next w in
    let (later, w'') = next_many k w' in
    elim picked [ none ↦ (later, w'') | some i ↦ (i ∷ later, w'') ]
