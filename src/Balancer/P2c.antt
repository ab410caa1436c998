-- ===== src/Balancer/P2c.antt =====
-- internal/infrastructure/balanceStrategy/p2cBalance (node.go and p2c.go): power of two choices over
-- an exponentially weighted latency. The mutex makes Add, Remove and Get one step. Done holds it
-- only to find the node, and changes the node by atomic operations; it is taken as one step too, and
-- two calls of Done on one node whose parts mix are left out. Floating point is a parameter; random numbers and the clock are arguments.
pub mod Membership
pub mod Names
pub mod Choice
pub mod Inflight
pub mod Filled
pub mod Sample
mod Examples
use code_runner_backend.Prelude.{
  ℕ, zero, suc, ◌-◌, ◌%◌, ◌+◌, Bool, true, false, List, [], ◌∷◌, ◌++◌, Option, none, some, ltb, leb,
  length, get_elem?, any, if◌then◌else◌,
}
use code_runner_backend.Prelude.Text.{Text, same}
use code_runner_backend.Prelude.Int.{ℤ, pos, ltb_ℤ, ◌+ℤ◌, ◌-ℤ◌, wrap64}

-- What the code uses of `float64` and of `math`. No law of rounding is assumed.
pub record Floats : Type 1 where
  pub F : Type 0
  pub of_int : ℤ → F
  pub to_int : F → ℤ
  pub plus : F → F → F
  pub minus : F → F → F
  pub times : F → F → F
  pub over : F → F → F
  pub sqrt : F → F
  pub exp : F → F
  pub below : F → F → Bool

pub record P2cNode (F : Type 0) : Type 0 where
  pub server_id : Text
  pub weight : ℤ
  pub lag : F
  pub inflight : ℤ
  pub success : F
  pub requests : ℤ
  pub last_pick : ℕ
  pub stamp : ℕ

-- The two calls of `Intn` (any numbers, reduced below), and the clock at the test for starvation and
-- at the pick.
pub record P2cEnv : Type 0 where
  pub first : ℕ
  pub second : ℕ
  pub now : ℕ
  pub now_pick : ℕ

-- The nodes are a slice of pointers; an update of the i-th node.
unfoldable pub modify_at {ℓ} : {A : Type ℓ} → ℕ → (A → A) → List A → List A
modify_at i f [] = []
modify_at zero f (x ∷ xs) = f x ∷ xs
modify_at (suc i) f (x ∷ xs) = x ∷ modify_at i f xs

-- Nanoseconds.
abbrev pub decay_time : ℕ
decay_time = 10_000_000_000

abbrev pub force_pick_timeout : ℕ
force_pick_timeout = 1_000_000_000

abbrev pub penalty : ℤ
penalty = pos 2147483647

module _ (fl : Floats) where
  open fl use {F, of_int, to_int, plus, minus, times, over, sqrt, exp, below}

  unfoldable pub new_p2c_node : Text → ℤ → ℕ → P2cNode F
  new_p2c_node id weight now = record {
    server_id = id;
    weight = weight;
    lag = of_int (pos 0);
    inflight = pos 0;
    success = of_int (pos 1000);
    requests = pos 0;
    last_pick = 0;
    stamp = now;
  }

  unfoldable pub load_of : P2cNode F → ℤ
  load_of n =
      let lag = sqrt (plus n.lag (of_int (pos 1))) in
      let busy = of_int (wrap64 (n.inflight +ℤ pos 1)) in
      let w = if ltb_ℤ (pos 0) n.weight then n.weight else pos 1 in
      if below n.success (of_int (pos 500))
      then penalty
      else to_int (over (times lag busy) (of_int w))

  abbrev pub is_node : Text → P2cNode F → Bool
  is_node id n = same n.server_id id

  unfoldable pub add : Text → ℤ → ℕ → List (P2cNode F) → List (P2cNode F)
  unfolding new_p2c_node
  add id weight now nodes =
      if any (is_node id) nodes then nodes else nodes ++ new_p2c_node id weight now ∷ []

  -- Only the first node of the name goes.
  unfoldable pub remove : Text → List (P2cNode F) → List (P2cNode F)
  remove id [] = []
  remove id (n ∷ nodes) = if is_node id n then nodes else n ∷ remove id nodes

  unfoldable pub pick : ℕ → P2cNode F → P2cNode F
  pick now n = record n {
    inflight = wrap64 (n.inflight +ℤ pos 1);
    requests = wrap64 (n.requests +ℤ pos 1);
    last_pick = now;
  }

  -- Is the first of the two to be taken? The one with the lower load, unless the other has not been
  -- picked for a second; the compare-and-swap cannot fail under the mutex, since only Get writes the time.
  unfoldable pub choose_first : ℕ → P2cNode F → P2cNode F → Bool
  choose_first now c1 c2 =
      if ltb_ℤ (load_of c2) (load_of c1)
      then ltb force_pick_timeout (now - c1.last_pick)
      else leb (now - c2.last_pick) force_pick_timeout

  -- The second index skips the first, so the two differ.
  abbrev pub skip : ℕ → ℕ → ℕ
  skip a b = if leb a b then b + 1 else b

  abbrev choose_index : ℕ → ℕ → ℕ → Option (P2cNode F) → Option (P2cNode F) → ℕ
  choose_index now a b (some c1) (some c2) = if choose_first now c1 c2 then a else b
  choose_index now a b _ _ = a

  -- The index of the node that Get takes.
  unfoldable pub get_index : P2cEnv → List (P2cNode F) → Option ℕ
  unfolding choose_first load_of
  get_index env [] = none
  get_index env (n ∷ []) = some 0
  get_index env (n ∷ m ∷ rest) =
      let nodes = n ∷ m ∷ rest in
      let a = env.first % length nodes in
      let b = skip a (env.second % (length nodes - 1)) in
      some (choose_index env.now a b (get_elem? nodes a) (get_elem? nodes b))

  unfoldable pub get : P2cEnv → List (P2cNode F) → Option Text × List (P2cNode F)
  get env nodes = elim (get_index env nodes) [
    | none ↦ (none, nodes)
    | some i ↦ elim (get_elem? nodes i) [
      | none ↦ (none, nodes)
      | some n ↦ (some n.server_id, modify_at i (pick env.now_pick) nodes)
    ]
  ]

  -- The EWMA update at the end of a request.
  unfoldable pub finish : ℕ → Bool → ℕ → P2cNode F → P2cNode F
  finish took failed now n =
      let elapsed = now - n.stamp in
      let w =
        exp (over (minus (of_int (pos 0)) (of_int (pos elapsed))) (of_int (pos decay_time))) in
      let rest = minus (of_int (pos 1)) w in
      let success_val = of_int (if failed then pos 0 else pos 1000) in
      record n {
        stamp = now;
        lag = plus (times n.lag w) (times (of_int (pos took)) rest);
        success = plus (times n.success w) (times success_val rest);
        inflight = wrap64 (n.inflight -ℤ pos 1);
      }

  -- `findNode` takes the first node of the name; a name that is gone is ignored.
  unfoldable pub done : Text → ℕ → Bool → ℕ → List (P2cNode F) → List (P2cNode F)
  done id took failed now [] = []
  done id took failed now (n ∷ nodes) =
      if is_node id n then finish took failed now n ∷ nodes else n ∷ done id took failed now nodes
