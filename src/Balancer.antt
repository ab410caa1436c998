-- ===== src/Balancer.antt =====
-- internal/domain/server/service/clientManager.go: the interface LoadBalancer, with what the client
-- manager may rely on. internal/infrastructure/balanceStrategy/p2cBalance fills it (Balancer.P2c).
-- weightedRRBalance (Balancer.WeightedRr) stands beside it.
pub mod P2c
pub mod WeightedRr
use code_runner_backend.Prelude.{ℕ, ◌≡◌, Bool, true, false, not, ◌&&◌, ◌||◌, Option, none, some}
use code_runner_backend.Prelude.Text.{Text, same}
use code_runner_backend.Prelude.Int.{ℤ}

pub record LoadBalancer : Type 1 where
  pub State : Type 0
  -- What a choice depends on besides the state: random numbers and the clock.
  pub Env : Type 0
  pub add : Text → ℤ → ℕ → State → State
  pub get : Env → State → Option Text × State
  pub remove : Text → State → State
  pub done : Text → ℕ → Bool → ℕ → State → State
  pub has : State → Text → Bool
  pub IsSound : State → Type 0
  pub add-IsSound :
      (id : Text) (weight : ℤ) (now : ℕ) (s : State) → IsSound s → IsSound (add id weight now s)
  pub get-IsSound : (env : Env) (s : State) → IsSound s → IsSound (get env s).1
  pub remove-IsSound : (id : Text) (s : State) → IsSound s → IsSound (remove id s)
  pub done-IsSound :
      (id : Text) (took : ℕ) (failed : Bool) (now : ℕ) (s : State)
      → IsSound s
      → IsSound (done id took failed now s)
  pub has-add :
      (id : Text) (weight : ℤ) (now : ℕ) (s : State) (j : Text)
      → has (add id weight now s) j ≡ (same id j || has s j)
  pub has-get : (env : Env) (s : State) (j : Text) → has (get env s).1 j ≡ has s j
  pub has-remove :
      (id : Text) (s : State) (j : Text)
      → IsSound s
      → has (remove id s) j ≡ (not (same id j) && has s j)
  pub has-done :
      (id : Text) (took : ℕ) (failed : Bool) (now : ℕ) (s : State) (j : Text)
      → has (done id took failed now s) j ≡ has s j
  -- The node that is chosen is one of the nodes, and with none there is no choice.
  pub get-has : (env : Env) (s : State) (id : Text) → (get env s).0 ≡ some id → has s id ≡ true
  pub get_nobody : (env : Env) (s : State) → (get env s).0 ≡ none → (id : Text) → has s id ≡ false
