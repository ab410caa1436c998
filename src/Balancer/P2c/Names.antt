-- ===== src/Balancer/P2c/Names.antt =====
-- p2c.go: the names of the nodes stay different, whatever is called.
use code_runner_backend.Prelude.{
  ℕ, zero, suc, ◌≡◌, refl, ap, inl, inr, Bool, false, List, [], ◌∷◌, ◌++◌, arith, any, Bool-cases,
}
use code_runner_backend.Prelude.Text.{Text, same, same_iff}
use code_runner_backend.Prelude.Int.{ℤ}
use code_runner_backend.Balancer.P2c.{
  Floats, P2cNode, P2cEnv, modify_at, add, remove, pick, get, finish, done, new_p2c_node,
}
use code_runner_backend.Balancer.P2c.Membership.{
  Distinct, has, any-append, any-modify_at, get-cases, has-remove, has-done,
}

Distinct-append_one :
    {F : Type 0} (nodes : List (P2cNode F)) (n : P2cNode F)
    → Distinct nodes
    → any (λ m. same m.server_id n.server_id) nodes ≡ false
    → Distinct (nodes ++ n ∷ [])
Distinct-append_one [] n d h = (refl, tt)
Distinct-append_one (m ∷ nodes) n d h = (
  ground (
    arith,
    any-append (λ (k : P2cNode _). same k.server_id m.server_id) nodes (n ∷ []),
    same_iff m.server_id n.server_id,
    same_iff n.server_id m.server_id,
  ),
  Distinct-append_one nodes n d.1 (ground arith),
)

Distinct-modify_at :
    {F : Type 0} (i : ℕ) (f : P2cNode F → P2cNode F) (nodes : List (P2cNode F))
    → ((n : P2cNode F) → (f n).server_id ≡ n.server_id)
    → Distinct nodes
    → Distinct (modify_at i f nodes)
unfolding modify_at
Distinct-modify_at i f [] h d = tt
Distinct-modify_at zero f (n ∷ nodes) h d = (rw (h n) d.0, d.1)
Distinct-modify_at (suc i) f (n ∷ nodes) h d = (
  rw
      (any-modify_at (λ (k : P2cNode _). same k.server_id n.server_id) f i nodes
        (λ k. ap (λ t. same t n.server_id) (h k)))
      d.0,
  Distinct-modify_at i f nodes h d.1,
)

module _ (fl : Floats) where
  open fl use {F}

  pub add-Distinct :
      (id : Text) (weight : ℤ) (now : ℕ) (nodes : List (P2cNode F))
      → Distinct nodes
      → Distinct (add fl id weight now nodes)
  unfolding add
  add-Distinct id weight now nodes d = elim (Bool-cases (has fl nodes id)) [
    | inl old ↦ rw (old, add) d
    | inr new ↦ rw (new, add) (Distinct-append_one nodes (new_p2c_node fl id weight now) d new)
  ]

  pub remove-Distinct :
      (id : Text) (nodes : List (P2cNode F)) → Distinct nodes → Distinct (remove fl id nodes)
  unfolding remove
  remove-Distinct id [] d = tt
  remove-Distinct id (n ∷ nodes) d =
      ground (arith, remove-Distinct id nodes d.1, has-remove fl id nodes n.server_id d.1)

  pub get-Distinct :
      (env : P2cEnv) (nodes : List (P2cNode F)) → Distinct nodes → Distinct (get fl env nodes).1
  unfolding pick
  get-Distinct env nodes d = elim (get-cases fl env nodes) [
    | inl (e, x) ↦ rw x d
    | inr (i, n, x, y, g) ↦ rw g (Distinct-modify_at i (pick fl env.now_pick) nodes (λ m. refl) d)
  ]

  pub done-Distinct :
      (id : Text) (took : ℕ) (failed : Bool) (now : ℕ) (nodes : List (P2cNode F))
      → Distinct nodes
      → Distinct (done fl id took failed now nodes)
  unfolding done finish
  done-Distinct id took failed now [] d = tt
  done-Distinct id took failed now (n ∷ nodes) d = ground (
    arith,
    done-Distinct id took failed now nodes d.1,
    has-done fl id took failed now nodes n.server_id,
  )
