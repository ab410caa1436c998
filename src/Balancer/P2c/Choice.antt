-- ===== src/Balancer/P2c/Choice.antt =====
-- p2c.go, Get and choose: which of two nodes is taken.
use code_runner_backend.Prelude.{
  ℕ, ◌-◌, ◌%◌, ◌<◌, ◌≤◌, ◌≡◌, ◌≢◌, refl, sym, inl, inr, ◌⊎◌, Bool, true, false, List, ◌∷◌, Option,
  some, arith, length, get_elem?, if◌then◌else◌,
}
use code_runner_backend.Prelude.Int.{◌≤ℤ◌}
use code_runner_backend.Balancer.P2c.{
  Floats, P2cNode, P2cEnv, load_of, skip, choose_first, choose_index, get_index, force_pick_timeout,
}
use code_runner_backend.Balancer.P2c.Membership.{get_elem?-below}

module _ (fl : Floats) where
  open fl use {F}

  -- `c` is taken before `o`: it is not the busier one and the other is not starved, or it is not the
  -- less busy one and has been left alone for more than a second.
  abbrev pub Wins : ℕ → P2cNode F → P2cNode F → Type 0
  Wins now c o =
      ((load_of fl c ≤ℤ load_of fl o) × (now - o.last_pick ≤ force_pick_timeout))
      ⊎ ((load_of fl o ≤ℤ load_of fl c) × (force_pick_timeout < now - c.last_pick))

  choose_first-Wins :
      (now : ℕ) (c1 c2 : P2cNode F)
      → ((choose_first fl now c1 c2 ≡ true) × Wins now c1 c2)
        ⊎ ((choose_first fl now c1 c2 ≡ false) × Wins now c2 c1)
  unfolding choose_first
  choose_first-Wins now c1 c2 = ground arith

  choose_index-some :
      (now a b : ℕ) (o p : Option (P2cNode F)) (x y : P2cNode F) (t : Bool)
      → o ≡ some x
      → p ≡ some y
      → choose_first fl now x y ≡ t
      → some (choose_index fl now a b o p) ≡ some (if t then a else b)
  choose_index-some now a b o p x y t ex ey e = rw (ex, ey, e) refl

  -- With two nodes or more, Get compares two different nodes of the list and takes the one that wins.
  pub get_index-Wins :
      (env : P2cEnv) (n m : P2cNode F) (rest : List (P2cNode F))
      → let nodes = n ∷ m ∷ rest in
        (i : ℕ) × (j : ℕ) × (c : P2cNode F) × (o : P2cNode F) × (get_index fl env nodes ≡ some i)
        × (i ≢ j)
        × (get_elem? nodes i ≡ some c)
        × (get_elem? nodes j ≡ some o)
        × Wins env.now c o
  unfolding get_index
  get_index-Wins env n m rest =
      let nodes = n ∷ m ∷ rest in
      let a = env.first % length nodes in
      let b = skip fl a (env.second % (length nodes - 1)) in
      let below : b < length nodes = ground arith in
      let differ : a ≢ b = ground arith in
      let (x, ex) = get_elem?-below a nodes (omega arith) in
      let (y, ey) = get_elem?-below b nodes below in
      elim (choose_first-Wins env.now x y) [
        | inl (t, w) ↦ (
          a,
          b,
          x,
          y,
          choose_index-some env.now a b (get_elem? nodes a) (get_elem? nodes b) x y true ex ey t,
          differ,
          ex,
          ey,
          w,
        )
        | inr (t, w) ↦ (
          b,
          a,
          y,
          x,
          choose_index-some env.now a b (get_elem? nodes a) (get_elem? nodes b) x y false ex ey t,
          (λ e. differ (sym e)),
          ey,
          ex,
          w,
        )
      ]
