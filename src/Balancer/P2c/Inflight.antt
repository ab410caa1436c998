-- ===== src/Balancer/P2c/Inflight.antt =====
-- p2c.go: the count of requests in flight, which Get raises and Done lowers.
use code_runner_backend.Prelude.{
  ℕ, zero, suc, ◌≡◌, refl, ap, inl, inr, Bool, true, List, [], ◌∷◌, Option, none, some, arith,
  get_elem?, if◌then◌else◌, Bool-cases,
}
use code_runner_backend.Prelude.Text.{Text, same, same_iff, same_refl}
use code_runner_backend.Prelude.Int.{ℤ, pos, ◌+ℤ◌, ◌-ℤ◌, wrap64, wrap64-down_up, InRange64}
use code_runner_backend.Balancer.P2c.{
  Floats, P2cNode, P2cEnv, modify_at, is_node, pick, get, finish, done,
}
use code_runner_backend.Balancer.P2c.Membership.{Distinct, get-cases, any-get_elem?}

module _ (fl : Floats) where
  open fl use {F}

  -- The count of the node of a name.
  unfoldable pub inflight_of : Text → List (P2cNode F) → Option ℤ
  inflight_of id [] = none
  inflight_of id (n ∷ nodes) = if is_node fl id n then some n.inflight else inflight_of id nodes

  abbrev pub lift_count : (ℤ → ℤ) → Option ℤ → Option ℤ
  lift_count f none = none
  lift_count f (some k) = some (f k)

  inflight_of-done :
      (id : Text) (took : ℕ) (failed : Bool) (now : ℕ) (nodes : List (P2cNode F)) (j : Text)
      → inflight_of j (done fl id took failed now nodes) ≡ (
          if same id j
          then lift_count (λ k. wrap64 (k -ℤ pos 1)) (inflight_of j nodes)
          else inflight_of j nodes)
  unfolding inflight_of done finish
  inflight_of-done id took failed now [] j = ground arith
  inflight_of-done id took failed now (n ∷ nodes) j = ground (
    arith,
    same_iff n.server_id id,
    same_iff n.server_id j,
    same_iff id j,
    inflight_of-done id took failed now nodes j,
  )

  inflight_of-pick :
      (now i : ℕ) (nodes : List (P2cNode F)) (n : P2cNode F) (j : Text)
      → Distinct nodes
      → get_elem? nodes i ≡ some n
      → inflight_of j (modify_at i (pick fl now) nodes) ≡ (
          if same n.server_id j
          then lift_count (λ k. wrap64 (k +ℤ pos 1)) (inflight_of j nodes)
          else inflight_of j nodes)
  unfolding inflight_of modify_at pick
  inflight_of-pick now i [] n j d e = cc
  inflight_of-pick now zero (m ∷ nodes) n j d e = ground (arith, same_iff m.server_id j)
  inflight_of-pick now (suc i) (m ∷ nodes) n j d e = elim (Bool-cases (same m.server_id j)) [
    | inl hit ↦ elim (Bool-cases (same n.server_id j)) [
      | inl also ↦ absurd (clash hit also)
      | inr other ↦ rw hit (rw other refl)
    ]
    | inr miss ↦ rw miss (inflight_of-pick now i nodes n j d.1 e)
  ]
    where
      clash : same m.server_id j ≡ true → same n.server_id j ≡ true → ⊥
      clash h k = ground (
        arith,
        any-get_elem? (λ (x : P2cNode F). same x.server_id m.server_id) i nodes n e,
        same_iff m.server_id j,
        same_iff n.server_id j,
        same_refl m.server_id,
      )

  -- A choice raises the count of the node that was chosen by one, and no other count.
  pub inflight_of-get :
      (env : P2cEnv) (nodes : List (P2cNode F)) (id j : Text)
      → Distinct nodes
      → (get fl env nodes).0 ≡ some id
      → inflight_of j (get fl env nodes).1 ≡ (
          if same id j
          then lift_count (λ k. wrap64 (k +ℤ pos 1)) (inflight_of j nodes)
          else inflight_of j nodes)
  inflight_of-get env nodes id j d h = elim (get-cases fl env nodes) [
    | inl (e, x) ↦ absurd (ground arith)
    | inr (i, n, x, y, g) ↦
        let name : n.server_id ≡ id = ground arith in
        rw (← name) (rw g (inflight_of-pick env.now_pick i nodes n j d y))
  ]

  abbrev pub Counts64 : List (P2cNode F) → Type 0
  Counts64 nodes = (j : Text) (k : ℤ) → inflight_of j nodes ≡ some k → InRange64 k

  lift_count-down_up :
      (o : Option ℤ)
      → ((k : ℤ) → o ≡ some k → InRange64 k)
      → lift_count (λ k. wrap64 (k -ℤ pos 1)) (lift_count (λ k. wrap64 (k +ℤ pos 1)) o) ≡ o
  lift_count-down_up none h = refl
  lift_count-down_up (some k) h = ap some (wrap64-down_up k (h k refl))

  -- Done for the node that Get chose takes back what Get counted: every node has its old count.
  pub done-get :
      (env : P2cEnv) (nodes : List (P2cNode F)) (id : Text) (took : ℕ) (failed : Bool) (now : ℕ)
      (j : Text)
      → Distinct nodes
      → Counts64 nodes
      → (get fl env nodes).0 ≡ some id
      → inflight_of j (done fl id took failed now (get fl env nodes).1) ≡ inflight_of j nodes
  done-get env nodes id took failed now j d r h =
      let up = inflight_of-get env nodes id j d h in
      let down = inflight_of-done id took failed now (get fl env nodes).1 j in
      elim (Bool-cases (same id j)) [
        | inl e ↦ ground (arith, up, down, lift_count-down_up (inflight_of j nodes) (r j))
        | inr e ↦ ground (arith, up, down)
      ]
