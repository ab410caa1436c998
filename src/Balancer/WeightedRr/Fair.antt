-- ===== src/Balancer/WeightedRr/Fair.antt =====
-- weightedRR.go: in as many calls as the total of the weights, each node has its share.
use code_runner_backend.Prelude.{
  ℕ, zero, suc, ◌+◌, ◌*◌, ◌≤◌, ◌<◌, ◌≡◌, refl, ap, subst, sym, ◌∙◌, true, List, [], ◌∷◌, none, some,
  if◌then◌else◌, ◌==◌, arith, inl, inr, All, count_if,
}
use code_runner_backend.Prelude.Int.{ℤ, pos, ltb_ℤ, half_range}
use code_runner_backend.Prelude.Text.{Text}
use code_runner_backend.Balancer.WeightedRr.{
  WeightNode, WeightedRr, next_loop, lower_at, next, next_many,
}
use code_runner_backend.Balancer.WeightedRr.Ghost.{
  Share, views, raise, bump, weight_at, next_loop-IsBest, next_loop-positive,
}
use code_runner_backend.Balancer.WeightedRr.Step.{
  sum_up, sum_down, sum_weight, Steady, All-Small, raise-Steady, raise-IsRaised, bump-Steady,
  lower_at-bump, positive_exists, sum_up-raise, sum_down-raise, sum_weight-raise, bump-sums,
}

-- The state after `k` calls on a fresh list with the total `w`.
abbrev pub Even : ℕ → ℕ → List Share → Type 0
Even w k gs = All (Steady w k) gs × (sum_up gs ≡ sum_down gs) × (sum_weight gs ≡ w)

abbrev pub wrr : ℕ → List Share → WeightedRr
wrr w gs = record { nodes = views gs; total_weight = pos w }

next_lem :
    (total : ℤ) (ns up : List WeightNode) (j : ℕ) (x : ℤ)
    → (next_loop 0 none ns).0 ≡ up
    → (next_loop 0 none ns).1 ≡ some (j, x)
    → next (record { nodes = ns; total_weight = total })
      ≡ (some j, record { nodes = lower_at j total up; total_weight = total })
unfolding next
next_lem total ns up j x q f = ground (arith, q, f)

-- Next takes a node, and the state stays even.
next-Even :
    (w k : ℕ) (gs : List Share)
    → k < w
    → w * w + w < half_range
    → Even w k gs
    → (j : ℕ) × (x : ℤ) × (next (wrr w gs) ≡ (some j, wrr w (bump j w (raise gs))))
      × (weight_at j (raise gs) ≡ some x)
      × Even w (suc k) (bump j w (raise gs))
next-Even w k gs h b (v, e, t) =
    let small = All-Small w k gs h b v in
    let up = sum_up-raise gs in
    let down = sum_down-raise gs in
    let total = sum_weight-raise gs in
    let some_up = positive_exists (raise gs) (omega (arith, up, down, e, t, h)) in
    let positive = next_loop-positive w 0 none gs small some_up in
    let (q, best) = next_loop-IsBest w 0 none gs small in
    elim best [
      | inl none_best ↦ absurd (ground (arith, positive, none_best))
      | inr (j, x, f, at) ↦
          let p : ltb_ℤ (pos 0) x ≡ true = ground (arith, positive, f) in
          let (u, d, s) = bump-sums w j (raise gs) x at in
          (
            j,
            x,
            next_lem (pos w) (views gs) (views (raise gs)) j x q (ground (arith, f))
                ∙ ap (λ ns. (some j, record { nodes = ns; total_weight = pos w }))
                    (lower_at-bump w j (raise gs) x (raise-IsRaised w gs small) at p),
            at,
            (
              bump-Steady w (suc k) j (raise gs) x (raise-Steady w k gs v) at p,
              omega (arith, u, d, up, down, e, t),
              omega (arith, s, total, t),
            ),
          )
    ]

-- How often the node with an index was taken.
abbrev pub picks_at : ℕ → List Share → ℕ
picks_at i [] = 0
picks_at zero (g ∷ gs) = g.picks
picks_at (suc i) (g ∷ gs) = picks_at i gs

picks_at-bump :
    (i j w : ℕ) (gs : List Share) (x : ℤ)
    → weight_at j gs ≡ some x
    → picks_at i (bump j w gs) ≡ (if j == i then suc (picks_at i gs) else picks_at i gs)
picks_at-bump i j w [] x e = absurd (cc)
picks_at-bump zero zero w (g ∷ gs) x e = refl
picks_at-bump (suc i) zero w (g ∷ gs) x e = ground arith
picks_at-bump zero (suc j) w (g ∷ gs) x e = ground arith
picks_at-bump (suc i) (suc j) w (g ∷ gs) x e = ground (arith, picks_at-bump i j w gs x e)

picks_at-raise : (i : ℕ) (gs : List Share) → picks_at i (raise gs) ≡ picks_at i gs
picks_at-raise i [] = refl
picks_at-raise zero (g ∷ gs) = refl
picks_at-raise (suc i) (g ∷ gs) = picks_at-raise i gs

-- The nodes and their weights.
abbrev pub Member : Type 0
Member = Text × ℕ

abbrev pub members : List Share → List Member
members [] = []
members (g ∷ gs) = (g.server_id, g.weight) ∷ members gs

members-step : (j w : ℕ) (gs : List Share) → members (bump j w (raise gs)) ≡ members gs
members-step j w [] = refl
members-step zero w (g ∷ gs) = ap (λ ms. (g.server_id, g.weight) ∷ ms) (raised gs)
  where
    raised : (gs : List Share) → members (raise gs) ≡ members gs
    raised [] = refl
    raised (g ∷ gs) = ap (λ ms. (g.server_id, g.weight) ∷ ms) (raised gs)
members-step (suc j) w (g ∷ gs) = ap (λ ms. (g.server_id, g.weight) ∷ ms) (members-step j w gs)

-- What `n` calls from an even state come to: an even state over the same nodes, in which each node was
-- taken as often more as its index was returned.
abbrev pub Reached : ℕ → ℕ → List Share → List ℕ × WeightedRr → Type 0
Reached w k gs (taken, s) =
    (after : List Share) × (s ≡ wrr w after)
    × Even w k after
    × (members after ≡ members gs)
    × ((i : ℕ) → picks_at i after ≡ picks_at i gs + count_if (λ j. j == i) taken)

abbrev cons_taken : ℕ → List ℕ × WeightedRr → List ℕ × WeightedRr
cons_taken j (taken, s) = (j ∷ taken, s)

next_many-suc :
    (n j : ℕ) (s t : WeightedRr)
    → next s ≡ (some j, t)
    → next_many (suc n) s ≡ cons_taken j (next_many n t)
unfolding next_many
next_many-suc n j s t e =
    ap (λ p. elim p.0 [ none ↦ next_many n p.1 | some i ↦ cons_taken i (next_many n p.1) ]) e

pub next_many-Reached :
    (n w k : ℕ) (gs : List Share)
    → k + n ≤ w
    → w * w + w < half_range
    → Even w k gs
    → Reached w (k + n) gs (next_many n (wrr w gs))
unfolding next_many
next_many-Reached zero w k gs h b v =
    (gs, refl, subst (λ m. Even w m gs) (omega arith) v, refl, λ i. omega arith)
next_many-Reached (suc n) w k gs h b v =
    let (j, x, e, at, v') = next-Even w k gs (omega (arith, h)) b v in
    let (after, s, even, same_members, counted) =
      next_many-Reached n w (suc k) (bump j w (raise gs)) (omega (arith, h)) b v' in
    subst (Reached w (k + suc n) gs)
      (sym (next_many-suc n j (wrr w gs) (wrr w (bump j w (raise gs))) e))
      (
        after,
        s,
        subst (λ m. Even w m after) (omega arith) even,
        same_members ∙ members-step j w gs,
        λ i. ground (arith, counted i, picks_at-bump i j w (raise gs) x at, picks_at-raise i gs),
      )
