-- ===== src/Balancer/WeightedRr/Ghost.antt =====
-- weightedRR.go: a node's weight as what was added to it, less what was taken from it.
use code_runner_backend.Prelude.{
  ℕ, zero, suc, ◌+◌, ◌<◌, ◌≡◌, ◌⊎◌, refl, ap, subst, sym, ◌∙◌, Bool, true, false, ◌||◌, List, [],
  ◌∷◌, Option, none, some, ltb, arith, inl, inr, Bool-cases, All,
}
use code_runner_backend.Prelude.Int.{
  ℤ, pos, negsuc, sub_ℕ, ltb_ℤ, ◌+ℤ◌, ◌-ℤ◌, wrap64, wrap64-InRange64, half_range, InRange64,
}
use code_runner_backend.Prelude.Text.{Text}
use code_runner_backend.Balancer.WeightedRr.{WeightNode, is_better, keep_best, next_loop}

-- `up` was added in the loops of Next, `down` was taken where the node was the best, `picks` times.
pub record Share : Type 0 where
  pub server_id : Text
  pub weight : ℕ
  pub up : ℕ
  pub down : ℕ
  pub picks : ℕ

abbrev pub view : Share → WeightNode
view g = record { server_id = g.server_id; cur_weight = sub_ℕ g.up g.down; weight = pos g.weight }

abbrev pub views : List Share → List WeightNode
views [] = []
views (g ∷ gs) = view g ∷ views gs

abbrev pub raise : List Share → List Share
raise [] = []
raise (g ∷ gs) = record g { up = g.up + g.weight } ∷ raise gs

-- The node with this index is taken, in a list of nodes with the total `w`.
abbrev pub bump : ℕ → ℕ → List Share → List Share
bump i w [] = []
bump zero w (g ∷ gs) = record g { down = g.down + w; picks = suc g.picks } ∷ gs
bump (suc i) w (g ∷ gs) = g ∷ bump i w gs

-- Far from the ends of int64.
abbrev pub Small : ℕ → Share → Type 0
Small w g = (g.up + g.weight + w < half_range) × (g.down < g.up + w)

sub-add_exact : (u d w : ℕ) → sub_ℕ u d +ℤ pos w ≡ sub_ℕ (u + w) d
unfolding ◌+ℤ◌
sub-add_exact u d w = ground arith

sub-take_exact : (u d w : ℕ) → sub_ℕ u d -ℤ pos w ≡ sub_ℕ u (d + w)
unfolding ◌-ℤ◌
sub-take_exact u d w = ground arith

sub-InRange : (u d : ℕ) → u < half_range → d < half_range → InRange64 (sub_ℕ u d)
sub-InRange u d h k = ground (arith, h, k)

sub-add :
    (u d w : ℕ)
    → u + w < half_range
    → d < half_range
    → wrap64 (sub_ℕ u d +ℤ pos w) ≡ sub_ℕ (u + w) d
sub-add u d w h k =
    ap wrap64 (sub-add_exact u d w) ∙ wrap64-InRange64 (sub_ℕ (u + w) d) (sub-InRange (u + w) d h k)

pub sub-take :
    (u d w : ℕ)
    → u < half_range
    → d + w < half_range
    → wrap64 (sub_ℕ u d -ℤ pos w) ≡ sub_ℕ u (d + w)
sub-take u d w h k =
    ap wrap64 (sub-take_exact u d w)
    ∙ wrap64-InRange64 (sub_ℕ u (d + w)) (sub-InRange u (d + w) h k)

-- A best node so far whose weight is positive.
abbrev pub is_positive : Option (ℕ × ℤ) → Bool
is_positive none = false
is_positive (some (i, v)) = ltb_ℤ (pos 0) v

abbrev pub any_positive : List Share → Bool
any_positive [] = false
any_positive (g ∷ gs) = ltb g.down g.up || any_positive gs

abbrev pub weight_at : ℕ → List Share → Option ℤ
weight_at i [] = none
weight_at zero (g ∷ gs) = some (sub_ℕ g.up g.down)
weight_at (suc i) (g ∷ gs) = weight_at i gs

-- The best node is the one so far, or one of these.
abbrev pub IsBest : ℕ → Option (ℕ × ℤ) → List Share → Option (ℕ × ℤ) → Type 0
IsBest i best gs f =
    (f ≡ best) ⊎ ((j : ℕ) × (v : ℤ) × (f ≡ some (i + j, v)) × (weight_at j gs ≡ some v))

abbrev raised : Share → Share
raised g = record g { up = g.up + g.weight }

abbrev after_raise : ℕ → Option (ℕ × ℤ) → Share → List WeightNode → List WeightNode × Option (ℕ × ℤ)
after_raise i best g ns =
    let (rest, f) = next_loop (suc i) (keep_best i (sub_ℕ (g.up + g.weight) g.down) best) ns in
    (view (raised g) ∷ rest, f)

next_loop-cons :
    (w i : ℕ) (best : Option (ℕ × ℤ)) (g : Share) (ns : List WeightNode)
    → Small w g
    → next_loop i best (view g ∷ ns) ≡ after_raise i best g ns
unfolding next_loop
next_loop-cons w i best g ns h =
    ap
      (λ c.
        let (rest, f) = next_loop (suc i) (keep_best i c best) ns in
        (record (view g) { cur_weight = c } ∷ rest, f))
      (sub-add g.up g.down g.weight (ground (arith, h)) (ground (arith, h)))

-- Best of a node and the ones behind it.
IsBest-cons :
    (i : ℕ) (best : Option (ℕ × ℤ)) (g : Share) (gs : List Share) (f : Option (ℕ × ℤ))
    → IsBest (suc i) (keep_best i (sub_ℕ g.up g.down) best) gs f
    → IsBest i best (g ∷ gs) f
unfolding keep_best
IsBest-cons i best g gs f (inr (j, v, e, k)) = inr (suc j, v, ground (arith, e), k)
IsBest-cons i best g gs f (inl e) = elim (Bool-cases (is_better (sub_ℕ g.up g.down) best)) [
  | inl b ↦ inr (0, sub_ℕ g.up g.down, ground (arith, e, b), refl)
  | inr b ↦ inl (ground (arith, e, b))
]

pub next_loop-IsBest :
    (w i : ℕ) (best : Option (ℕ × ℤ)) (gs : List Share)
    → All (Small w) gs
    → ((next_loop i best (views gs)).0 ≡ views (raise gs))
      × IsBest i best (raise gs) (next_loop i best (views gs)).1
unfolding next_loop
next_loop-IsBest w i best [] h = (refl, inl refl)
next_loop-IsBest w i best (g ∷ gs) h =
    let q = next_loop-cons w i best g (views gs) h.0 in
    let b' = keep_best i (sub_ℕ (g.up + g.weight) g.down) best in
    let (r, f) = next_loop-IsBest w (suc i) b' gs h.1 in
    (
      ap (λ p. p.0) q ∙ ap (λ ns. view (raised g) ∷ ns) r,
      subst (λ p. IsBest i best (raise (g ∷ gs)) p) (sym (ap (λ p. p.1) q))
          (IsBest-cons i best (raised g) (raise gs) (next_loop (suc i) b' (views gs)).1 f),
    )

keep_best-positive :
    (i : ℕ) (best : Option (ℕ × ℤ)) (u d : ℕ)
    → (is_positive best || ltb d u) ≡ true
    → is_positive (keep_best i (sub_ℕ u d) best) ≡ true
unfolding keep_best
keep_best-positive i none u d e = ground (arith, e)
keep_best-positive i (some (j, pos n)) u d e = ground (arith, e)
keep_best-positive i (some (j, negsuc n)) u d e = ground (arith, e)

pub next_loop-positive :
    (w i : ℕ) (best : Option (ℕ × ℤ)) (gs : List Share)
    → All (Small w) gs
    → (is_positive best || any_positive (raise gs)) ≡ true
    → is_positive (next_loop i best (views gs)).1 ≡ true
unfolding next_loop
next_loop-positive w i best [] h e = ground (arith, e)
next_loop-positive w i best (g ∷ gs) h e =
    let b' = keep_best i (sub_ℕ (g.up + g.weight) g.down) best in
    ap (λ p. is_positive p.1) (next_loop-cons w i best g (views gs) h.0)
    ∙ next_loop-positive w (suc i) b' gs h.1
        (ground (arith, e, keep_best-positive i best (g.up + g.weight) g.down))
