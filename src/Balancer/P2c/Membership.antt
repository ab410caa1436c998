-- ===== src/Balancer/P2c/Membership.antt =====
-- p2c.go: which nodes there are, and that the node which Get returns is one of them.
use code_runner_backend.Prelude.{
  ℕ, zero, suc, ◌-◌, ◌%◌, ◌<◌, ◌≡◌, refl, subst, ◌∙◌, inl, inr, ◌⊎◌, Bool, true, false, not, ◌&&◌,
  ◌||◌, List, [], ◌∷◌, ◌++◌, Option, none, some, arith, length, get_elem?, any, Bool-cases,
  Option-cases,
}
use code_runner_backend.Prelude.Text.{Text, same, same_iff}
use code_runner_backend.Prelude.Int.{ℤ}
use code_runner_backend.Balancer.P2c.{
  Floats, P2cNode, P2cEnv, modify_at, is_node, add, remove, pick, skip, choose_index, get_index,
  get, finish, done, new_p2c_node,
}

pub any-append {ℓ} :
    {A : Type ℓ} (p : A → Bool) (xs ys : List A) → any p (xs ++ ys) ≡ (any p xs || any p ys)
any-append p [] ys = refl
any-append p (x ∷ xs) ys = ground (arith, any-append p xs ys)

-- An update of one node that keeps what the test reads.
pub any-modify_at {ℓ} :
    {A : Type ℓ} (p : A → Bool) (f : A → A) (i : ℕ) (xs : List A)
    → ((x : A) → p (f x) ≡ p x)
    → any p (modify_at i f xs) ≡ any p xs
unfolding modify_at
any-modify_at p f i [] h = refl
any-modify_at p f zero (x ∷ xs) h = ground (arith, h x)
any-modify_at p f (suc i) (x ∷ xs) h = ground (arith, any-modify_at p f i xs h)

pub any-get_elem? {ℓ} :
    {A : Type ℓ} (p : A → Bool) (i : ℕ) (xs : List A) (x : A)
    → get_elem? xs i ≡ some x
    → p x ≡ true
    → any p xs ≡ true
any-get_elem? p i [] x e h = cc
any-get_elem? p zero (y ∷ ys) x e h = ground arith
any-get_elem? p (suc i) (y ∷ ys) x e h = ground (arith, any-get_elem? p i ys x)

pub get_elem?-below {ℓ} :
    {A : Type ℓ} (i : ℕ) (xs : List A) → i < length xs → (x : A) × (get_elem? xs i ≡ some x)
get_elem?-below i [] h = elim h [ ]
get_elem?-below zero (x ∷ xs) h = (x, refl)
get_elem?-below (suc i) (x ∷ xs) h = get_elem?-below i xs (omega arith)

module _ {F : Type 0} where
  -- The names of the nodes differ.
  abbrev pub Distinct : List (P2cNode F) → Type 0
  Distinct [] = Unit
  Distinct (n ∷ nodes) = (any (λ m. same m.server_id n.server_id) nodes ≡ false) × Distinct nodes

module _ (fl : Floats) where
  open fl use {F}

  abbrev pub has : List (P2cNode F) → Text → Bool
  has nodes id = any (is_node fl id) nodes

  pub has-add :
      (id : Text) (weight : ℤ) (now : ℕ) (nodes : List (P2cNode F)) (j : Text)
      → has (add fl id weight now nodes) j ≡ (same id j || has nodes j)
  unfolding add
  has-add id weight now nodes j = elim (Bool-cases (has nodes id)) [
    | inl old ↦ elim (Bool-cases (same id j)) [
      | inl e ↦ rw (old, add) (rw e (rw (← (same_iff id j).0 e) old))
      | inr e ↦ rw (old, add) (rw e refl)
    ]
    | inr new ↦
        rw (new, add)
          (ground (arith, any-append (is_node fl j) nodes (new_p2c_node fl id weight now ∷ [])))
  ]

  pub has-remove :
      (id : Text) (nodes : List (P2cNode F)) (j : Text)
      → Distinct nodes
      → has (remove fl id nodes) j ≡ (not (same id j) && has nodes j)
  unfolding remove
  has-remove id [] j d = ground arith
  has-remove id (n ∷ nodes) j d = elim (Bool-cases (same n.server_id id)) [
    | inl hit ↦ elim (Bool-cases (same id j)) [
      | inl e ↦
          let own : n.server_id ≡ j = (same_iff n.server_id id).0 hit ∙ (same_iff id j).0 e in
          rw (hit, remove) (rw e (subst (λ t. has nodes t ≡ false) own d.0))
      | inr e ↦ ground (arith, same_iff n.server_id id, same_iff n.server_id j, same_iff id j)
    ]
    | inr miss ↦ ground (
      arith,
      has-remove id nodes j d.1,
      same_iff n.server_id id,
      same_iff n.server_id j,
      same_iff id j,
    )
  ]

  pub has-done :
      (id : Text) (took : ℕ) (failed : Bool) (now : ℕ) (nodes : List (P2cNode F)) (j : Text)
      → has (done fl id took failed now nodes) j ≡ has nodes j
  unfolding done finish
  has-done id took failed now [] j = refl
  has-done id took failed now (n ∷ nodes) j = ground (arith, has-done id took failed now nodes j)

  pub has-get :
      (env : P2cEnv) (nodes : List (P2cNode F)) (j : Text)
      → has (get fl env nodes).1 j ≡ has nodes j
  unfolding get pick
  has-get env nodes j = elim (Option-cases (get_index fl env nodes)) [
    | inl e ↦ rw (e, get) refl
    | inr (i, e) ↦ elim (Option-cases (get_elem? nodes i)) [
      | inl x ↦ ground arith
      | inr (n, x) ↦
          rw (e, get)
            (rw x (any-modify_at (is_node fl j) (pick fl env.now_pick) i nodes (λ m. refl)))
    ]
  ]

  get_index-below :
      (env : P2cEnv) (nodes : List (P2cNode F))
      → ((nodes ≡ []) × (get_index fl env nodes ≡ none))
        ⊎ ((i : ℕ) × (get_index fl env nodes ≡ some i) × (i < length nodes))
  unfolding get_index
  get_index-below env [] = inl (refl, refl)
  get_index-below env (n ∷ []) = inr (0, refl, omega arith)
  get_index-below env (n ∷ m ∷ rest) =
      let nodes = n ∷ m ∷ rest in
      let a = env.first % length nodes in
      let b = skip fl a (env.second % (length nodes - 1)) in
      inr (
        choose_index fl env.now a b (get_elem? nodes a) (get_elem? nodes b),
        refl,
        chosen-below env.now a b (length nodes) (get_elem? nodes a) (get_elem? nodes b)
            (omega arith) (ground arith),
      )
    where
      chosen-below :
          (now a b k : ℕ) (x y : Option (P2cNode F))
          → a < k
          → b < k
          → choose_index fl now a b x y < k
      chosen-below now a b k none y p q = p
      chosen-below now a b k (some x) none p q = p
      chosen-below now a b k (some x) (some y) p q = ground arith

  -- With nodes, Get succeeds and names one of them; with none, it fails and changes nothing.
  pub get-cases :
      (env : P2cEnv) (nodes : List (P2cNode F))
      → ((nodes ≡ []) × (get fl env nodes ≡ (none, nodes)))
        ⊎ ((i : ℕ) × (n : P2cNode F) × (get_index fl env nodes ≡ some i)
            × (get_elem? nodes i ≡ some n)
            × (get fl env nodes ≡ (some n.server_id, modify_at i (pick fl env.now_pick) nodes)))
  unfolding get
  get-cases env nodes = elim (get_index-below env nodes) [
    | inl (e, x) ↦ inl (e, rw (x, get) refl)
    | inr (i, x, h) ↦
        let (n, y) = get_elem?-below i nodes h in inr (i, n, x, y, rw (x, get) (rw y refl))
  ]

  pub get-has :
      (env : P2cEnv) (nodes : List (P2cNode F)) (id : Text)
      → (get fl env nodes).0 ≡ some id
      → has nodes id ≡ true
  get-has env nodes id h = elim (get-cases env nodes) [
    | inl (e, x) ↦ absurd (ground arith)
    | inr (i, n, x, y, g) ↦
        any-get_elem? (is_node fl id) i nodes n y (ground (arith, same_iff n.server_id id))
  ]

  pub get_nobody :
      (env : P2cEnv) (nodes : List (P2cNode F))
      → (get fl env nodes).0 ≡ none
      → (id : Text) → has nodes id ≡ false
  get_nobody env nodes h id = elim (get-cases env nodes) [
    | inl (e, x) ↦ rw e refl
    | inr (i, n, x, y, g) ↦ absurd (ground arith)
  ]
