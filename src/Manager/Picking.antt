-- ===== src/Manager/Picking.antt =====
-- clientManager.go, GetClientByBalance: the retry loop over workers that may have closed.
use code_runner_backend.Prelude.{
  ℕ, zero, suc, ◌+◌, ◌<◌, ◌≤◌, ◌≡◌, refl, sym, subst, ap, ◌∙◌, inl, inr, Bool, true, false, not,
  ◌&&◌, List, [], ◌∷◌, none, some, arith, if◌then◌else◌, Option-cases, Bool-cases, any, keep,
  length,
}
use code_runner_backend.Prelude.Text.{Text, same, same_iff}
use code_runner_backend.Prelude.TextMap.{load, delete, load-delete}
use code_runner_backend.Balancer.{LoadBalancer}
use code_runner_backend.Manager.{Client, Manager, remove_client, pick_loop, get_client_by_balance}
use code_runner_backend.Manager.Registry.{
  IsCoherent, remove_client-IsCoherent, got-IsCoherent, chosen-client,
}

-- The list of names without one of them.
abbrev pub others : Text → List Text → List Text
others id = keep (λ d. not (same d id))

any-others :
    (id j : Text) (ds : List Text)
    → any (λ d. same d j) ds ≡ true
    → same id j ≡ false
    → any (λ d. same d j) (others id ds) ≡ true
any-others id j [] h n = h
any-others id j (d ∷ ds) h n =
    ground (arith, any-others id j ds, same_iff d id, same_iff d j, same_iff id j)

length-others-le : (id : Text) (ds : List Text) → length (others id ds) ≤ length ds
length-others-le id [] = omega arith
length-others-le id (d ∷ ds) = ground (arith, length-others-le id ds)

length-others-lt :
    (id : Text) (ds : List Text)
    → any (λ d. same d id) ds ≡ true
    → length (others id ds) < length ds
length-others-lt id [] h = absurd (cc)
length-others-lt id (d ∷ ds) h = ground (arith, length-others-lt id ds, length-others-le id ds)

module _ (b : LoadBalancer) where
  open b use {State, Env}

  -- A worker that is registered and not closed.
  abbrev pub is_live : Manager State → Text → Bool
  is_live s id = elim (load id s.clients) [ none ↦ false | some c ↦ not c.is_closed ]

  -- What the loop does in one round of a coherent manager.
  abbrev got : (ℕ → Env) → ℕ → Manager State → Manager State
  got envs i s = record s { balancer = (b.get (envs i) s.balancer).1 }

  data Round (left i : ℕ) (envs : ℕ → Env) (s : Manager State) : Type 0 where
    nobody :
        (b.get (envs i) s.balancer).0 ≡ none
        → pick_loop b (suc left) i envs s ≡ (none, got envs i s)
        → Round left i envs s
    taken :
        (c : Client)
        → (b.get (envs i) s.balancer).0 ≡ some c.id
        → load c.id s.clients ≡ some c
        → c.is_closed ≡ false
        → pick_loop b (suc left) i envs s ≡ (some c, got envs i s)
        → Round left i envs s
    dropped :
        (c : Client)
        → load c.id s.clients ≡ some c
        → c.is_closed ≡ true
        → pick_loop b (suc left) i envs s
          ≡ pick_loop b left (i + 1) envs (remove_client b false c.id (got envs i s)).1
        → Round left i envs s

  round : (left i : ℕ) (envs : ℕ → Env) (s : Manager State) → IsCoherent b s → Round left i envs s
  unfolding pick_loop
  round left i envs s v = elim (Option-cases (b.get (envs i) s.balancer).0) [
    | inl e ↦ nobody e (rw (e, pick_loop) refl)
    | inr (id, e) ↦
        let (c, f, name) = chosen-client b (envs i) s id v e in
        let own : load c.id s.clients ≡ some c =
          subst (λ t. load t s.clients ≡ some c) (sym name) f in
        elim (Bool-cases c.is_closed) [
          | inl shut ↦ dropped c own shut (rw (e, pick_loop) (rw f (rw shut refl)))
          | inr up ↦ taken c (e ∙ ap some (sym name)) own up (rw (e, pick_loop) (rw f (rw up refl)))
        ]
  ]

  -- The loop keeps the manager coherent, and a worker that it returns is registered, not closed, and
  -- a node of the balancer.
  pick_loop-IsCoherent :
      (left i : ℕ) (envs : ℕ → Env) (s : Manager State)
      → IsCoherent b s
      → IsCoherent b (pick_loop b left i envs s).1
  unfolding pick_loop
  pick_loop-IsCoherent zero i envs s v = v
  pick_loop-IsCoherent (suc left) i envs s v = elim (round left i envs s v) [
    | nobody g e ↦ rw e (got-IsCoherent b (envs i) s v)
    | taken c g f up e ↦ rw e (got-IsCoherent b (envs i) s v)
    | dropped c f shut e ↦ rw e (
        pick_loop-IsCoherent left (i + 1) envs (remove_client b false c.id (got envs i s)).1
          (remove_client-IsCoherent b false c.id (got envs i s) (got-IsCoherent b (envs i) s v)))
  ]

  pick_loop_live :
      (left i : ℕ) (envs : ℕ → Env) (s : Manager State) (c : Client)
      → IsCoherent b s
      → (pick_loop b left i envs s).0 ≡ some c
      → let t = (pick_loop b left i envs s).1 in
        (load c.id t.clients ≡ some c) × (c.is_closed ≡ false)
  unfolding pick_loop
  pick_loop_live zero i envs s c v h = absurd (cc)
  pick_loop_live (suc left) i envs s c v h = elim (round left i envs s v) [
    | nobody g e ↦ absurd (ground arith)
    | taken d g f up e ↦ let here : d ≡ c = ground arith in rw e (rw (← here) (f, up))
    | dropped d f shut e ↦ rw e (
        pick_loop_live left (i + 1) envs (remove_client b false d.id (got envs i s)).1 c
          (remove_client-IsCoherent b false d.id (got envs i s) (got-IsCoherent b (envs i) s v))
          (rw e at h))
  ]

  -- What taking out a closed worker does.
  removed-clients :
      (s : Manager State) (c : Client)
      → load c.id s.clients ≡ some c
      → c.is_closed ≡ true
      → (remove_client b false c.id s).1
        ≡ record s { clients = delete c.id s.clients; balancer = b.remove c.id s.balancer }
  unfolding remove_client
  removed-clients s c f shut = rw (f, remove_client) (rw shut refl)

  -- A round that took out a closed worker, seen from the nodes and the live workers.
  module _ (i : ℕ) (envs : ℕ → Env) (s : Manager State) (v : IsCoherent b s) (c : Client)
      (f : load c.id s.clients ≡ some c) (shut : c.is_closed ≡ true) where
    has-dropped :
        (j : Text)
        → b.has (remove_client b false c.id (got envs i s)).1.balancer j
          ≡ (not (same c.id j) && b.has s.balancer j)
    has-dropped j = rw (removed-clients (got envs i s) c f shut) (
        rw (← b.has-get (envs i) s.balancer j) (
          b.has-remove c.id (b.get (envs i) s.balancer).1 j
            (b.get-IsSound (envs i) s.balancer v.sound)))

    is_live-dropped :
        (j : Text)
        → is_live (remove_client b false c.id (got envs i s)).1 j
          ≡ (if same c.id j then false else is_live s j)
    is_live-dropped j =
        rw (removed-clients (got envs i s) c f shut) (ground (arith, load-delete c.id j s.clients))

    -- A live worker is not the one that went.
    live-other : (l : Text) → is_live s l ≡ true → same c.id l ≡ false
    live-other l live = ground (arith, same_iff c.id l)

  -- `ds` names every node whose worker is not live; the loop has more rounds than that.
  pick_loop_finds :
      (left i : ℕ) (envs : ℕ → Env) (s : Manager State) (ds : List Text) (l : Text)
      → IsCoherent b s
      → length ds < left
      → ((j : Text)
          → b.has s.balancer j ≡ true
          → is_live s j ≡ false
          → any (λ d. same d j) ds ≡ true)
      → b.has s.balancer l ≡ true
      → is_live s l ≡ true
      → (c : Client) × ((pick_loop b left i envs s).0 ≡ some c)
  unfolding pick_loop
  pick_loop_finds zero i envs s ds l v m dead has live = absurd (omega arith)
  pick_loop_finds (suc left) i envs s ds l v m dead has live = elim (round left i envs s v) [
    | nobody g e ↦ absurd (ground (arith, b.get_nobody (envs i) s.balancer g l))
    | taken c g f up e ↦ (c, rw e refl)
    | dropped c f shut e ↦
        let known : any (λ d. same d c.id) ds ≡ true =
          dead c.id (ground (arith, v.matched c.id)) (ground arith) in
        let other = live-other i envs s v c f shut l live in
        let (d, found) =
          pick_loop_finds left (i + 1) envs (remove_client b false c.id (got envs i s)).1
            (others c.id ds) l
            (remove_client-IsCoherent b false c.id (got envs i s) (got-IsCoherent b (envs i) s v))
            (omega (arith, length-others-lt c.id ds known))
            (λ j h n. ground (
              arith,
              has-dropped i envs s v c f shut j,
              is_live-dropped i envs s v c f shut j,
              dead j,
              any-others c.id j ds,
            ))
            (has-dropped i envs s v c f shut l ∙ ground arith)
            (is_live-dropped i envs s v c f shut l ∙ ground arith) in
        (d, rw e found)
  ]

  pub get_client_by_balance-IsCoherent :
      (envs : ℕ → Env) (s : Manager State)
      → IsCoherent b s
      → IsCoherent b (get_client_by_balance b envs s).1
  unfolding get_client_by_balance
  get_client_by_balance-IsCoherent envs s v = pick_loop-IsCoherent 3 0 envs s v

  -- Whatever the balancer chooses, GetClientByBalance returns only a registered worker that is open.
  pub get_client_by_balance_live :
      (envs : ℕ → Env) (s : Manager State) (c : Client)
      → IsCoherent b s
      → (get_client_by_balance b envs s).0 ≡ some c
      → (load c.id (get_client_by_balance b envs s).1.clients ≡ some c) × (c.is_closed ≡ false)
  unfolding get_client_by_balance
  get_client_by_balance_live envs s c v h = pick_loop_live 3 0 envs s c v h

  -- With a live worker among the nodes and at most two that are not live, GetClientByBalance finds a
  -- worker, whatever the balancer chooses.
  pub get_client_by_balance_finds :
      (envs : ℕ → Env) (s : Manager State) (ds : List Text) (l : Text)
      → IsCoherent b s
      → length ds ≤ 2
      → ((j : Text)
          → b.has s.balancer j ≡ true
          → is_live s j ≡ false
          → any (λ d. same d j) ds ≡ true)
      → b.has s.balancer l ≡ true
      → is_live s l ≡ true
      → (c : Client) × ((get_client_by_balance b envs s).0 ≡ some c)
  unfolding get_client_by_balance
  get_client_by_balance_finds envs s ds l v m dead has live =
      pick_loop_finds 3 0 envs s ds l v (omega arith) dead has live
