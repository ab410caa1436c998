-- ===== src/Manager/Registry.antt =====
-- clientManager.go: the table of clients and the balancer name the same workers.
use code_runner_backend.Prelude.{
  ℕ, ◌≡◌, ◌∙◌, inl, inr, Bool, true, false, not, ◌&&◌, Option, none, some, arith, Option-cases,
  Bool-cases,
}
use code_runner_backend.Prelude.Text.{Text, same_iff}
use code_runner_backend.Prelude.TextMap.{load, load-store, load-delete}
use code_runner_backend.Prelude.Int.{ℤ}
use code_runner_backend.Balancer.{LoadBalancer}
use code_runner_backend.Manager.{Client, Manager, add_client, remove_client, done}

abbrev pub is_some {ℓ} : {A : Type ℓ} → Option A → Bool
is_some none = false
is_some (some _) = true

module _ (b : LoadBalancer) where
  open b use {State, Env}

  -- The balancer is sound; a client is filed under its own id; and every node has a client, every
  -- client a node.
  pub record IsCoherent (s : Manager State) : Type 0 where
    pub sound : b.IsSound s.balancer
    pub filed : (j : Text) (c : Client) → load j s.clients ≡ some c → c.id ≡ j
    pub matched : (j : Text) → b.has s.balancer j ≡ is_some (load j s.clients)

  pub add_client-IsCoherent :
      (id : Text) (weight : ℤ) (now : ℕ) (s : Manager State)
      → IsCoherent s
      → IsCoherent (add_client b id weight now s)
  unfolding add_client
  add_client-IsCoherent id weight now s v =
      let c : Client = record { id = id; is_closed = false } in
      record {
        sound = b.add-IsSound id weight now s.balancer v.sound;
        filed = λ j d h. ground (arith, load-store id j c s.clients, same_iff id j, v.filed j d);
        matched = λ j.
            ground (
              arith,
              b.has-add id weight now s.balancer j,
              load-store id j c s.clients,
              v.matched j,
            );
      }

  pub remove_client-IsCoherent :
      (close_fails : Bool) (id : Text) (s : Manager State)
      → IsCoherent s
      → IsCoherent (remove_client b close_fails id s).1
  unfolding remove_client
  remove_client-IsCoherent close_fails id s v = elim (Option-cases (load id s.clients)) [
    | inl e ↦ rw (e, remove_client) v
    | inr (c, e) ↦ elim (Bool-cases (not c.is_closed && close_fails)) [
      | inl stays ↦
          let d : Client = record c { is_closed = true } in
          rw (e, remove_client)
            (rw stays (record {
              sound = v.sound;
              filed = λ j x h.
                  ground
                    (arith, load-store id j d s.clients, same_iff id j, v.filed j x, v.filed id c);
              matched =
                  λ j. ground (arith, load-store id j d s.clients, same_iff id j, v.matched j);
            }))
      | inr goes ↦
          rw (e, remove_client)
            (rw goes (record {
              sound = b.remove-IsSound id s.balancer v.sound;
              filed = λ j x h. ground (arith, load-delete id j s.clients, v.filed j x);
              matched = λ j. ground (
                arith,
                b.has-remove id s.balancer j v.sound,
                load-delete id j s.clients,
                v.matched j,
              );
            }))
    ]
  ]

  balancer-IsCoherent :
      (s : Manager State) (t : State)
      → b.IsSound t
      → ((j : Text) → b.has t j ≡ b.has s.balancer j)
      → IsCoherent s
      → IsCoherent (record s { balancer = t })
  balancer-IsCoherent s t ok same_nodes v = record {
    sound = ok;
    filed = v.filed;
    matched = λ j. same_nodes j ∙ v.matched j;
  }

  pub got-IsCoherent :
      (env : Env) (s : Manager State)
      → IsCoherent s
      → IsCoherent (record s { balancer = (b.get env s.balancer).1 })
  got-IsCoherent env s v =
      balancer-IsCoherent s (b.get env s.balancer).1 (b.get-IsSound env s.balancer v.sound)
        (b.has-get env s.balancer) v

  pub done-IsCoherent :
      (id : Text) (took : ℕ) (failed : Bool) (now : ℕ) (s : Manager State)
      → IsCoherent s
      → IsCoherent (done b id took failed now s)
  unfolding done
  done-IsCoherent id took failed now s v =
      balancer-IsCoherent s (b.done id took failed now s.balancer)
        (b.done-IsSound id took failed now s.balancer v.sound)
        (b.has-done id took failed now s.balancer) v

  -- A node that Get names has a client, filed under its name.
  pub chosen-client :
      (env : Env) (s : Manager State) (id : Text)
      → IsCoherent s
      → (b.get env s.balancer).0 ≡ some id
      → (c : Client) × (load id s.clients ≡ some c) × (c.id ≡ id)
  chosen-client env s id v g = elim (Option-cases (load id s.clients)) [
    | inl e ↦ absurd (ground (arith, v.matched id, b.get-has env s.balancer id g))
    | inr (c, e) ↦ (c, e, v.filed id c e)
  ]
