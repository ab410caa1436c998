-- ===== src/Runner/Served.antt =====
-- container.go, pool.go and runCode.go together: the languages that a new worker can run.
use code_runner_backend.Prelude.{
  zero, suc, ◌≡◌, ◌⊎◌, refl, ap, ◌∙◌, Bool, true, false, List, [], ◌∷◌, Option, none, some, arith,
  inl, inr, Option-cases, every,
}
use code_runner_backend.Prelude.Int.{ℤ, pos, negsuc}
use code_runner_backend.Prelude.Text.{Text, codes, same, lower, trim_space}
use code_runner_backend.Prelude.TextMap.{of_list, load, load-of_list, store}
use code_runner_backend.Prelude.Chan.{receive}
use code_runner_backend.Pool.{
  ContainerSlot, LangPool, ContainerPool, acquire, got, text_at, lang_host_dir,
}
use code_runner_backend.Pool.Setup.{slots, full_pool, configured, new_container_pool_lem}
use code_runner_backend.Pool.Startup.{
  ContainerPoolConfig, Daemon, Host, to_pool_sizes, images, at_least_one, new_docker_client,
}
use code_runner_backend.Runner.Language.{
  alias_entries, normalize_lang, has_runtime, alias-has_runtime,
}

-- Is there a container for a language, at the start?
abbrev has_size : Option LangPool → Bool
has_size none = false
has_size (some lp) = elim lp.idle.buffer [ [] ↦ false | _ ∷ _ ↦ true ]

first_slot :
    (prefix dir : Text) (z : ℤ)
    → (elim (slots prefix dir (at_least_one z) 0) as (λ l. Bool) [ [] ↦ false | _ ∷ _ ↦ true ])
      ≡ true
unfolding slots
first_slot prefix dir (pos zero) = refl
first_slot prefix dir (pos (suc n)) = refl
first_slot prefix dir (negsuc n) = refl

-- Of a language in the configuration.
sized_slot : (lang : Text) (z : ℤ) → has_size (some (full_pool images lang (at_least_one z))) ≡ true
unfolding full_pool
sized_slot lang z = first_slot (text_at lang images) (text_at lang lang_host_dir) z

aliases_sized :
    (cfg : ContainerPoolConfig)
    → every
        (λ (e : Text × Text). has_size (configured images e.1 (to_pool_sizes cfg) none))
        alias_entries
      ≡ true
unfolding alias_entries configured to_pool_sizes same
aliases_sized cfg = ground (
  arith,
  sized_slot (codes "golang") cfg.golang,
  sized_slot (codes "python") cfg.python,
  sized_slot (codes "javascript") cfg.javascript,
  sized_slot (codes "java") cfg.java,
  sized_slot (codes "c") cfg.c,
)

List-cases :
    (l : List ContainerSlot)
    → (l ≡ []) ⊎ ((a : ContainerSlot) × (r : List ContainerSlot) × (l ≡ a ∷ r))
List-cases [] = inl refl
List-cases (a ∷ r) = inr (a, r, refl)

acquire_first :
    (p : ContainerPool) (lang : Text)
    → p.closed ≡ false
    → has_size (load lang p.pools) ≡ true
    → (slot : ContainerSlot) × (q : ContainerPool) × (acquire p lang false ≡ got slot q)
unfolding acquire receive
acquire_first p lang o h = elim (Option-cases (load lang p.pools)) [
  | inl e ↦ absurd (ground (arith, h, e))
  | inr (lp, e) ↦ elim (List-cases lp.idle.buffer) [
    | inl f ↦ absurd (ground (arith, h, e, f))
    | inr (a, r, f) ↦ (
      a,
      record p { pools = store lang (record lp { idle = record lp.idle { buffer = r } }) p.pools },
      ground (arith, o, e, f),
    )
  ]
]

-- Whatever the configuration says and however the docker daemon answers, the start makes a pool, and a
-- first request in a language by any of its names, in any case and with white space round it, gets a
-- container from it, and a language that has a file extension and a command.
pub new_docker_client-serves :
    (cfg : ContainerPoolConfig) (d : Daemon) (h : Host) (lang v : Text)
    → load (lower (trim_space lang)) (of_list alias_entries) ≡ some v
    → (p : ContainerPool) × ((new_docker_client cfg d h).0 ≡ some p)
      × (has_runtime (normalize_lang lang) ≡ true)
      × ((slot : ContainerSlot) × (q : ContainerPool) × (acquire p (normalize_lang lang) false
            ≡ got slot q))
unfolding new_docker_client
new_docker_client-serves cfg d h lang v e =
    let (named, runs) = alias-has_runtime lang v e in
    let (p, made, open_, there) = new_container_pool_lem (to_pool_sizes cfg) images in
    let sized =
      load-of_list (λ w. has_size (configured images w (to_pool_sizes cfg) none))
        (lower (trim_space lang)) alias_entries (aliases_sized cfg) e in
    let at_name = ap (λ w. has_size (load w p.pools)) named ∙ ap has_size (there v) ∙ sized in
    (p, made, ap has_runtime named ∙ runs, acquire_first p (normalize_lang lang) open_ at_name)
