-- ===== src/Pool/Startup.antt =====
-- internal/infrastructure/containerBasic/container.go, NewDockerClient, and the pool's part of
-- internal/infrastructure/config/initConfig.go: the sizes of the pools, and how the containers are
-- looked at and started before the first request. The docker daemon's answers are arguments.
use code_runner_backend.Prelude.{
  ℕ, zero, suc, ◌+◌, Bool, true, List, [], ◌∷◌, ◌++◌, Option, if◌then◌else◌, keep,
}
use code_runner_backend.Prelude.Int.{ℤ, pos, negsuc}
use code_runner_backend.Prelude.Text.{Text, codes, same, decimal}
use code_runner_backend.Prelude.TextMap.{TextMap, of_list}
use code_runner_backend.Pool.{ContainerPool, new_container_pool, lang_host_dir, text_at}

pub record ContainerPoolConfig : Type 0 where
  pub golang : ℤ
  pub python : ℤ
  pub javascript : ℤ
  pub java : ℤ
  pub c : ℤ

abbrev pub at_least_one : ℤ → ℕ
at_least_one (pos zero) = 1
at_least_one (pos (suc n)) = suc n
at_least_one (negsuc n) = 1

-- ToPoolSizes, in the order of the literal.
unfoldable pub to_pool_sizes : ContainerPoolConfig → List (Text × ℕ)
to_pool_sizes cfg =
    (codes "golang", at_least_one cfg.golang)
    ∷ (codes "python", at_least_one cfg.python)
    ∷ (codes "javascript", at_least_one cfg.javascript)
    ∷ (codes "java", at_least_one cfg.java)
    ∷ (codes "c", at_least_one cfg.c)
    ∷ []

unfoldable pub images : TextMap Text
unfolding of_list
images = of_list (
    (codes "golang", codes "code-runner-go")
    ∷ (codes "java", codes "code-runner-java")
    ∷ (codes "c", codes "code-runner-cpp")
    ∷ (codes "python", codes "code-runner-python")
    ∷ (codes "javascript", codes "code-runner-js")
    ∷ [])

abbrev pub languages : List Text
languages = codes "golang" ∷ codes "c" ∷ codes "java" ∷ codes "python" ∷ codes "javascript" ∷ []

pub record Container : Type 0 where
  pub name : Text
  pub is_running : Bool

-- `matches`: does the filter for a name let a container through? `list_fails`, `start_fails`: the calls
-- for a name that give an error.
pub record Daemon : Type 0 where
  pub matches : Text → Text → Bool
  pub list_fails : Text → Bool
  pub start_fails : Text → Bool

abbrev started : Text → List Container → List Container
started name [] = []
started name (c ∷ cs) =
    let rest = started name cs in
    if same c.name name then record c { is_running = true } ∷ rest else c ∷ rest

-- ensureContainerExistsByName: the first container that the filter lets through is looked at.
unfoldable pub ensure_container : Daemon → Text → List Container → List Container
ensure_container d name cs =
    if d.list_fails name then cs else elim (keep (λ c. d.matches name c.name) cs) [
      | [] ↦ cs
      | c ∷ _ ↦ if c.is_running then cs else if d.start_fails c.name then cs else started c.name cs
    ]

-- The directories that were asked for, and the containers.
pub record Host : Type 0 where
  pub directories : List Text
  pub containers : List Container

-- The loop over the containers of a language, `rounds` rounds from `i` on.
unfoldable pub prepare_lang : Daemon → Text → Text → ℕ → ℕ → Host → Host
unfolding ensure_container
prepare_lang d prefix dir zero i h = h
prepare_lang d prefix dir (suc rounds) i h = prepare_lang d prefix dir rounds (i + 1) (record {
  directories = (codes "/app/tmp/" ++ dir ++ b'-' ∷ decimal i) ∷ h.directories;
  containers = ensure_container d (prefix ++ b'-' ∷ decimal i) h.containers;
})

abbrev size_at : Text → List (Text × ℕ) → ℕ
size_at lang [] = 0
size_at lang ((l, n) ∷ sizes) = if same l lang then n else size_at lang sizes

unfoldable pub prepare : Daemon → List (Text × ℕ) → List Text → Host → Host
unfolding prepare_lang
prepare d sizes [] h = h
prepare d sizes (lang ∷ langs) h =
    prepare d sizes langs
      (prepare_lang d (text_at lang images) (text_at lang lang_host_dir) (size_at lang sizes) 0 h)

-- NewDockerClient: the pool, and the host afterwards.
unfoldable pub new_docker_client : ContainerPoolConfig → Daemon → Host → Option ContainerPool × Host
unfolding to_pool_sizes prepare
new_docker_client cfg d h =
    let sizes = to_pool_sizes cfg in (new_container_pool sizes images, prepare d sizes languages h)
