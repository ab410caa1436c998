-- ===== src/Agent/Settings.antt =====
-- internal/agent/config.go and internal/agent/ai: the settings of the agent, and the model that it
-- talks to. The library's NewChatModel is the argument `make`, which may fail; durations are `int64`
-- nanoseconds.
use code_runner_backend.Prelude.{
  ℕ, zero, suc, ◌*◌, ◌≤◌, ◌<◌, ◌≡◌, refl, Bool, false, Option, none, some, if◌then◌else◌, [],
  Result, ok, err, arith, inl, inr, Bool-cases, ap,
}
use code_runner_backend.Prelude.Int.{ℤ, pos, wrap64, wrap64-InRange64, half_range}
use code_runner_backend.Prelude.Text.{Text, codes, is_empty, same, same_iff}

-- What is configured for a provider.
pub record Access : Type 0 where
  pub api_key : Text
  pub model : Text
  pub base_url : Text

-- The fields of AgentConfig that the program reads.
pub record AgentConfig : Type 0 where
  pub enabled : Bool
  pub api_key : Text
  pub provider : Text
  pub max_steps : ℤ
  pub session_ttl : ℤ
  pub proposal_ttl : ℤ
  pub claude : Access
  pub openai : Access
  pub qwen : Access

-- Config of package ai.
pub record AiConfig : Type 0 where
  pub provider : Text
  pub claude : Access
  pub openai : Access
  pub qwen : Access

abbrev pub second : ℕ
second = 1_000_000_000

-- A number of seconds as a duration, or the default if it is not positive.
unfoldable pub seconds_or : ℕ → ℤ → ℤ
seconds_or default (pos (suc n)) = wrap64 (pos (suc n * second))
seconds_or default _ = pos (default * second)

unfoldable pub get_session_ttl : AgentConfig → ℤ
unfolding seconds_or
get_session_ttl c = seconds_or 3600 c.session_ttl

unfoldable pub get_proposal_ttl : AgentConfig → ℤ
unfolding seconds_or
get_proposal_ttl c = seconds_or 600 c.proposal_ttl

abbrev no_access : Access
no_access = record { api_key = []; model = []; base_url = [] }

unfoldable pub default_agent_config : AgentConfig
default_agent_config = record {
  enabled = false;
  api_key = [];
  provider = codes "claude";
  max_steps = pos 10;
  session_ttl = pos 3600;
  proposal_ttl = pos 600;
  claude = no_access;
  openai = no_access;
  qwen = no_access;
}

unfoldable pub to_ai_config : AgentConfig → AiConfig
to_ai_config c = record {
  provider = c.provider;
  claude = c.claude;
  openai = c.openai;
  qwen = c.qwen;
}

pub data ProviderError : Type 0 where
  no_api_key not_created : ProviderError
  unsupported : Text → ProviderError

abbrev or_default : Text → Text → Text
or_default default t = if is_empty t then default else t

abbrev created : {M : Type 0} → Option M → Result ProviderError M
created none = err not_created
created (some m) = ok m

unfoldable pub new_claude_provider :
    {M : Type 0} → (Access → Option M) → AiConfig → Result ProviderError M
new_claude_provider make cfg =
    if is_empty cfg.claude.api_key
    then err no_api_key
    else created (
        make (record {
          api_key = cfg.claude.api_key;
          model = or_default (codes "claude-opus-4-6") cfg.claude.model;
          base_url = or_default (codes "https://api.anthropic.com/v1") cfg.claude.base_url;
        }))

-- Without an address of its own the library takes its default, which the empty text stands for.
unfoldable pub new_openai_provider :
    {M : Type 0} → (Access → Option M) → AiConfig → Result ProviderError M
new_openai_provider make cfg =
    if is_empty cfg.openai.api_key
    then err no_api_key
    else created (
        make (record {
          api_key = cfg.openai.api_key;
          model = or_default (codes "gpt-4o") cfg.openai.model;
          base_url = cfg.openai.base_url;
        }))

unfoldable pub new_qwen_provider :
    {M : Type 0} → (Access → Option M) → AiConfig → Result ProviderError M
new_qwen_provider make cfg =
    if is_empty cfg.qwen.api_key
    then err no_api_key
    else created (
        make (record {
          api_key = cfg.qwen.api_key;
          model = or_default (codes "qwen-plus") cfg.qwen.model;
          base_url =
              or_default (codes "https://dashscope.aliyuncs.com/compatible-mode/v1")
                cfg.qwen.base_url;
        }))

unfoldable pub new_provider : {M : Type 0} → (Access → Option M) → AiConfig → Result ProviderError M
unfolding new_claude_provider new_openai_provider new_qwen_provider
new_provider make cfg =
    if same cfg.provider (codes "claude")
    then new_claude_provider make cfg
    else if same cfg.provider (codes "openai")
    then new_openai_provider make cfg
    else if same cfg.provider (codes "qwen")
    then new_qwen_provider make cfg
    else err (unsupported cfg.provider)

-- A number of seconds that a duration can hold gives a duration of a second at least, so that the
-- cleanup, which is due in a sixth of it, has a time to wait.
pub get_session_ttl-positive :
    (c : AgentConfig) (n : ℕ)
    → c.session_ttl ≡ pos n
    → n * second < half_range
    → (t : ℕ) × (get_session_ttl c ≡ pos t) × (second ≤ t)
unfolding get_session_ttl seconds_or
get_session_ttl-positive c zero e h = (3600 * second, rw (get_session_ttl, e) refl, omega arith)
get_session_ttl-positive c (suc n) e h = (
  suc n * second,
  rw (get_session_ttl, e, wrap64-InRange64 (pos (suc n * second)) (h, omega arith)) refl,
  omega arith,
)

-- The model depends on nothing but the name of the provider and what is configured for the provider
-- of that name: no key or address of another one is used.
pub new_provider_reads_own :
    {M : Type 0} (make : Access → Option M) (c d : AiConfig)
    → c.provider ≡ d.provider
    → (c.provider ≡ codes "claude" → c.claude ≡ d.claude)
    → (c.provider ≡ codes "openai" → c.openai ≡ d.openai)
    → (c.provider ≡ codes "qwen" → c.qwen ≡ d.qwen)
    → new_provider make c ≡ new_provider make d
unfolding new_provider new_claude_provider new_openai_provider new_qwen_provider
new_provider_reads_own make c d e a b q = elim (Bool-cases (same c.provider (codes "claude"))) [
  | inl t ↦
      rw (← e, t)
        (ap (λ x. new_claude_provider make (one x))
          (a ((same_iff c.provider (codes "claude")).0 t)))
  | inr f ↦ elim (Bool-cases (same c.provider (codes "openai"))) [
    | inl t ↦
        rw (← e, f, t)
          (ap (λ x. new_openai_provider make (one x))
            (b ((same_iff c.provider (codes "openai")).0 t)))
    | inr g ↦ elim (Bool-cases (same c.provider (codes "qwen"))) [
      | inl t ↦
          rw (← e, f, g, t)
            (ap (λ x. new_qwen_provider make (one x))
              (q ((same_iff c.provider (codes "qwen")).0 t)))
      | inr h ↦ rw (← e, f, g, h) refl
    ]
  ]
]
  where
    one : Access → AiConfig
    one x = record { provider = []; claude = x; openai = x; qwen = x }
