-- ===== src/Agent/Propose.antt =====
-- internal/agent/tools/propose_execution.go: the tool that proposes code. What the library keeps of
-- an interrupted call is an argument.
use code_runner_backend.Prelude.{
  ◌≡◌, refl, Bool, true, ◌&&◌, List, [], ◌∷◌, ◌++◌, Option, none, some, arith, every, inl, inr,
  Option-cases, Result, ok, err,
}
use code_runner_backend.Prelude.Text.{Text, codes, same, same_iff, trim_space, lower}
use code_runner_backend.Prelude.TextMap.{load, of_list, load-of_list}
use code_runner_backend.Agent.{ProposalInfo}
use code_runner_backend.Runner.Language.{
  normalize_lang, has_runtime, extension_entries, alias_entries,
}

pub record ProposeInput : Type 0 where
  pub new_code : Text
  pub language : Text
  pub description : Text

-- `languageMap`
unfoldable pub language_entries : List (Text × Text)
language_entries =
    (codes "go", codes "golang")
    ∷ (codes "Go", codes "golang")
    ∷ (codes "golang", codes "golang")
    ∷ (codes "python", codes "python")
    ∷ (codes "Python", codes "python")
    ∷ (codes "py", codes "python")
    ∷ (codes "javascript", codes "javascript")
    ∷ (codes "js", codes "javascript")
    ∷ (codes "JavaScript", codes "javascript")
    ∷ (codes "java", codes "java")
    ∷ (codes "Java", codes "java")
    ∷ (codes "c", codes "c")
    ∷ (codes "C", codes "c")
    ∷ []

unfoldable pub normalize_language : Text → Option Text
normalize_language lang = load (trim_space lang) (of_list language_entries)

-- The outcome of a call of the tool: a result for the agent, an interrupt with its state, or an error.
pub data ToolOutcome : Type 0 where
  answers : Text → ToolOutcome
  interrupts : ProposalInfo → ToolOutcome
  fails : Text → ToolOutcome

-- `interrupted`: the state of an interrupted call; `target`: the data of the resume, if this call is
-- its target and there is any; `quote`: the verb `%q`; `input`: the arguments, or why they do not
-- parse.
unfoldable pub invokable_run :
    Option ProposalInfo
    → Option Text
    → (Text → Text)
    → Result Text ProposeInput
    → Text
    → ToolOutcome
unfolding normalize_language
invokable_run (some state) (some data_of) quote input uuid = answers data_of
invokable_run (some state) none quote input uuid = interrupts state
invokable_run none target quote (err reason) uuid =
    fails (codes "parse propose_execution input: " ++ reason)
invokable_run none target quote (ok input) uuid = elim (normalize_language input.language) [
  | none ↦ answers (
      codes "Error: unsupported language: "
      ++ quote (trim_space input.language)
      ++ codes ". Supported languages: golang, python, javascript, java, c")
  | some language ↦ interrupts (record {
    proposal_id = uuid;
    code = input.new_code;
    language = language;
    description = input.description;
  })
]

-- Of a language: the runner serves it, under this name.
unfoldable pub is_served : Text → Bool
is_served lang = has_runtime lang && same (normalize_lang lang) lang

languages_served : every (λ (e : Text × Text). is_served e.1) language_entries ≡ true
unfolding is_served language_entries has_runtime normalize_lang same load of_list extension_entries
    lower alias_entries trim_space
languages_served = refl

-- A first call that interrupts proposes the code that it was given, in a language that the runner
-- serves under just this name.
pub invokable_run-serves :
    (target : Option Text) (quote : Text → Text) (input : ProposeInput) (uuid : Text)
    (p : ProposalInfo)
    → invokable_run none target quote (ok input) uuid ≡ interrupts p
    → (p.code ≡ input.new_code)
      × (has_runtime p.language ≡ true)
      × (normalize_lang p.language ≡ p.language)
unfolding invokable_run
invokable_run-serves target quote input uuid p h =
    elim (Option-cases (normalize_language input.language)) [
      | inl e ↦ absurd (ground arith)
      | inr (l, e) ↦
          let served : is_served l ≡ true =
            unfold normalize_language in
            load-of_list is_served (trim_space input.language) language_entries languages_served
              e in
          unfold is_served in ground (arith, same_iff (normalize_lang l) l)
    ]
