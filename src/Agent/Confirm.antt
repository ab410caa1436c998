-- ===== src/Agent/Confirm.antt =====
-- internal/agent/handler/confirm.go: a visitor confirms a proposal, its code is run and the agent
-- goes on with the result. The handler is three steps: the checks, the run of the code (executor.go
-- and the dispatch service behind it), and the rest.
pub mod Once
pub mod Record
pub mod Stale
use code_runner_backend.Prelude.{
  ℕ, Bool, true, false, not, ◌&&◌, ◌||◌, List, [], ◌∷◌, ◌++◌, Option, none, some, if◌then◌else◌,
  Result, ok, err,
}
use code_runner_backend.Prelude.Text.{Text, codes, same, is_empty, trim_space}
use code_runner_backend.Prelude.TextMap.{load, store, delete}
use code_runner_backend.Api.{ExecuteRequest}
use code_runner_backend.Session.{get_meta, append}
use code_runner_backend.Agent.{
  Schema, ProposalInfo, AgentService, Env, Sent, executing, error_sent, done_sent, Refusal,
}
use code_runner_backend.Agent.Events.{Event, run_events}
use code_runner_backend.Agent.Chat.{refusal, foreign, is_foreign}

pub record ConfirmRequest : Type 0 where
  pub session_id : Text
  pub visitor_id : Text
  pub proposal_id : Text

-- executor.go
pub record ExecResult : Type 0 where
  pub result : Text
  pub err_text : Text

-- codeRunnerExecutor.Execute: the request that it sends; its other fields are zero.
unfoldable pub sync_request : ProposalInfo → ExecuteRequest
sync_request p = record {
  id = p.proposal_id;
  uid = 0;
  language = p.language;
  code_block = p.code;
  call_back_url = [];
}

-- The interrupt and the proposal that a confirmation is for.
pub record Pending : Type 0 where
  pub interrupt_id : Text
  pub proposal : ProposalInfo

module _ {M : Type 0} where
  unfoldable pub pending_of : ConfirmRequest → AgentService M → Result Refusal Pending
  pending_of req s = elim (load req.session_id s.interrupt_ids) [
    | none ↦ err (refusal 409 (codes "no pending interrupt for this session"))
    | some interrupt_id ↦ elim (load req.session_id s.proposals) [
      | none ↦ err (refusal 404 (codes "proposal not found"))
      | some p ↦
          if same p.proposal_id req.proposal_id
          then ok (record { interrupt_id = interrupt_id; proposal = p })
          else err (refusal 409 (codes "proposal_id does not match pending proposal"))
    ]
  ]

  unfoldable pub open_confirm :
      Env → ConfirmRequest → AgentService M → Result Refusal Pending × AgentService M
  unfolding pending_of
  open_confirm env req s =
      if is_empty (trim_space req.session_id) || is_empty (trim_space req.proposal_id)
      then (err (refusal 400 (codes "session_id and proposal_id are required")), s)
      else let (found, sessions) = get_meta req.session_id env.now s.sessions in
        let t = record s { sessions = sessions } in
        elim found [
          | none ↦ (err (refusal 404 (codes "session not found or expired")), t)
          | some m ↦
              if is_foreign m req.visitor_id then (err foreign, t) else elim (pending_of req s) [
                | err reason ↦ (err reason, t)
                | ok p ↦ (ok p, record t { cancels = store req.session_id env.run s.cancels })
              ]
        ]

-- What the agent is told about the run: the output, or the error of the executor.
unfoldable pub result_text : Result Text ExecResult → Text
result_text (err reason) = codes "Execution failed: " ++ reason
result_text (ok r) =
    let out = if is_empty r.result then [] else codes "stdout: " ++ r.result ++ 10 ∷ [] in
    let errors = if is_empty r.err_text then [] else codes "stderr: " ++ r.err_text ++ 10 ∷ [] in
    let nothing =
      if is_empty r.result && is_empty r.err_text then codes "(no output)" ++ 10 ∷ [] else [] in
    codes "Execution result:" ++ 10 ∷ out ++ errors ++ nothing

abbrev pub tool_name : Text
tool_name = codes "propose_execution"

-- `quote`: the verb `%q`, whose table of printable characters is not modelled.
module _ (sc : Schema) (quote : Text → Text) where
  open sc use {Message, tool_call, tool_message}

  unfoldable pub arguments_of : ProposalInfo → Text
  arguments_of p =
      codes "{\"language\":"
      ++ quote p.language
      ++ codes ",\"description\":"
      ++ quote p.description
      ++ codes ",\"new_code\":"
      ++ quote p.code
      ++ codes "}"

  -- The call of the tool and its result, as the history keeps them.
  unfoldable pub exchange : ProposalInfo → Text → List Message
  unfolding arguments_of
  exchange p result =
      tool_call p.proposal_id tool_name (arguments_of p)
      ∷ tool_message result p.proposal_id tool_name
      ∷ []

  abbrev append_produced : Env → Text → List Message → AgentService Message → AgentService Message
  append_produced env id [] s = s
  append_produced env id (m ∷ produced) s = record s {
    sessions =
        (append id (m ∷ produced) env.now env.opened env.fails_at env.meta_write s.sessions).1;
  }

  -- The agent is resumed with the result; `resumed`: its events, or why it cannot go on. `env` and
  -- `later` are what the two appends meet.
  unfoldable pub finish_confirm :
      Env
      → Env
      → Text
      → Pending
      → Result Text ExecResult
      → Result Text (List (Event Message))
      → AgentService Message
      → List (Sent Message) × AgentService Message
  unfolding exchange result_text
  finish_confirm env later id pending result resumed s =
      let t = record s {
        interrupt_ids = delete id s.interrupt_ids;
        proposals = delete id s.proposals;
      } in
      elim resumed [
        | err reason ↦
            (executing ∷ error_sent reason ∷ [], record t { cancels = delete id t.cancels })
        | ok events ↦
            let told = exchange pending.proposal (result_text result) in
            let kept =
              (append id told env.now env.opened env.fails_at env.meta_write t.sessions).1 in
            let (turn, u) = run_events sc id events (record t { sessions = kept }) in
            let v = append_produced later id turn.produced u in
            (executing ∷ turn.sent ++ done_sent ∷ [], record v { cancels = delete id v.cancels })
      ]
