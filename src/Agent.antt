-- ===== src/Agent.antt =====
-- internal/agent: the chat service. agent.go keeps the state that the handlers share; the library for
-- agents (eino) is a parameter: what it makes of messages, and the events that a run of the agent
-- gives.
pub mod Events
pub mod Chat
pub mod Instruction
pub mod Confirm
pub mod Cancel
pub mod Propose
pub mod Settings
mod Examples
use code_runner_backend.Prelude.{ℕ, Bool, List, Option}
use code_runner_backend.Prelude.Text.{Text}
use code_runner_backend.Prelude.TextMap.{TextMap}
use code_runner_backend.Session.{FileStore, Write}

-- eino's messages, as far as the handlers look at them.
pub record Schema : Type 1 where
  pub Message : Type 0
  pub system_message : Text → Message
  pub user_message : Text → Message
  -- the call of a tool: its id, the tool's name, the arguments
  pub tool_call : Text → Text → Text → Message
  -- the result of a tool: the text, the id of the call, the tool's name
  pub tool_message : Text → Text → Text → Message
  pub is_tool : Message → Bool
  pub concat_messages : List Message → Option Message
  pub size : Message → ℕ

-- tools/propose_execution.go
pub record ProposalInfo : Type 0 where
  pub proposal_id : Text
  pub code : Text
  pub language : Text
  pub description : Text

-- The maps of AgentService; a run of an agent is a number, and calling its cancel function puts it
-- among the cancelled.
pub record AgentService (M : Type 0) : Type 0 where
  pub sessions : FileStore M
  pub interrupt_ids : TextMap Text
  pub proposals : TextMap ProposalInfo
  pub cancels : TextMap ℕ
  pub cancelled : List ℕ

-- What a handler reads of its surroundings: the clock, a new id, and what the disk does.
pub record Env : Type 0 where
  pub now : ℕ
  pub uuid : Text
  pub run : ℕ
  pub meta_write : Write
  pub log_created : Bool
  pub opened : Bool
  pub fails_at : Option ℕ

-- An event of the stream that a handler sends.
pub data Sent (M : Type 0) : Type 0 where
  session_created : Text → Sent M
  executing : Sent M
  interrupt : ProposalInfo → Sent M
  stream_chunk : M → Sent M
  message_sent tool_result : M → Sent M
  error_sent : Text → Sent M
  done_sent : Sent M

-- The status and the message of an answer that is no stream.
pub record Refusal : Type 0 where
  pub status : ℕ
  pub reason : Text
