-- ===== src/Agent/Events.antt =====
-- internal/agent/handler/chat.go, confirm.go: the loop over the events of a run, which both handlers
-- have.
use code_runner_backend.Prelude.{
  Bool, true, false, List, [], ◌∷◌, ◌++◌, Option, none, some, if◌then◌else◌, map,
}
use code_runner_backend.Prelude.Text.{Text}
use code_runner_backend.Prelude.TextMap.{store}
use code_runner_backend.Agent.{
  Schema, ProposalInfo, AgentService, Sent, interrupt, stream_chunk, message_sent, tool_result,
  error_sent,
}

-- `info`: the proposal, if the information is one.
pub record InterruptContext : Type 0 where
  pub id : Text
  pub is_root_cause : Bool
  pub info : Option ProposalInfo

-- What `stream.Recv` gives; the end of the stream is the end of the list.
pub data Chunk (M : Type 0) : Type 0 where
  chunk : M → Chunk M
  nil_chunk recv_error : Chunk M

pub data Output (M : Type 0) : Type 0 where
  no_output : Output M
  streaming : List (Chunk M) → Output M
  whole : M → Output M

-- `interrupts`: the contexts of `Action.Interrupted`, `none` for a nil one.
pub record Event (M : Type 0) : Type 0 where
  pub failure : Option Text
  pub interrupts : List (Option InterruptContext)
  pub output : Output M

unfoldable pub root_cause : List (Option InterruptContext) → Option InterruptContext
root_cause [] = none
root_cause (none ∷ rest) = root_cause rest
root_cause (some ic ∷ rest) =
    let later = root_cause rest in if ic.is_root_cause then some ic else later

unfoldable pub read_stream : {M : Type 0} → List (Chunk M) → List M
read_stream [] = []
read_stream (chunk m ∷ chunks) = m ∷ read_stream chunks
read_stream (nil_chunk ∷ chunks) = read_stream chunks
read_stream (recv_error ∷ chunks) = []

-- What a run has done so far: the events sent, the messages produced, and whether it failed.
pub record Turn (M : Type 0) : Type 0 where
  pub sent : List (Sent M)
  pub produced : List M
  pub is_failed : Bool

-- The part of the loop for interrupts.
unfoldable pub note_interrupt :
    {M : Type 0}
    → Text
    → List (Option InterruptContext)
    → AgentService M
    → List (Sent M) × AgentService M
unfolding root_cause
note_interrupt session_id contexts s = elim (root_cause contexts) [
  | none ↦ ([], s)
  | some ic ↦
      let t = record s { interrupt_ids = store session_id ic.id s.interrupt_ids } in
      elim ic.info [
        | none ↦ ([], t)
        | some p ↦ (interrupt p ∷ [], record t { proposals = store session_id p s.proposals })
      ]
]

module _ (sc : Schema) where
  open sc use {Message, is_tool, concat_messages}

  -- What a stream of chunks produces.
  abbrev joined : List Message → List Message
  joined [] = []
  joined (m ∷ read) = elim (concat_messages (m ∷ read)) [ none ↦ [] | some full ↦ full ∷ [] ]

  -- The part of the loop for output. A stream whose chunks cannot be joined produces nothing.
  unfoldable pub take_output : Output Message → List (Sent Message) × List Message
  unfolding read_stream
  take_output no_output = ([], [])
  take_output (whole m) = ((if is_tool m then tool_result m else message_sent m) ∷ [], m ∷ [])
  take_output (streaming chunks) =
      (map stream_chunk (read_stream chunks), joined (read_stream chunks))

  unfoldable pub run_events :
      Text → List (Event Message) → AgentService Message → Turn Message × AgentService Message
  unfolding note_interrupt take_output
  run_events session_id [] s = (record { sent = []; produced = []; is_failed = false }, s)
  run_events session_id (e ∷ events) s = elim e.failure [
    | some reason ↦ (record { sent = error_sent reason ∷ []; produced = []; is_failed = true }, s)
    | none ↦
        let (noted, t) = note_interrupt session_id e.interrupts s in
        let (shown, made) = take_output e.output in
        let (rest, u) = run_events session_id events t in
        (
          record {
            sent = noted ++ shown ++ rest.sent;
            produced = made ++ rest.produced;
            is_failed = rest.is_failed;
          },
          u,
        )
  ]
