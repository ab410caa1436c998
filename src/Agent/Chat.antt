-- ===== src/Agent/Chat.antt =====
-- internal/agent/handler/chat.go: a message of a visitor. The handler is two steps, since another
-- request can come while the agent runs: up to the call of the agent, and from its events on. The
-- function that writes the instruction is a parameter here; Agent.Instruction is the one that is used.
pub mod Access
pub mod Transcript
use code_runner_backend.Prelude.{
  ℕ, Bool, true, false, not, ◌&&◌, List, [], ◌∷◌, ◌++◌, Option, none, some, if◌then◌else◌, Result,
  ok, err,
}
use code_runner_backend.Prelude.Int.{ℤ}
use code_runner_backend.Prelude.Text.{Text, codes, same, is_empty, trim_space}
use code_runner_backend.Prelude.TextMap.{store, delete}
use code_runner_backend.Session.{
  SessionMeta, FileStore, written, StoreError, get_meta, create_with_article, delete_session,
  get_messages, append,
}
use code_runner_backend.Agent.{Schema, AgentService, Env, Sent, session_created, done_sent, Refusal}
use code_runner_backend.Agent.Events.{Event, Turn, run_events}

pub record CodeBlock : Type 0 where
  pub language : Text
  pub code : Text

pub record ArticleCtx : Type 0 where
  pub article_id : Text
  pub article_content : Text
  pub code_blocks : List CodeBlock
  pub focused_block_index : Option ℤ

pub record ChatRequest : Type 0 where
  pub session_id : Text
  pub visitor_id : Text
  pub user_message : Text
  pub article_ctx : Option ArticleCtx

-- `meta.OwnerID != "" && meta.OwnerID != req.VisitorID`
abbrev pub is_foreign : SessionMeta → Text → Bool
is_foreign m visitor_id = not (is_empty m.owner_id) && not (same m.owner_id visitor_id)

abbrev pub refusal : ℕ → Text → Refusal
refusal status reason = record { status = status; reason = reason }

abbrev pub foreign : Refusal
foreign = refusal 403 (codes "session does not belong to this visitor")

-- The session that a message is for, the instruction, and whether the session is new.
pub record Target : Type 0 where
  pub session_id : Text
  pub instruction : Text
  pub is_new : Bool

-- The agent is asked with these messages.
pub record Opened (M : Type 0) : Type 0 where
  pub session_id : Text
  pub is_new : Bool
  pub asked : List M

module _ {M : Type 0} (build_instruction : ArticleCtx → Text) where
  -- CreateWithArticle as the handler calls it.
  unfoldable pub start_session :
      Env
      → Text
      → ArticleCtx
      → Text
      → Text
      → Bool
      → FileStore M
      → Result Refusal Target × FileStore M
  start_session env id article visitor_id problem is_new s =
      let instruction = build_instruction article in
      let (failure, t) =
        create_with_article id instruction article.article_id visitor_id env.now env.now
          env.meta_write env.log_created s in
      (
        (elim failure [
          | some _ ↦ err (refusal 500 problem)
          | none ↦ ok (record { session_id = id; instruction = instruction; is_new = is_new })
        ]),
        t,
      )

  -- A session and an article: go on with it, or start again for another article.
  unfoldable pub with_article :
      Env → ChatRequest → ArticleCtx → FileStore M → Result Refusal Target × FileStore M
  unfolding start_session
  with_article env req article s =
      let id = req.session_id in
      let (found, t) = get_meta id env.now s in
      elim found [
        | none ↦
            start_session env id article req.visitor_id (codes "failed to create session") true t
        | some m ↦
            if is_foreign m req.visitor_id
            then (err foreign, t)
            else if same m.article_id article.article_id
            then (ok (record { session_id = id; instruction = m.instruction; is_new = false }), t)
            else start_session env id article req.visitor_id (codes "failed to reset session") false
                (delete_session id t)
      ]

  unfoldable pub without_article :
      Env → ChatRequest → FileStore M → Result Refusal Target × FileStore M
  without_article env req s =
      let (found, t) = get_meta req.session_id env.now s in
      elim found [
        | none ↦ (err (refusal 404 (codes "session not found or expired")), t)
        | some m ↦ if is_foreign m req.visitor_id then (err foreign, t) else (
          ok (record { session_id = req.session_id; instruction = m.instruction; is_new = false }),
          t,
        )
      ]

  unfoldable pub find_target : Env → ChatRequest → FileStore M → Result Refusal Target × FileStore M
  unfolding start_session with_article without_article
  find_target env req s =
      if is_empty (trim_space req.user_message)
      then (err (refusal 400 (codes "user_message is required")), s)
      else if is_empty (trim_space req.visitor_id)
      then (err (refusal 400 (codes "visitor_id is required")), s)
      else elim req.article_ctx [
        | none ↦
            if is_empty req.session_id
            then (err (refusal 400 (codes "either session_id or article_ctx is required")), s)
            else without_article env req s
        | some article ↦
            if is_empty req.session_id
            then start_session env env.uuid article req.visitor_id
                (codes "failed to create session") true s
            else with_article env req article s
      ]

module _ (sc : Schema) where
  open sc use {Message, system_message, user_message, size}

  -- The history, or nothing if it does not load.
  unfoldable pub load_history : Text → FileStore Message → Option (List Message)
  load_history id s = elim (get_messages size id s) [
    | err _ ↦ none
    | ok (history, cut) ↦ if cut then none else some history
  ]

  abbrev pub with_system : Text → List Message → List Message
  with_system instruction messages =
      if is_empty instruction then messages else system_message instruction ∷ messages

  -- From the session on: the messages of the call, and its cancel function.
  unfoldable pub ask :
      Env
      → ChatRequest
      → AgentService Message
      → Result Refusal Target × FileStore Message
      → Result Refusal (Opened Message) × AgentService Message
  unfolding load_history
  ask env req s (err reason, sessions) = (err reason, record s { sessions = sessions })
  ask env req s (ok target, sessions) =
      let t = record s { sessions = sessions } in
      elim (load_history target.session_id sessions) [
        | none ↦ (err (refusal 500 (codes "failed to load session history")), t)
        | some history ↦ (
          ok (record {
            session_id = target.session_id;
            is_new = target.is_new;
            asked = with_system target.instruction (history ++ user_message req.user_message ∷ []);
          }),
          record t { cancels = store target.session_id env.run s.cancels },
        )
      ]

  -- Up to the call of the agent, whose cancel function is stored.
  unfoldable pub open_chat :
      (ArticleCtx → Text)
      → Env
      → ChatRequest
      → AgentService Message
      → Result Refusal (Opened Message) × AgentService Message
  unfolding find_target ask
  open_chat build_instruction env req s =
      ask env req s (find_target build_instruction env req s.sessions)

  -- From the events on: they are sent, the turn is appended, and the cancel function is removed.
  unfoldable pub finish_chat :
      Env
      → Opened Message
      → Text
      → List (Event Message)
      → AgentService Message
      → List (Sent Message) × AgentService Message
  finish_chat env opened text events s =
      let (turn, t) = run_events sc opened.session_id events s in
      let (failure, sessions) =
        append opened.session_id (user_message text ∷ turn.produced) env.now env.opened env.fails_at
          env.meta_write t.sessions in
      (
        (if opened.is_new then session_created opened.session_id ∷ [] else [])
            ++ turn.sent
            ++ done_sent ∷ [],
        record t { sessions = sessions; cancels = delete opened.session_id t.cancels },
      )
