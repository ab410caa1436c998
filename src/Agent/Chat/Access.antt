-- ===== src/Agent/Chat/Access.antt =====
-- chat.go: who may speak in a session, and what the agent is asked.
use code_runner_backend.Prelude.{
  ℕ, ◌≡◌, refl, ap, ◌∙◌, true, false, List, [], ◌∷◌, ◌++◌, some, ok, err, arith, inl, inr,
  Option-cases,
}
use code_runner_backend.Prelude.Text.{Text, same_iff, is_empty, trim_space}
use code_runner_backend.Prelude.TextMap.{store}
use code_runner_backend.Session.{SessionMeta, FileStore, get_meta, get_messages}
use code_runner_backend.Agent.{Schema, AgentService, Env}
use code_runner_backend.Agent.Chat.{
  ArticleCtx, ChatRequest, is_foreign, foreign, find_target, with_article, without_article, ask,
  open_chat, load_history, with_system,
}

-- The request has a message and a visitor.
abbrev pub IsComplete : ChatRequest → Type 0
IsComplete req =
    (is_empty (trim_space req.user_message) ≡ false)
    × (is_empty (trim_space req.visitor_id) ≡ false)

-- The request goes on with a session: it names it, and no other article.
abbrev pub GoesOn : ChatRequest → SessionMeta → Type 0
GoesOn req m =
    (is_empty req.session_id ≡ false)
    × ((a : ArticleCtx) → req.article_ctx ≡ some a → m.article_id ≡ a.article_id)

module _ (sc : Schema) (build_instruction : ArticleCtx → Text) where
  open sc use {Message, user_message, size}

  get_messages-get_meta :
      (i j : Text) (now : ℕ) (s : FileStore Message)
      → get_messages size j (get_meta i now s).1 ≡ get_messages size j s
  unfolding get_meta get_messages
  get_messages-get_meta i j now s = ground arith

  find_target_refuses :
      (env : Env) (req : ChatRequest) (s : FileStore Message) (m : SessionMeta)
      → IsComplete req
      → is_empty req.session_id ≡ false
      → (get_meta req.session_id env.now s).0 ≡ some m
      → is_foreign m req.visitor_id ≡ true
      → find_target build_instruction env req s
        ≡ (err foreign, (get_meta req.session_id env.now s).1)
  unfolding find_target with_article without_article
  find_target_refuses env req s m c i h f = elim (Option-cases req.article_ctx) [
    | inl e ↦ ground arith
    | inr (a, e) ↦ ground arith
  ]

  -- A request that has a message, a visitor and a session, whose session is live and has another
  -- owner, is refused with 403, whether or not it has an article: no agent is asked, and nothing
  -- changes but the cache of the metadata.
  pub open_chat_refuses :
      (env : Env) (req : ChatRequest) (s : AgentService Message) (m : SessionMeta)
      → IsComplete req
      → is_empty req.session_id ≡ false
      → (get_meta req.session_id env.now s.sessions).0 ≡ some m
      → is_foreign m req.visitor_id ≡ true
      → open_chat sc build_instruction env req s
        ≡ (err foreign, record s { sessions = (get_meta req.session_id env.now s.sessions).1 })
  unfolding open_chat ask
  open_chat_refuses env req s m c i h f =
      ap (ask sc env req s) (find_target_refuses env req s.sessions m c i h f)

  find_target_owner :
      (env : Env) (req : ChatRequest) (s : FileStore Message) (m : SessionMeta)
      → IsComplete req
      → GoesOn req m
      → (get_meta req.session_id env.now s).0 ≡ some m
      → is_foreign m req.visitor_id ≡ false
      → find_target build_instruction env req s ≡ (
        ok (record { session_id = req.session_id; instruction = m.instruction; is_new = false }),
        (get_meta req.session_id env.now s).1,
      )
  unfolding find_target with_article without_article
  find_target_owner env req s m c i h f = elim (Option-cases req.article_ctx) [
    | inl e ↦ ground arith
    | inr (a, e) ↦ ground (arith, same_iff m.article_id a.article_id, i.1 a)
  ]

  -- A request that has a message and a visitor and goes on with a live session, which has no
  -- owner or this one and reads without an error: the agent is asked with the instruction of the
  -- session, its whole history and the message, in this order, and the run can be cancelled.
  pub open_chat_owner :
      (env : Env) (req : ChatRequest) (s : AgentService Message) (m : SessionMeta)
      (history : List Message)
      → IsComplete req
      → GoesOn req m
      → (get_meta req.session_id env.now s.sessions).0 ≡ some m
      → is_foreign m req.visitor_id ≡ false
      → get_messages size req.session_id s.sessions ≡ ok (history, false)
      → open_chat sc build_instruction env req s ≡ (
        ok (record {
          session_id = req.session_id;
          is_new = false;
          asked = with_system sc m.instruction (history ++ user_message req.user_message ∷ []);
        }),
        record s {
          sessions = (get_meta req.session_id env.now s.sessions).1;
          cancels = store req.session_id env.run s.cancels;
        },
      )
  unfolding open_chat ask load_history
  open_chat_owner env req s m history c i h f g =
      ap (ask sc env req s) (find_target_owner env req s.sessions m c i h f)
      ∙ rw
          (
            ask,
            load_history,
            get_messages-get_meta req.session_id req.session_id env.now s.sessions,
            g,
          )
          refl
