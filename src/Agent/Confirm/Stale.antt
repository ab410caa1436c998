-- ===== src/Agent/Confirm/Stale.antt =====
-- chat.go, confirm.go: a change of the article starts the session again, but not what waits in it.
use code_runner_backend.Prelude.{
  ℕ, ◌+◌, ◌≤◌, ◌≡◌, refl, ◌∙◌, Bool, true, false, not, ◌&&◌, some, Result, ok, err, arith,
}
use code_runner_backend.Prelude.Text.{Text, codes, same, same_refl, is_empty, trim_space}
use code_runner_backend.Prelude.TextMap.{load-store}
use code_runner_backend.Session.{
  SessionMeta, FileStore, get_meta, create_with_article, delete_session, written,
}
use code_runner_backend.Agent.{Schema, AgentService, Env, Refusal}
use code_runner_backend.Agent.Chat.{
  ChatRequest, ArticleCtx, is_foreign, Target, find_target, with_article, start_session, ask,
  open_chat,
}
use code_runner_backend.Agent.Chat.Access.{IsComplete}
use code_runner_backend.Agent.Confirm.{ConfirmRequest, Pending, pending_of, open_confirm}

module _ (sc : Schema) (build_instruction : ArticleCtx → Text) where
  open sc use {Message}

  open_chat_keeps :
      (env : Env) (req : ChatRequest) (s : AgentService Message)
      → ((open_chat sc build_instruction env req s).1.sessions
          ≡ (find_target build_instruction env req s.sessions).1)
        × ((open_chat sc build_instruction env req s).1.interrupt_ids ≡ s.interrupt_ids)
        × ((open_chat sc build_instruction env req s).1.proposals ≡ s.proposals)
  unfolding open_chat
  open_chat_keeps env req s = go (find_target build_instruction env req s.sessions)
    where
      go :
          (r : Result Refusal Target × FileStore Message)
          → ((ask sc env req s r).1.sessions ≡ r.1)
            × ((ask sc env req s r).1.interrupt_ids ≡ s.interrupt_ids)
            × ((ask sc env req s r).1.proposals ≡ s.proposals)
      go (err reason, sessions) = unfold ask in (refl, refl, refl)
      go (ok target, sessions) = unfold ask in ground arith

  -- The metadata of the session that is started again.
  abbrev restarted : Env → ChatRequest → ArticleCtx → SessionMeta
  restarted env req a = record {
    id = req.session_id;
    owner_id = req.visitor_id;
    instruction = build_instruction a;
    article_id = a.article_id;
    created_at = env.now;
    last_active_at = env.now;
  }

  switch_starts :
      (env : Env) (req : ChatRequest) (a : ArticleCtx) (s : FileStore Message) (m : SessionMeta)
      → IsComplete req
      → is_empty req.session_id ≡ false
      → req.article_ctx ≡ some a
      → (get_meta req.session_id env.now s).0 ≡ some m
      → is_foreign m req.visitor_id ≡ false
      → same m.article_id a.article_id ≡ false
      → find_target build_instruction env req s
        ≡ start_session build_instruction env req.session_id a req.visitor_id
            (codes "failed to reset session")
            false
            (delete_session req.session_id (get_meta req.session_id env.now s).1)
  unfolding find_target with_article
  switch_starts env req a s m c i r g f d = ground arith

  start_session-found :
      (env : Env) (req : ChatRequest) (a : ArticleCtx) (problem : Text) (is_new : Bool)
      (s : FileStore Message) (now : ℕ)
      → env.meta_write ≡ written
      → env.log_created ≡ true
      → now ≤ env.now + s.ttl
      → (get_meta req.session_id now
          (start_session build_instruction env req.session_id a req.visitor_id problem is_new
            s).1).0
        ≡ some (restarted env req a)
  unfolding start_session create_with_article get_meta
  start_session-found env req a problem is_new s now w l t = ground (
    arith,
    same_refl req.session_id,
    load-store req.session_id req.session_id (restarted env req a) s.metas,
  )

  own_session : (t : Text) → (not (is_empty t) && not (same t t)) ≡ false
  own_session t = ground (arith, same_refl t)

  confirm_found :
      (env : Env) (req : ConfirmRequest) (s : AgentService Message) (m : SessionMeta) (p : Pending)
      → is_empty (trim_space req.session_id) ≡ false
      → is_empty (trim_space req.proposal_id) ≡ false
      → (get_meta req.session_id env.now s.sessions).0 ≡ some m
      → is_foreign m req.visitor_id ≡ false
      → pending_of req s ≡ ok p
      → (open_confirm env req s).0 ≡ ok p
  unfolding open_confirm
  confirm_found env req s m p a b g f h = ground arith

  kept_pending :
      (req : ConfirmRequest) (s t : AgentService Message)
      → t.interrupt_ids ≡ s.interrupt_ids
      → t.proposals ≡ s.proposals
      → pending_of req t ≡ pending_of req s
  unfolding pending_of
  kept_pending req s t e f = rw (e, f) refl

  get_meta-ttl :
      (id : Text) (now : ℕ) (s : FileStore Message)
      → (delete_session id (get_meta id now s).1).ttl ≡ s.ttl
  unfolding get_meta delete_session
  get_meta-ttl id now s = ground arith

  -- A message of the owner, with a disk that works, changes the article of a live session in
  -- which a proposal waits. The session is started again, but a confirmation of the proposal by
  -- the same visitor, in the time to live from then, still goes on to run its code.
  pub open_confirm_after_switch :
      (env later : Env) (req : ChatRequest) (proposal_id : Text) (a : ArticleCtx)
      (s : AgentService Message) (m : SessionMeta) (p : Pending)
      → IsComplete req
      → is_empty (trim_space req.session_id) ≡ false
      → is_empty req.session_id ≡ false
      → is_empty (trim_space proposal_id) ≡ false
      → req.article_ctx ≡ some a
      → (get_meta req.session_id env.now s.sessions).0 ≡ some m
      → is_foreign m req.visitor_id ≡ false
      → same m.article_id a.article_id ≡ false
      → env.meta_write ≡ written
      → env.log_created ≡ true
      → later.now ≤ env.now + s.sessions.ttl
      → let creq : ConfirmRequest = record {
        session_id = req.session_id;
        visitor_id = req.visitor_id;
        proposal_id = proposal_id;
      } in
        pending_of creq s ≡ ok p
        → (open_confirm later creq (open_chat sc build_instruction env req s).1).0 ≡ ok p
  open_confirm_after_switch env later req proposal_id a s m p c i i' j r g f d w l t h =
      let creq : ConfirmRequest = record {
        session_id = req.session_id;
        visitor_id = req.visitor_id;
        proposal_id = proposal_id;
      } in
      let old = delete_session req.session_id (get_meta req.session_id env.now s.sessions).1 in
      let after = (open_chat sc build_instruction env req s).1 in
      let keeps = open_chat_keeps env req s in
      let found : (get_meta req.session_id later.now after.sessions).0
          ≡ some (restarted env req a) =
        rw (keeps.0, switch_starts env req a s.sessions m c i' r g f d)
          (start_session-found env req a (codes "failed to reset session") false old later.now w l
            (rw (get_meta-ttl req.session_id env.now s.sessions) t)) in
      confirm_found later creq after (restarted env req a) p i j found (own_session req.visitor_id)
        (kept_pending creq s after keeps.1 keeps.2 ∙ h)
