-- ===== src/Agent/Cancel.antt =====
-- internal/agent/handler/cancel.go, session.go, middleware.go: the smaller handlers.
use code_runner_backend.Prelude.{
  ℕ, ◌≡◌, Bool, false, ◌||◌, List, ◌∷◌, Option, none, some, if◌then◌else◌, Result, ok, err, arith,
  inl, inr, Bool-cases,
}
use code_runner_backend.Prelude.Text.{Text, codes, same, same_iff, is_empty, trim_space}
use code_runner_backend.Prelude.TextMap.{load, store, delete, load-store, load-delete}
use code_runner_backend.Session.{SessionMeta, FileStore, get_meta, get_messages}
use code_runner_backend.Agent.{Schema, AgentService, Refusal}
use code_runner_backend.Agent.Chat.{refusal, foreign, is_foreign}

pub record CancelRequest : Type 0 where
  pub session_id : Text
  pub visitor_id : Text

-- `meta, ok := GetMeta(...); ok && meta.OwnerID != "" && meta.OwnerID != req.VisitorID`
unfoldable pub is_foreign_session : Text → Option SessionMeta → Bool
is_foreign_session visitor_id none = false
is_foreign_session visitor_id (some m) = is_foreign m visitor_id

module _ {M : Type 0} where
  -- LoadAndDelete, and the entry is put back for a visitor who does not own the session. `none` is
  -- the answer "cancelled".
  unfoldable pub cancel_run : ℕ → CancelRequest → AgentService M → Option Refusal × AgentService M
  unfolding is_foreign_session
  cancel_run now req s =
      if is_empty (trim_space req.session_id)
      then (some (refusal 400 (codes "session_id is required")), s)
      else elim (load req.session_id s.cancels) [
        | none ↦ (some (refusal 404 (codes "no active run for this session")), s)
        | some run ↦
            let t = record s { cancels = delete req.session_id s.cancels } in
            let (found, sessions) = get_meta req.session_id now t.sessions in
            let u = record t { sessions = sessions } in
            if is_foreign_session req.visitor_id found
            then (some foreign, record u { cancels = store req.session_id run u.cancels })
            else (none, record u { cancelled = run ∷ u.cancelled })
      ]

  -- A cancel that names a session with a run: a visitor who does not own the session, if that is
  -- live, is refused and every run stays as it was, and for anyone else exactly the run of the
  -- session is cancelled and forgotten.
  pub cancel_run_lem :
      (now : ℕ) (req : CancelRequest) (s : AgentService M) (run : ℕ) (j : Text)
      → is_empty (trim_space req.session_id) ≡ false
      → load req.session_id s.cancels ≡ some run
      → let (answer, t) = cancel_run now req s in
        let not_owner =
          is_foreign_session req.visitor_id (get_meta req.session_id now s.sessions).0 in
        (answer ≡ (if not_owner then some foreign else none))
        × (load j t.cancels ≡ (
            if not_owner
            then load j s.cancels
            else if same req.session_id j
            then none
            else load j s.cancels))
        × (t.cancelled ≡ (if not_owner then s.cancelled else run ∷ s.cancelled))
  unfolding cancel_run
  cancel_run_lem now req s run j e l =
      let rest = delete req.session_id s.cancels in
      let not_owner =
        is_foreign_session req.visitor_id (get_meta req.session_id now s.sessions).0 in
      elim (Bool-cases not_owner) [
        | inl f ↦ ground (
          arith,
          same_iff req.session_id j,
          load-delete req.session_id j s.cancels,
          load-store req.session_id j run rest,
        )
        | inr f ↦ ground (arith, load-delete req.session_id j s.cancels)
      ]

module _ (sc : Schema) where
  open sc use {Message, size}

  -- GetSessionMessagesHandler: no visitor is asked for.
  unfoldable pub get_session_messages :
      ℕ → Text → FileStore Message → Result Refusal (List Message) × FileStore Message
  get_session_messages now id s =
      let (found, t) = get_meta id now s in
      elim found [
        | none ↦ (err (refusal 404 (codes "session not found or expired")), t)
        | some _ ↦ elim (get_messages size id t) [
          | err _ ↦ (err (refusal 500 (codes "failed to load messages")), t)
          | ok (msgs, cut) ↦
              ((if cut then err (refusal 500 (codes "failed to load messages")) else ok msgs), t)
        ]
      ]

-- AgentAPIKeyMiddleware: is the request let through?
unfoldable pub is_authorized : Text → Text → Bool
is_authorized expected header = is_empty expected || same header expected
