-- ===== src/Agent/Chat/Transcript.antt =====
-- chat.go: what a turn leaves in the session.
use code_runner_backend.Prelude.{
  ◌≡◌, refl, subst, sym, true, false, List, [], ◌∷◌, ◌++◌, Option, none, All, ok, arith,
}
use code_runner_backend.Prelude.Text.{Text, same_refl}
use code_runner_backend.Prelude.TextMap.{load, load-delete}
use code_runner_backend.Session.{get_messages, append}
use code_runner_backend.Session.Log.{Fits, written_part, get_messages-append}
use code_runner_backend.Agent.{Schema, AgentService, Env}
use code_runner_backend.Agent.Events.{Event, InterruptContext, note_interrupt, run_events}
use code_runner_backend.Agent.Chat.{Opened, finish_chat}

pub note_interrupt-sessions :
    {M : Type 0} (id : Text) (contexts : List (Option InterruptContext)) (s : AgentService M)
    → ((note_interrupt id contexts s).1.sessions ≡ s.sessions)
      × ((note_interrupt id contexts s).1.cancels ≡ s.cancels)
unfolding note_interrupt
note_interrupt-sessions id contexts s = ground arith

module _ (sc : Schema) where
  open sc use {Message, user_message, size}

  pub run_events-sessions :
      (id : Text) (events : List (Event Message)) (s : AgentService Message)
      → ((run_events sc id events s).1.sessions ≡ s.sessions)
        × ((run_events sc id events s).1.cancels ≡ s.cancels)
  unfolding run_events
  run_events-sessions id [] s = (refl, refl)
  run_events-sessions id (e ∷ events) s =
      let t = (note_interrupt id e.interrupts s).1 in
      ground (arith, note_interrupt-sessions id e.interrupts s, run_events-sessions id events t)

  -- Where the session reads without an error and the messages fit, the turn leaves the history, the
  -- message of the visitor and what the run produced, in this order and up to a write that failed,
  -- and the run can no longer be cancelled.
  pub finish_chat-transcript :
      (env : Env) (opened : Opened Message) (text : Text) (events : List (Event Message))
      (s : AgentService Message) (history : List Message)
      → env.opened ≡ true
      → get_messages size opened.session_id s.sessions ≡ ok (history, false)
      → All (Fits size) (user_message text ∷ (run_events sc opened.session_id events s).0.produced)
      → let t = (finish_chat sc env opened text events s).1 in
        let turn = user_message text ∷ (run_events sc opened.session_id events s).0.produced in
        (get_messages size opened.session_id t.sessions
          ≡ ok (history ++ written_part turn env.fails_at, false))
        × (load opened.session_id t.cancels ≡ none)
  unfolding finish_chat
  finish_chat-transcript env opened text events s history o h fits =
      let id = opened.session_id in
      let turn = user_message text ∷ (run_events sc id events s).0.produced in
      let kept = (run_events-sessions id events s).0 in
      (
        subst
            (λ b.
              get_messages size id
                (append id turn env.now b env.fails_at env.meta_write
                  (run_events sc id events s).1.sessions).1
              ≡ ok (history ++ written_part turn env.fails_at, false))
            (sym o)
            (get_messages-append size id turn env.now env.fails_at env.meta_write _ history fits
              (rw kept h)),
        ground (arith, same_refl id, load-delete id id (run_events sc id events s).1.cancels),
      )
