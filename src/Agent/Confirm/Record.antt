-- ===== src/Agent/Confirm/Record.antt =====
-- confirm.go: what a confirmation leaves in the history, and what a change of the article leaves to
-- be confirmed.
use code_runner_backend.Prelude.{
  ◌≡◌, refl, ap, ◌∙◌, sym, subst, true, false, List, [], ◌∷◌, ◌++◌, Option, none, All, Result, ok,
  arith,
}
use mathlib.Core.List.{append-nil}
use code_runner_backend.Prelude.Text.{Text}
use code_runner_backend.Prelude.TextMap.{delete}
use code_runner_backend.Session.{get_messages, append}
use code_runner_backend.Session.Log.{Fits, get_messages-append}
use code_runner_backend.Agent.{Schema, AgentService, Env}
use code_runner_backend.Agent.Events.{Event, InterruptContext, note_interrupt, run_events}
use code_runner_backend.Agent.Chat.Transcript.{run_events-sessions}
use code_runner_backend.Agent.Confirm.{
  Pending, ExecResult, finish_confirm, append_produced, exchange, result_text,
}

-- The disk does what it is asked to.
abbrev pub Works : Env → Type 0
Works env = (env.opened ≡ true) × (env.fails_at ≡ none)

module _ (sc : Schema) (quote : Text → Text) where
  open sc use {Message, size}

  append_produced-read :
      (env : Env) (id : Text) (produced : List Message) (s : AgentService Message)
      (old : List Message)
      → Works env
      → All (Fits size) produced
      → get_messages size id s.sessions ≡ ok (old, false)
      → get_messages size id (append_produced sc quote env id produced s).sessions
        ≡ ok (old ++ produced, false)
  append_produced-read env id [] s old w fits h = h ∙ ap (λ l. ok (l, false)) (sym (append-nil old))
  append_produced-read env id (m ∷ produced) s old w fits h =
      rw (w.0, w.1)
        (get_messages-append size id (m ∷ produced) env.now none env.meta_write s.sessions old fits
          h)

  note_interrupt-sent :
      (id : Text) (contexts : List (Option InterruptContext)) (s t : AgentService Message)
      → (note_interrupt id contexts s).0 ≡ (note_interrupt id contexts t).0
  unfolding note_interrupt
  note_interrupt-sent id contexts s t = ground arith

  -- What a run shows and produces does not depend on the maps of the service.
  run_events-turn :
      (id : Text) (events : List (Event Message)) (s t : AgentService Message)
      → (run_events sc id events s).0 ≡ (run_events sc id events t).0
  unfolding run_events
  run_events-turn id [] s t = refl
  run_events-turn id (e ∷ events) s t =
      let s' = (note_interrupt id e.interrupts s).1 in
      let t' = (note_interrupt id e.interrupts t).1 in
      ground (arith, note_interrupt-sent id e.interrupts s t, run_events-turn id events s' t')

  -- A confirmation whose run ends leaves behind the history the call of the tool, its result and
  -- what the agent then produced, in this order, where the disk works and the messages fit.
  pub finish_confirm-transcript :
      (env later : Env) (id : Text) (p : Pending) (result : Result Text ExecResult)
      (events : List (Event Message)) (s : AgentService Message) (history : List Message)
      → Works env
      → Works later
      → get_messages size id s.sessions ≡ ok (history, false)
      → All (Fits size) (exchange sc quote p.proposal (result_text result))
      → All (Fits size) (run_events sc id events s).0.produced
      → let told = exchange sc quote p.proposal (result_text result) in
        get_messages size id
          (finish_confirm sc quote env later id p result (ok events) s).1.sessions
        ≡ ok (history ++ told ++ (run_events sc id events s).0.produced, false)
  unfolding finish_confirm
  finish_confirm-transcript env later id p result events s history w v h fits more =
      let told = exchange sc quote p.proposal (result_text result) in
      let cleared : AgentService Message = record s {
        interrupt_ids = delete id s.interrupt_ids;
        proposals = delete id s.proposals;
      } in
      let t : AgentService Message = record cleared {
        sessions = (append id told env.now env.opened env.fails_at env.meta_write s.sessions).1;
      } in
      let ran = run_events sc id events t in
      let same_turn : (run_events sc id events s).0.produced ≡ ran.0.produced =
        ap (λ turn. turn.produced) (run_events-turn id events s t) in
      let read : get_messages size id t.sessions ≡ ok (history ++ told, false) =
        rw (w.0, w.1)
          (get_messages-append size id told env.now none env.meta_write s.sessions history fits
            h) in
      rw same_turn (
        append_produced-read later id ran.0.produced ran.1 (history ++ told) v
          (subst (All (Fits size)) same_turn more) (rw (run_events-sessions sc id events t).0 read))
