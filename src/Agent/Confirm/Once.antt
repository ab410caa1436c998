-- ===== src/Agent/Confirm/Once.antt =====
-- confirm.go: which confirmations run code, and how often.
use code_runner_backend.Prelude.{
  ◌≡◌, ◌≢◌, refl, false, List, [], ◌∷◌, none, some, All, Result, ok, arith, inl, inr, Option-cases,
}
use code_runner_backend.Prelude.Text.{Text, same_iff, same_refl}
use code_runner_backend.Prelude.TextMap.{load, delete, load-delete}
use code_runner_backend.Session.{SessionMeta, get_meta, append}
use code_runner_backend.Agent.{Schema, AgentService, Env}
use code_runner_backend.Agent.Events.{Event, root_cause, note_interrupt, run_events}
use code_runner_backend.Agent.Chat.{is_foreign}
use code_runner_backend.Agent.Confirm.{
  ConfirmRequest, Pending, ExecResult, pending_of, open_confirm, finish_confirm, append_produced,
  exchange, result_text,
}

module _ {M : Type 0} where
  pending_of_sound :
      (req : ConfirmRequest) (s : AgentService M) (p : Pending)
      → pending_of req s ≡ ok p
      → (load req.session_id s.interrupt_ids ≡ some p.interrupt_id)
        × (load req.session_id s.proposals ≡ some p.proposal)
        × (p.proposal.proposal_id ≡ req.proposal_id)
  unfolding pending_of
  pending_of_sound req s p h = elim (Option-cases (load req.session_id s.interrupt_ids)) [
    | inl e ↦ absurd (ground arith)
    | inr (i, e) ↦ elim (Option-cases (load req.session_id s.proposals)) [
      | inl f ↦ absurd (ground arith)
      | inr (q, f) ↦ ground (arith, same_iff q.proposal_id req.proposal_id)
    ]
  ]

  -- Code is run only for a live session whose owner, if it has one, is the visitor, and only the
  -- proposal that waits in the session and that the request names.
  pub open_confirm_sound :
      (env : Env) (req : ConfirmRequest) (s : AgentService M) (p : Pending)
      → (open_confirm env req s).0 ≡ ok p
      → ((m : SessionMeta) × ((get_meta req.session_id env.now s.sessions).0 ≡ some m)
          × (is_foreign m req.visitor_id ≡ false))
        × (load req.session_id s.interrupt_ids ≡ some p.interrupt_id)
        × (load req.session_id s.proposals ≡ some p.proposal)
        × (p.proposal.proposal_id ≡ req.proposal_id)
  unfolding open_confirm
  open_confirm_sound env req s p h =
      elim (Option-cases (get_meta req.session_id env.now s.sessions).0) [
        | inl e ↦ absurd (ground arith)
        | inr (m, e) ↦
            let given : (is_foreign m req.visitor_id ≡ false) × (pending_of req s ≡ ok p) =
              ground arith in
            let waits = pending_of_sound req s p given.1 in
            ((m, e, given.0), waits.0, waits.1, waits.2)
      ]

-- No event of the run is an interrupt.
abbrev pub NoInterrupt : {M : Type 0} → List (Event M) → Type 0
NoInterrupt events = All (λ e. root_cause e.interrupts ≡ none) events

module _ (sc : Schema) (quote : Text → Text) where
  open sc use {Message}

  run_events-quiet :
      (id : Text) (events : List (Event Message)) (s : AgentService Message)
      → NoInterrupt events
      → (run_events sc id events s).1.interrupt_ids ≡ s.interrupt_ids
  unfolding run_events note_interrupt
  run_events-quiet id [] s h = refl
  run_events-quiet id (e ∷ events) s h = ground (arith, run_events-quiet id events s, h.0, h.1)

  append_produced-interrupts :
      (env : Env) (id : Text) (produced : List Message) (s : AgentService Message)
      → (append_produced sc quote env id produced s).interrupt_ids ≡ s.interrupt_ids
  append_produced-interrupts env id [] s = refl
  append_produced-interrupts env id (m ∷ produced) s = refl

  finish_confirm-interrupts :
      (env later : Env) (id : Text) (p : Pending) (result : Result Text ExecResult)
      (events : List (Event Message)) (s : AgentService Message)
      → NoInterrupt events
      → load id (finish_confirm sc quote env later id p result (ok events) s).1.interrupt_ids ≡ none
  unfolding finish_confirm
  finish_confirm-interrupts env later id p result events s h =
      let told = exchange sc quote p.proposal (result_text result) in
      let t : AgentService Message = record s {
        sessions = (append id told env.now env.opened env.fails_at env.meta_write s.sessions).1;
        interrupt_ids = delete id s.interrupt_ids;
        proposals = delete id s.proposals;
      } in
      let ran = run_events sc id events t in
      ground (
        arith,
        same_refl id,
        append_produced-interrupts later id ran.0.produced ran.1,
        run_events-quiet id events t h,
        load-delete id id s.interrupt_ids,
      )

  -- After a confirmation whose agent goes on and has no interrupt, no confirmation for the
  -- session goes on to run code, whoever sends it and whatever it names.
  pub confirm_once :
      (env later : Env) (p : Pending) (result : Result Text ExecResult)
      (events : List (Event Message)) (s : AgentService Message) (again : Env)
      (req : ConfirmRequest) (q : Pending)
      → NoInterrupt events
      → (open_confirm again req
          (finish_confirm sc quote env later req.session_id p result (ok events) s).1).0
        ≢ ok q
  confirm_once env later p result events s again req q h e =
      let t = (finish_confirm sc quote env later req.session_id p result (ok events) s).1 in
      absurd (
        cc (
          (open_confirm_sound again req t q e).1,
          finish_confirm-interrupts env later req.session_id p result events s h,
        ))
