-- ===== src/Agent/Examples.antt =====
-- Runs of the chat service, and its theorems at concrete inputs. A message is its text with a letter
-- for its kind.
mod Confirming
use code_runner_backend.Prelude.{
  ℕ, ◌≡◌, ◌≢◌, refl, true, false, List, [], ◌∷◌, Option, none, some, ok, err, arith, length,
}
use code_runner_backend.Prelude.Text.{Text, codes, same, trim_space}
use code_runner_backend.Prelude.TextMap.{of_list, empty, load, store}
use code_runner_backend.Session.{
  SessionMeta, written, new_file_store, create_with_article, get_meta, get_messages, scan,
  write_meta,
}
use code_runner_backend.Agent.{Schema, ProposalInfo, AgentService, Env}
use code_runner_backend.Agent.Events.{
  Event, whole, run_events, note_interrupt, take_output, root_cause,
}
use code_runner_backend.Agent.Chat.{
  ArticleCtx, ChatRequest, Opened, foreign, open_chat, finish_chat, is_foreign,
}
use code_runner_backend.Agent.Chat.Access.{open_chat_refuses, open_chat_owner}
use code_runner_backend.Agent.Chat.Transcript.{finish_chat-transcript}
use code_runner_backend.Agent.Confirm.{
  ConfirmRequest, Pending, open_confirm, pending_of, finish_confirm, exchange,
}
use code_runner_backend.Agent.Confirm.Once.{open_confirm_sound, confirm_once}
use code_runner_backend.Agent.Confirm.Record.{finish_confirm-transcript}
use code_runner_backend.Agent.Confirm.Stale.{open_confirm_after_switch}
use code_runner_backend.Agent.Cancel.{cancel_run, cancel_run_lem, is_foreign_session}
use code_runner_backend.Runner.Language.{has_runtime, normalize_lang}
use code_runner_backend.Agent.Propose.{
  ProposeInput, invokable_run, interrupts, normalize_language, language_entries,
  invokable_run-serves,
}

abbrev pub plain : Schema
plain = record {
  Message = Text;
  system_message = λ t. b's' ∷ t;
  user_message = λ t. b'u' ∷ t;
  tool_call = λ id name arguments. b'c' ∷ id;
  tool_message = λ t id name. b't' ∷ id;
  is_tool = λ t. false;
  concat_messages = λ ts. none;
  size = λ t. length t;
}

abbrev pub one_proposal : ProposalInfo
one_proposal = record {
  proposal_id = codes "p";
  code = codes "1";
  language = codes "c";
  description = [];
}

abbrev pub one_meta : SessionMeta
one_meta = record {
  id = codes "s";
  owner_id = codes "ann";
  instruction = codes "teach";
  article_id = codes "x";
  created_at = 100;
  last_active_at = 100;
}

-- A session of Ann's about the article x, in which a proposal waits and a run goes on.
abbrev pub one_service : AgentService Text
unfolding create_with_article new_file_store write_meta store empty
one_service = record {
  sessions =
      (create_with_article (codes "s") (codes "teach") (codes "x") (codes "ann") 100 100 written
        true (new_file_store 50 empty empty)).1;
  interrupt_ids = store (codes "s") (codes "i") empty;
  proposals = store (codes "s") one_proposal empty;
  cancels = store (codes "s") 7 empty;
  cancelled = [];
}

abbrev pub env_at : ℕ → Env
env_at now = record {
  now = now;
  uuid = codes "new";
  run = 8;
  meta_write = written;
  log_created = true;
  opened = true;
  fails_at = none;
}

abbrev pub says : Text → Option ArticleCtx → ChatRequest
says who article = record {
  session_id = codes "s";
  visitor_id = who;
  user_message = codes "hi";
  article_ctx = article;
}

abbrev pub article_y : ArticleCtx
article_y = record {
  article_id = codes "y";
  article_content = [];
  code_blocks = [];
  focused_block_index = none;
}

abbrev pub teach : ArticleCtx → Text
teach a = codes "teach"

pub one_found : (get_meta (codes "s") 120 one_service.sessions).0 ≡ some one_meta
unfolding one_service get_meta load create_with_article new_file_store write_meta store empty
one_found = refl

pub no_history : get_messages (λ t. length t) (codes "s") one_service.sessions ≡ ok ([], false)
unfolding one_service get_messages scan load create_with_article new_file_store write_meta store
    empty
no_history = refl

open_chat_refuses_example :
    open_chat plain teach (env_at 120) (says (codes "bob") (some article_y)) one_service ≡ (
      err foreign,
      record one_service { sessions = (get_meta (codes "s") 120 one_service.sessions).1 },
    )
unfolding trim_space same
open_chat_refuses_example =
    open_chat_refuses plain teach (env_at 120) (says (codes "bob") (some article_y)) one_service
      one_meta (refl, refl) refl one_found refl

open_chat_owner_example :
    open_chat plain teach (env_at 120) (says (codes "ann") none) one_service ≡ (
      ok (record {
        session_id = codes "s";
        is_new = false;
        asked = codes "steach" ∷ codes "uhi" ∷ [];
      }),
      record one_service {
        sessions = (get_meta (codes "s") 120 one_service.sessions).1;
        cancels = store (codes "s") 8 one_service.cancels;
      },
    )
unfolding trim_space same
open_chat_owner_example =
    open_chat_owner plain teach (env_at 120) (says (codes "ann") none) one_service one_meta []
      (refl, refl) (refl, λ a e. absurd (cc)) one_found refl no_history

abbrev opened : Opened Text
opened = record { session_id = codes "s"; is_new = false; asked = [] }

-- The agent answers with one message.
abbrev pub answer : List (Event Text)
answer = record { failure = none; interrupts = []; output = whole (codes "ok") } ∷ []

finish_chat-transcript_example :
    (get_messages
        (λ t. length t)
        (codes "s")
        (finish_chat plain (env_at 120) opened (codes "hi") answer one_service).1.sessions
      ≡ ok (codes "uhi" ∷ codes "ok" ∷ [], false))
    × (load
          (codes "s")
          (finish_chat plain (env_at 120) opened (codes "hi") answer one_service).1.cancels
        ≡ none)
unfolding run_events take_output note_interrupt root_cause
finish_chat-transcript_example =
    finish_chat-transcript plain (env_at 120) opened (codes "hi") answer one_service [] refl
      no_history (omega arith, (omega arith, tt))

cancel_run_lem_example :
    ((cancel_run 120 (record { session_id = codes "s"; visitor_id = codes "bob" }) one_service).0
      ≡ some foreign)
    × (load
          (codes "s")
          (cancel_run 120
            (record { session_id = codes "s"; visitor_id = codes "bob" })
            one_service).1.cancels
        ≡ load (codes "s") one_service.cancels)
    × ((cancel_run 120
          (record { session_id = codes "s"; visitor_id = codes "bob" })
          one_service).1.cancelled
        ≡ [])
unfolding trim_space one_service load store empty is_foreign_session get_meta
cancel_run_lem_example =
    cancel_run_lem 120 (record { session_id = codes "s"; visitor_id = codes "bob" }) one_service 7
      (codes "s") refl refl

abbrev go_input : ProposeInput
go_input = record { new_code = codes "1"; language = codes " Go"; description = [] }

go_proposed :
    invokable_run none none (λ t. t) (ok go_input) (codes "p")
    ≡ interrupts (record one_proposal { language = codes "golang" })
unfolding invokable_run normalize_language language_entries trim_space load same of_list
go_proposed = refl

invokable_run-serves_example :
    (codes "1" ≡ codes "1")
    × (has_runtime (codes "golang") ≡ true)
    × (normalize_lang (codes "golang") ≡ codes "golang")
invokable_run-serves_example =
    invokable_run-serves none (λ t. t) go_input (codes "p")
      (record one_proposal { language = codes "golang" }) go_proposed
