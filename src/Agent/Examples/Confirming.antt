-- ===== src/Agent/Examples/Confirming.antt =====
-- The theorems of confirmations at concrete inputs.
use code_runner_backend.Prelude.{◌≡◌, ◌≢◌, refl, false, some, ok, err, arith}
use code_runner_backend.Prelude.Text.{Text, codes, same, trim_space}
use code_runner_backend.Prelude.TextMap.{empty, load, store}
use code_runner_backend.Session.{
  SessionMeta, new_file_store, create_with_article, get_meta, write_meta,
}
use code_runner_backend.Agent.Events.{root_cause}
use code_runner_backend.Agent.Chat.{open_chat, is_foreign}
use code_runner_backend.Agent.Confirm.{
  ConfirmRequest, Pending, open_confirm, pending_of, finish_confirm,
}
use code_runner_backend.Agent.Confirm.Once.{open_confirm_sound, confirm_once}
use code_runner_backend.Agent.Confirm.Stale.{open_confirm_after_switch}
use code_runner_backend.Agent.Examples.{
  plain, one_proposal, one_meta, one_service, env_at, says, article_y, teach, answer, one_found,
}

abbrev confirms : Text → ConfirmRequest
confirms who = record { session_id = codes "s"; visitor_id = who; proposal_id = codes "p" }

abbrev waiting : Pending
waiting = record { interrupt_id = codes "i"; proposal = one_proposal }

one_waits : pending_of (confirms (codes "ann")) one_service ≡ ok waiting
unfolding one_service pending_of load store empty same
one_waits = refl

confirmed : (open_confirm (env_at 120) (confirms (codes "ann")) one_service).0 ≡ ok waiting
unfolding one_service open_confirm pending_of get_meta trim_space same load create_with_article
    new_file_store write_meta store empty
confirmed = refl

open_confirm_sound_example :
    ((m : SessionMeta) × ((get_meta (codes "s") 120 one_service.sessions).0 ≡ some m)
      × (is_foreign m (codes "ann") ≡ false))
    × (load (codes "s") one_service.interrupt_ids ≡ some (codes "i"))
    × (load (codes "s") one_service.proposals ≡ some one_proposal)
    × (codes "p" ≡ codes "p")
open_confirm_sound_example =
    open_confirm_sound (env_at 120) (confirms (codes "ann")) one_service waiting confirmed

confirm_once_example :
    (open_confirm
      (env_at 130)
      (confirms (codes "ann"))
      (finish_confirm plain
        (λ t. t)
        (env_at 120)
        (env_at 121)
        (codes "s")
        waiting
        (err (codes "no worker"))
        (ok answer)
        one_service).1).0
    ≢ ok waiting
confirm_once_example =
    confirm_once plain (λ t. t) (env_at 120) (env_at 121) waiting (err (codes "no worker")) answer
      one_service (env_at 130) (confirms (codes "ann")) waiting (unfold root_cause in (refl, tt))

open_confirm_after_switch_example :
    (open_confirm
      (env_at 130)
      (confirms (codes "ann"))
      (open_chat plain teach (env_at 120) (says (codes "ann") (some article_y)) one_service).1).0
    ≡ ok waiting
unfolding trim_space same
open_confirm_after_switch_example =
    open_confirm_after_switch plain teach (env_at 120) (env_at 130)
      (says (codes "ann") (some article_y)) (codes "p") article_y one_service one_meta waiting
      (refl, refl) refl refl refl refl one_found refl refl refl refl
      (unfold one_service create_with_article new_file_store in omega arith) one_waits
