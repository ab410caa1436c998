-- ===== src/Feedback/Examples.antt =====
-- The feedback form at concrete inputs.
use code_runner_backend.Prelude.{
  ◌≡◌, ◌≤◌, ◌*◌, ◌==◌, refl, true, false, [], ◌∷◌, some, arith, count_if,
}
use code_runner_backend.Prelude.Text.{
  codes, contains_char, trim_space, trim_left, is_space, same, split,
}
use code_runner_backend.Prelude.TextMap.{empty, load, store}
use code_runner_backend.Limiter.{Config, allow, admit, refresh, bucket_of}
use code_runner_backend.Feedback.{
  Feedback, valid_type, validate, feedback_of, Mail, mail_of, is_email, match_local, match_domain,
  match_letters, is_local, is_domain, Moment, submit, Request, extract_ip, handle_feedback,
}
use code_runner_backend.Feedback.Status.{IsValid, command_of, handle_feedback_sound, mail_of_safe}
use code_runner_backend.Feedback.Mails.{calls_of, mails_of, mails_of-le}

abbrev two_a_minute : Config
two_a_minute = record { per_minute = 2; per_day = 9 }

abbrev noon : Moment
noon = record { stored_at = 5; now = 6; stamp = codes "2026-01-01 12:00:00"; sends = true }

abbrev praise : Feedback
praise = record {
  type = codes "other";
  content = codes " <b>well done</b> ";
  contact = codes "a.b@c.org";
}

abbrev from_proxy : Request
from_proxy = record {
  real_ip = [];
  forwarded_for = codes "9.9.9.9, 1.2.3.4";
  remote_ip = codes "10.0.0.1";
  form = some praise;
}

address_found : extract_ip from_proxy ≡ codes "1.2.3.4"
unfolding extract_ip split trim_space trim_left is_space
address_found = refl

addresses :
    (is_email (codes "a.b@c.org") ≡ true)
    × (is_email (codes "a@b@c.org") ≡ false)
    × (is_email (codes "a@c.o") ≡ false)
    × (is_email (codes "a@.org") ≡ false)
    × (is_email (codes "a@c.org\n") ≡ false)
unfolding is_email match_local match_domain match_letters is_local is_domain
addresses = (refl, refl, refl, refl, refl)

abbrev praise_mail : Mail
praise_mail =
    mail_of noon.stamp (extract_ip from_proxy) (feedback_of (command_of from_proxy praise))

praise_sent : (handle_feedback two_a_minute noon from_proxy empty).1 ≡ some praise_mail
unfolding handle_feedback submit allow admit refresh bucket_of validate valid_type feedback_of
    extract_ip split trim_space trim_left is_space same load store empty
praise_sent = refl

handle_feedback_sound_example :
    (f : Feedback) × (from_proxy.form ≡ some f)
    × ((allow two_a_minute (extract_ip from_proxy) 5 6 empty).0 ≡ true)
    × IsValid (feedback_of (command_of from_proxy f))
    × (praise_mail
        ≡ mail_of noon.stamp (extract_ip from_proxy) (feedback_of (command_of from_proxy f)))
handle_feedback_sound_example =
    handle_feedback_sound two_a_minute noon from_proxy empty praise_mail praise_sent

mail_of_safe_example :
    (count_if (λ d. d == b'<') praise_mail.body ≡ 2)
    × (contains_char 10 praise_mail.reply_to ≡ false)
mail_of_safe_example =
    mail_of_safe noon.stamp (extract_ip from_proxy) (feedback_of (command_of from_proxy praise)) 10
      (omega arith)

mails_of-le_example :
    mails_of two_a_minute (codes "1.2.3.4") ((noon, from_proxy) ∷ (noon, from_proxy) ∷ []) empty
    ≤ 2 * 2
unfolding calls_of
mails_of-le_example =
    mails_of-le two_a_minute (codes "1.2.3.4") 5 ((noon, from_proxy) ∷ (noon, from_proxy) ∷ [])
      empty
      (
        λ e. (omega arith, omega arith, omega arith),
        (λ e. (omega arith, omega arith, omega arith), tt),
      )
