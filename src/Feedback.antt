-- ===== src/Feedback.antt =====
-- The feedback form: internal/domain/feedback/feedback.go, internal/application/feedback/service.go and
-- internal/interfaces/controller/feedback/handler.go. The mailer is whether it sends, the time of day
-- is its text.
pub mod Status
pub mod Mails
mod Examples
use code_runner_backend.Prelude.{
  ℕ, zero, suc, ◌+◌, Bool, true, false, not, List, [], ◌∷◌, ◌++◌, Option, none, some, if◌then◌else◌,
  ltb, leb, ◌==◌, ◌&&◌, ◌||◌, length, take,
}
use code_runner_backend.Prelude.Text.{Text, codes, same, is_empty, trim_space, split, decimal}
use code_runner_backend.Limiter.{Config, Buckets, allow}

pub record Feedback : Type 0 where
  pub type : Text
  pub content : Text
  pub contact : Text

pub data FeedbackError : Type 0 where
  invalid_type invalid_content invalid_contact rate_limited mail_send : FeedbackError

unfoldable pub valid_type : Text → Bool
valid_type t = same t (codes "bug") || same t (codes "suggestion") || same t (codes "other")

unfoldable pub validate : Feedback → Option FeedbackError
unfolding valid_type
validate f =
    let n = length (trim_space f.content) in
    if not (valid_type f.type)
    then some invalid_type
    else if ltb n 10 || ltb 2000 n
    then some invalid_content
    else if ltb 100 (length (trim_space f.contact))
    then some invalid_contact
    else none

pub record SubmitCmd : Type 0 where
  pub ip : Text
  pub type : Text
  pub content : Text
  pub contact : Text

pub record Mail : Type 0 where
  pub subject : Text
  pub body : Text
  pub reply_to : Text

abbrev is_letter : ℕ → Bool
is_letter c = (leb b'a' c && leb c b'z') || (leb b'A' c && leb c b'Z')

abbrev is_digit : ℕ → Bool
is_digit c = leb b'0' c && leb c b'9'

-- `[a-zA-Z0-9._%+\-]` and `[a-zA-Z0-9.\-]`
unfoldable pub is_local : ℕ → Bool
is_local c =
    is_letter c || is_digit c || c == b'.' || c == b'_' || c == b'%' || c == b'+' || c == b'-'

unfoldable pub is_domain : ℕ → Bool
is_domain c = is_letter c || is_digit c || c == b'.' || c == b'-'

-- `[a-zA-Z]{2,}$`
unfoldable pub match_letters : ℕ → Text → Bool
match_letters n [] = leb 2 n
match_letters n (c ∷ s) = is_letter c && match_letters (suc n) s

-- `[a-zA-Z0-9.\-]+\.[a-zA-Z]{2,}$`; `more`: a character of the domain was there.
unfoldable pub match_domain : Bool → Text → Bool
unfolding match_letters is_domain
match_domain more [] = false
match_domain more (c ∷ s) =
    (more && c == b'.' && match_letters 0 s) || (is_domain c && match_domain true s)

-- `^[a-zA-Z0-9._%+\-]+@` and the rest of emailRegexp
unfoldable pub match_local : Bool → Text → Bool
unfolding match_domain is_local
match_local more [] = false
match_local more (c ∷ s) =
    (more && c == b'@' && match_domain false s) || (is_local c && match_local true s)

unfoldable pub is_email : Text → Bool
unfolding match_local
is_email s = match_local false s

-- `html.EscapeString`
unfoldable pub escape_char : ℕ → Text
escape_char c =
    if c == b'<'
    then codes "&lt;"
    else if c == b'>'
    then codes "&gt;"
    else if c == b'&'
    then codes "&amp;"
    else if c == b'\''
    then codes "&#39;"
    else if c == b'"'
    then codes "&#34;"
    else c ∷ []

unfoldable pub escape : Text → Text
unfolding escape_char
escape [] = []
escape (c ∷ s) = escape_char c ++ escape s

-- A type that is in no entry of the map has the empty label.
unfoldable pub type_label : Text → Text
type_label t =
    if same t (codes "bug")
    then codes "Bug"
    else if same t (codes "suggestion")
    then codes "建议"
    else if same t (codes "other")
    then codes "其他"
    else []

unfoldable pub contact_line : Text → Text
unfolding escape
contact_line contact = if is_empty contact then codes "（未填写）" else escape contact

unfoldable pub build_html : Text → Text → Feedback → Text
unfolding escape type_label contact_line
build_html stamp ip f =
    codes "<pre>\n时间："
    ++ (escape stamp
        ++ (codes "\nIP："
            ++ (escape ip
                ++ (codes "\n类型："
                    ++ (escape (type_label f.type)
                        ++ (codes "\n联系方式："
                            ++ (contact_line f.contact
                                ++ (codes "\n\n---\n"
                                    ++ (escape f.content ++ codes "\n</pre>")))))))))

unfoldable pub mail_of : Text → Text → Feedback → Mail
unfolding build_html is_email
mail_of stamp ip f = record {
  subject = codes "[CodeRunner反馈][" ++ f.type ++ codes "] " ++ take 30 f.content;
  body = build_html stamp ip f;
  reply_to = if is_email f.contact then f.contact else [];
}

-- The form as Submit makes it of a command.
unfoldable pub feedback_of : SubmitCmd → Feedback
feedback_of cmd = record {
  type = cmd.type;
  content = trim_space cmd.content;
  contact = trim_space cmd.contact;
}

-- Where a request is: the two readings of the limiter's clock, the time of day, and whether the mailer
-- sends.
pub record Moment : Type 0 where
  pub stored_at : ℕ
  pub now : ℕ
  pub stamp : Text
  pub sends : Bool

-- The error, the mail that was handed to the mailer, and the limiter.
unfoldable pub submit :
    Config → Moment → SubmitCmd → Buckets → Option FeedbackError × Option Mail × Buckets
unfolding validate feedback_of mail_of
submit cfg at cmd m =
    let (allowed, m') = allow cfg cmd.ip at.stored_at at.now m in
    if not allowed
    then (some rate_limited, none, m')
    else let f = feedback_of cmd in
      elim (validate f) [
        | some e ↦ (some e, none, m')
        | none ↦ (if at.sends then none else some mail_send, some (mail_of at.stamp cmd.ip f), m')
      ]

-- The headers are empty if they are missing.
pub record Request : Type 0 where
  pub real_ip : Text
  pub forwarded_for : Text
  pub remote_ip : Text
  pub form : Option Feedback

abbrev last_part : List Text → Text
last_part [] = []
last_part (p ∷ []) = p
last_part (p ∷ q ∷ ps) = last_part (q ∷ ps)

unfoldable pub extract_ip : Request → Text
extract_ip r =
    if not (is_empty r.real_ip)
    then trim_space r.real_ip
    else if not (is_empty r.forwarded_for)
    then trim_space (last_part (split b',' r.forwarded_for))
    else r.remote_ip

unfoldable pub status_of : Option FeedbackError → ℕ
status_of none = 200
status_of (some rate_limited) = 429
status_of (some invalid_type) = 400
status_of (some invalid_content) = 400
status_of (some invalid_contact) = 400
status_of (some mail_send) = 500

-- `form`: what ShouldBindJSON reads; a type or a content that is empty is refused there.
unfoldable pub handle_feedback : Config → Moment → Request → Buckets → ℕ × Option Mail × Buckets
unfolding submit extract_ip status_of
handle_feedback cfg at r m = elim r.form [
  | none ↦ (400, none, m)
  | some f ↦
      if is_empty f.type || is_empty f.content
      then (400, none, m)
      else let cmd : SubmitCmd = record {
        ip = extract_ip r;
        type = f.type;
        content = f.content;
        contact = f.contact;
      } in
        let (e, mail, m') = submit cfg at cmd m in (status_of e, mail, m')
]
