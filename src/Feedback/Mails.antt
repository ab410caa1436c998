-- ===== src/Feedback/Mails.antt =====
-- The feedback form: how many mails an address can cause.
use code_runner_backend.Prelude.{
  ℕ, suc, ◌*◌, ◌≤◌, ◌≡◌, Bool, true, false, not, List, [], ◌∷◌, Option, none, some, if◌then◌else◌,
  ◌&&◌, ◌||◌, arith, inl, inr, Option-cases, Bool-cases,
}
use code_runner_backend.Prelude.Text.{Text, same, is_empty}
use code_runner_backend.Limiter.{Config, Buckets, allow}
use code_runner_backend.Limiter.Window.{Call, allowed_of, InMinute, allowed_of-le}
use code_runner_backend.Feedback.{
  Feedback, validate, feedback_of, Moment, submit, Request, extract_ip, handle_feedback,
}
use code_runner_backend.Feedback.Status.{is_mail, command_of}

-- The mails that requests of an address cause, one request after the other.
unfoldable pub mails_of : Config → Text → List (Moment × Request) → Buckets → ℕ
mails_of cfg ip [] m = 0
mails_of cfg ip ((at, r) ∷ rest) m =
    let (status, mail, m') = handle_feedback cfg at r m in
    let later = mails_of cfg ip rest m' in
    if same (extract_ip r) ip && is_mail mail then suc later else later

-- Does a request come as far as the limiter?
abbrev pub is_complete : Option Feedback → Bool
is_complete none = false
is_complete (some f) = not (is_empty f.type || is_empty f.content)

-- The calls of the limiter.
unfoldable pub calls_of : List (Moment × Request) → List Call
calls_of [] = []
calls_of ((at, r) ∷ rest) =
    let calls = calls_of rest in
    if is_complete r.form
    then record { ip = extract_ip r; stored_at = at.stored_at; now = at.now } ∷ calls
    else calls

-- A request, seen from the limiter: it is not asked, or its answer bounds the mails.
handle_feedback_limited :
    (cfg : Config) (at : Moment) (r : Request) (m : Buckets)
    → is_complete r.form ≡ true
    → let (status, mail, m') = handle_feedback cfg at r m in
      let (ok, m'') = allow cfg (extract_ip r) at.stored_at at.now m in
      (m' ≡ m'') × ((not (is_mail mail) || ok) ≡ true)
unfolding handle_feedback submit
handle_feedback_limited cfg at r m h = elim (Option-cases r.form) [
  | inl e ↦ absurd (ground arith)
  | inr (f, e) ↦ elim (Option-cases (validate (feedback_of (command_of r f)))) [
    | inl w ↦ ground (arith, h, e, w)
    | inr (x, w) ↦ ground (arith, h, e, w)
  ]
]

handle_feedback_unlimited :
    (cfg : Config) (at : Moment) (r : Request) (m : Buckets)
    → is_complete r.form ≡ false
    → let (status, mail, m') = handle_feedback cfg at r m in (m' ≡ m) × (is_mail mail ≡ false)
unfolding handle_feedback
handle_feedback_unlimited cfg at r m h = elim (Option-cases r.form) [
  | inl e ↦ ground (arith, e)
  | inr (f, e) ↦ ground (arith, h, e)
]

mails_of-allowed_of :
    (cfg : Config) (ip : Text) (requests : List (Moment × Request)) (m : Buckets)
    → mails_of cfg ip requests m ≤ allowed_of cfg ip (calls_of requests) m
unfolding mails_of calls_of allowed_of
mails_of-allowed_of cfg ip [] m = omega arith
mails_of-allowed_of cfg ip ((at, r) ∷ rest) m =
    let m' = (handle_feedback cfg at r m).2 in
    elim (Bool-cases (is_complete r.form)) [
      | inl e ↦
          grind (arith, handle_feedback_limited cfg at r m e, mails_of-allowed_of cfg ip rest m')
      | inr e ↦
          grind (arith, handle_feedback_unlimited cfg at r m e, mails_of-allowed_of cfg ip rest m')
    ]

-- The requests of an address in a minute cause at most twice as many mails as its limit for a minute
-- has, whatever came before and whatever other addresses do.
pub mails_of-le :
    (cfg : Config) (ip : Text) (from : ℕ) (requests : List (Moment × Request)) (m : Buckets)
    → InMinute ip from (calls_of requests)
    → mails_of cfg ip requests m ≤ 2 * cfg.per_minute
mails_of-le cfg ip from requests m h = omega (
  arith,
  mails_of-allowed_of cfg ip requests m,
  allowed_of-le cfg ip from (calls_of requests) m h,
)
