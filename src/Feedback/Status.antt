-- ===== src/Feedback/Status.antt =====
-- The feedback form: what is sent and what is answered.
use code_runner_backend.Prelude.{
  ℕ, suc, ◌≤◌, ◌<◌, ◌≡◌, refl, Bool, true, false, not, [], ◌∷◌, ◌++◌, Option, none, some, ◌==◌,
  ◌&&◌, ◌||◌, arith, inl, inr, Option-cases, Bool-cases, length, count_if, count_if-append,
}
use code_runner_backend.Prelude.Text.{Text, codes, trim_space, contains_char}
use code_runner_backend.Limiter.{Config, Buckets, allow}
use code_runner_backend.Feedback.{
  Feedback, FeedbackError, valid_type, validate, SubmitCmd, Mail, escape_char, escape, type_label,
  contact_line, build_html, mail_of, feedback_of, Moment, submit, Request, extract_ip, status_of,
  handle_feedback, is_local, is_domain, match_letters, match_domain, match_local, is_email,
}

abbrev pub is_mail : Option Mail → Bool
is_mail none = false
is_mail (some _) = true

-- The command of a form.
abbrev pub command_of : Request → Feedback → SubmitCmd
command_of r f = record {
  ip = extract_ip r;
  type = f.type;
  content = f.content;
  contact = f.contact;
}

-- What makes a form one to send: a type that is known, ten to two thousand characters without the white
-- space around them, and a contact of a hundred characters at most.
abbrev pub IsValid : Feedback → Type 0
IsValid f =
    (valid_type f.type ≡ true)
    × (10 ≤ length (trim_space f.content))
    × (length (trim_space f.content) ≤ 2000)
    × (length (trim_space f.contact) ≤ 100)

validate_lem : (f : Feedback) → validate f ≡ none → IsValid f
unfolding validate
validate_lem f e = ground (arith, e)

validate_status :
    (f : Feedback) (x : FeedbackError) → validate f ≡ some x → status_of (some x) ≡ 400
unfolding validate status_of
validate_status f x e = ground (arith, e)

-- The answer tells what became of the mail: it is 200 exactly if one was handed to the mailer and sent,
-- 500 exactly if one was handed over and not sent, and 400 or 429 otherwise.
pub handle_feedback_status :
    (cfg : Config) (at : Moment) (r : Request) (m : Buckets)
    → let (status, mail, m') = handle_feedback cfg at r m in
      ((status == 200) ≡ (is_mail mail && at.sends))
      × ((status == 500) ≡ (is_mail mail && not at.sends))
      × ((status == 400 || status == 429) ≡ not (is_mail mail))
unfolding handle_feedback submit status_of
handle_feedback_status cfg at r m = elim (Option-cases r.form) [
  | inl e ↦ ground (arith, e)
  | inr (f, e) ↦
      let v = feedback_of (command_of r f) in
      elim (Option-cases (validate v)) [
        | inl w ↦ ground (arith, e, w)
        | inr (x, w) ↦ ground (arith, e, w, validate_status v x w)
      ]
]

-- A mail is sent only for a form that is valid and that the limiter lets through, and it is the mail of
-- that form.
pub handle_feedback_sound :
    (cfg : Config) (at : Moment) (r : Request) (m : Buckets) (mail : Mail)
    → (handle_feedback cfg at r m).1 ≡ some mail
    → (f : Feedback) × (r.form ≡ some f)
      × ((allow cfg (extract_ip r) at.stored_at at.now m).0 ≡ true)
      × IsValid (feedback_of (command_of r f))
      × (mail ≡ mail_of at.stamp (extract_ip r) (feedback_of (command_of r f)))
unfolding handle_feedback submit
handle_feedback_sound cfg at r m mail e = elim (Option-cases r.form) [
  | inl f ↦ absurd (ground arith)
  | inr (f, g) ↦
      let v = feedback_of (command_of r f) in
      elim (Option-cases (validate v)) [
        | inl w ↦ (f, g, ground arith, validate_lem v w, ground arith)
        | inr (x, w) ↦ absurd (ground arith)
      ]
]

abbrev opens : ℕ → Bool
opens c = c == b'<'

escape_closed : (s : Text) → count_if opens (escape s) ≡ 0
unfolding escape escape_char
escape_closed [] = refl
escape_closed (c ∷ s) =
    ground (arith, escape_closed s, count_if-append opens (escape_char c) (escape s))

closed_line : (s : Text) → count_if opens (contact_line s) ≡ 0
unfolding contact_line
closed_line [] = refl
closed_line (c ∷ s) = escape_closed (c ∷ s)

-- Two parts of the body, of which the first opens no tag.
closed-append :
    (s t : Text) (n : ℕ) → count_if opens s ≡ 0 → count_if opens t ≡ n → count_if opens (s ++ t) ≡ n
closed-append s t n h k = omega (arith, count_if-append opens s t, h, k)

-- Whatever the form says, the body of its mail opens two tags, those that the program writes.
build_html_tags : (stamp ip : Text) (f : Feedback) → count_if opens (build_html stamp ip f) ≡ 2
unfolding build_html
build_html_tags stamp ip f =
    let tail : Text = codes "\n</pre>" in
    let content : Text = codes "\n\n---\n" ++ (escape f.content ++ tail) in
    let contact : Text = codes "\n联系方式：" ++ (contact_line f.contact ++ content) in
    let label : Text = codes "\n类型：" ++ (escape (type_label f.type) ++ contact) in
    let address : Text = codes "\nIP：" ++ (escape ip ++ label) in
    let time = closed-append (escape stamp) address 1 (escape_closed stamp) (
      closed-append (escape ip) label 1 (escape_closed ip) (
        closed-append (escape (type_label f.type)) contact 1 (escape_closed (type_label f.type)) (
          closed-append (contact_line f.contact) content 1 (closed_line f.contact)
            (closed-append (escape f.content) tail 1 (escape_closed f.content) refl)))) in
    omega (arith, time)

module _ (c : ℕ) (h : c < 33) where
  letters_closed : (n : ℕ) (s : Text) → match_letters n s ≡ true → contains_char c s ≡ false
  unfolding match_letters contains_char
  letters_closed n [] e = refl
  letters_closed n (d ∷ s) e = ground (arith, h, letters_closed (suc n) s)

  domain_closed : (more : Bool) (s : Text) → match_domain more s ≡ true → contains_char c s ≡ false
  unfolding match_domain is_domain contains_char
  domain_closed more [] e = refl
  domain_closed more (d ∷ s) e = ground (arith, h, letters_closed 0 s, domain_closed true s)

  local_closed : (more : Bool) (s : Text) → match_local more s ≡ true → contains_char c s ≡ false
  unfolding match_local is_local contains_char
  local_closed more [] e = refl
  local_closed more (d ∷ s) e = ground (arith, h, domain_closed false s, local_closed true s)

-- Whatever the form says, the body of its mail opens two tags, those that the program writes, and the
-- address to reply to has neither a blank nor a control character of ASCII below it.
pub mail_of_safe :
    (stamp ip : Text) (f : Feedback) (c : ℕ)
    → c < 33
    → (count_if (λ d. d == b'<') (mail_of stamp ip f).body ≡ 2)
      × (contains_char c (mail_of stamp ip f).reply_to ≡ false)
unfolding mail_of is_email contains_char
mail_of_safe stamp ip f c h = (
  build_html_tags stamp ip f,
  elim (Bool-cases (match_local false f.contact)) [
    | inl e ↦ ground (arith, local_closed c h false f.contact e)
    | inr e ↦ ground (arith, e)
  ],
)
