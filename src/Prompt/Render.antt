-- ===== src/Prompt/Render.antt =====
-- builder.go, section.go: the whole instruction.
use mathlib.Core.List.{append_assoc, append-nil}
use code_runner_backend.Prelude.{
  ℕ, ◌+◌, ◌*◌, ◌≡◌, refl, Bool, true, false, List, [], ◌∷◌, ◌++◌, Option, none, some, ap, sym, ◌∙◌,
  if◌then◌else◌, not, arith, inl, inr, Bool-cases, length,
}
use code_runner_backend.Prelude.Text.{
  Text, codes, contains_char, decimal, is_empty, trim_space, is_space,
}
use code_runner_backend.Prelude.Digits.{decimal_free}
use code_runner_backend.Prompt.Tags.{
  Tag, untrusted_article, untrusted_code_block, match_close, match_at, count_tags,
}
use code_runner_backend.Prompt.Neutral.{count_tags-append}
use code_runner_backend.Prompt.Joined.{count_tags-space, count_tags-trim_space}
use code_runner_backend.Prompt.Payload.{
  one_for, free-append, article_payload_closes, code_blocks_payload_closes,
}
use code_runner_backend.Prompt.Build.{
  CodeBlock, ArticleContext, Section, core_identity, trust_boundary, scope, build_focus, focus_of,
  valid_focus, when, is_nil, build_article_payload, build_code_blocks_payload, build, render_all,
  render,
}

abbrev closings : Tag → Text → ℕ
closings at s = count_tags (match_close at) s

-- A blank text has no closing tag.
blank_closings : (at : Tag) (s : Text) → is_empty (trim_space s) ≡ true → closings at s ≡ 0
unfolding count_tags
blank_closings at s h = sym (count_tags-trim_space at s) ∙ go (trim_space s) h
  where
    go : (t : Text) → is_empty t ≡ true → closings at t ≡ 0
    go [] h = refl
    go (c ∷ t) h = absurd (cc)

-- A section adds the closing tags that it has whatever follows.
closings-render_all :
    (at : Tag) (s : Section) (ss : List Section) (k : ℕ)
    → ((v : Text) → closings at (s.content ++ v) ≡ k + closings at v)
    → closings at (render_all (s ∷ ss)) ≡ k + closings at (render_all ss)
unfolding render_all count_tags match_at
closings-render_all at s ss k h = elim (Bool-cases (is_empty (trim_space s.content))) [
  | inl e ↦ ground (arith, blank_closings at s.content e, h [], append-nil s.content)
  | inr e ↦ ground (arith, h (codes "\n\n" ++ render_all ss))
]

closings-last : (at : Tag) (s : Section) → closings at (render_all (s ∷ [])) ≡ closings at s.content
unfolding render_all count_tags is_space
closings-last at s = elim (Bool-cases (is_empty (trim_space s.content))) [
  | inl e ↦ ground (arith, blank_closings at s.content e)
  | inr e ↦ ground (
    arith,
    append_assoc s.content (10 ∷ []) (10 ∷ []),
    count_tags-space 10 refl at s.content,
    count_tags-space 10 refl at (s.content ++ 10 ∷ []),
  )
]

-- A section that closes nothing.
closings-silent :
    (at : Tag) (s : Section) (ss : List Section)
    → ((v : Text) → closings at (s.content ++ v) ≡ closings at v)
    → closings at (render_all (s ∷ ss)) ≡ closings at (render_all ss)
closings-silent at s ss h = omega (arith, closings-render_all at s ss 0 (λ v. omega (arith, h v)))

fixed_closings :
    (at : Tag) (v : Text)
    → (closings at (core_identity.content ++ v) ≡ closings at v)
      × (closings at (trust_boundary.content ++ v) ≡ closings at v)
      × (closings at (scope.content ++ v) ≡ closings at v)
unfolding count_tags match_at match_close
fixed_closings at v = (refl, refl, refl)

focus_free : (i : ℕ) → contains_char b'<' (build_focus i).content ≡ false
unfolding build_focus contains_char
focus_free i =
    free-append (decimal i)
      (codes "\". When the user says \"这段代码\" / \"this code\" ambiguously, default to that block.")
      (decimal_free b'<' refl i) refl

focus_closings :
    (at : Tag) (f : Option ℕ) (rest : List Section)
    → closings at (render_all (focus_of f ++ rest)) ≡ closings at (render_all rest)
focus_closings at none rest = refl
focus_closings at (some i) rest =
    closings-silent at (build_focus i) rest
      (λ v. count_tags-append (match_close at) (build_focus i).content v (focus_free i))

-- The program's own sections close nothing.
own_closings :
    (at : Tag) (f : Option ℕ) (rest : List Section)
    → closings at (render_all (core_identity ∷ trust_boundary ∷ scope ∷ (focus_of f ++ rest)))
      ≡ closings at (render_all rest)
own_closings at f rest =
    let focus = focus_of f ++ rest in
    closings-silent at core_identity (trust_boundary ∷ scope ∷ focus) (λ v. (fixed_closings at v).0)
    ∙ closings-silent at trust_boundary (scope ∷ focus) (λ v. (fixed_closings at v).1)
    ∙ closings-silent at scope focus (λ v. (fixed_closings at v).2)
    ∙ focus_closings at f rest

article_closings :
    (at : Tag) (b : Bool) (a : ArticleContext) (rest : List Section)
    → closings at (render_all (when b (build_article_payload a) ++ rest))
      ≡ (if b then one_for untrusted_article at else 0) + closings at (render_all rest)
article_closings at false a rest = omega arith
article_closings at true a rest =
    closings-render_all at (build_article_payload a) rest (one_for untrusted_article at)
      (article_payload_closes at a)

blocks_closings :
    (at : Tag) (a : ArticleContext)
    → closings at (render_all (when (not (is_nil a.code_blocks)) (build_code_blocks_payload a)))
      ≡ length a.code_blocks * one_for untrusted_code_block at
unfolding render_all count_tags is_space
blocks_closings at a = go a.code_blocks refl
  where
    go :
        (bs : List CodeBlock)
        → a.code_blocks ≡ bs
        → closings at (render_all (when (not (is_nil bs)) (build_code_blocks_payload a)))
          ≡ length a.code_blocks * one_for untrusted_code_block at
    go [] e = ground (arith, e)
    go (b ∷ bs) e = closings-last at (build_code_blocks_payload a) ∙ code_blocks_payload_closes at a

-- The instruction for an article closes its untrusted parts exactly where the program does, whatever
-- the article and the code say: it has one closing tag of the article, if the article has a text, one
-- closing tag of a code block for each of the code blocks, and no others.
pub render-build_closes :
    (at : Tag) (a : ArticleContext)
    → count_tags (match_close at) (render (build (some a)))
      ≡ (if not (is_empty a.article_content) then one_for untrusted_article at else 0)
        + length a.code_blocks * one_for untrusted_code_block at
unfolding render build
render-build_closes at a =
    let article = when (not (is_empty a.article_content)) (build_article_payload a) in
    let blocks = when (not (is_nil a.code_blocks)) (build_code_blocks_payload a) in
    count_tags-trim_space at (render_all (build (some a)))
    ∙ ap (λ ss. closings at (render_all (core_identity ∷ trust_boundary ∷ scope ∷ ss)))
        (append_assoc (focus_of (valid_focus a)) article blocks)
    ∙ own_closings at (valid_focus a) (article ++ blocks)
    ∙ article_closings at (not (is_empty a.article_content)) a blocks
    ∙ ap (λ k. (if not (is_empty a.article_content) then one_for untrusted_article at else 0) + k)
        (blocks_closings at a)
