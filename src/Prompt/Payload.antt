-- ===== src/Prompt/Payload.antt =====
-- sections.go: the untrusted parts of the prompt end where the program ends them.
use mathlib.Core.List.{append_assoc}
use code_runner_backend.Prelude.{
  ℕ, zero, suc, ◌+◌, ◌*◌, ◌≡◌, refl, false, List, [], ◌∷◌, ◌++◌, ◌∙◌, arith, inl, inr, Bool-cases,
  length, take, keep,
}
use code_runner_backend.Prelude.Text.{Text, codes, contains_char, decimal, is_empty, is_space}
use code_runner_backend.Prompt.Tags.{
  Tag, untrusted_article, untrusted_code_block, fold, is_blank, skip_blank, match_name, match_end,
  match_close_name, match_close, match_at, count_tags, neutralize_reserved_tags,
}
use code_runner_backend.Prompt.Neutral.{count_tags-append}
use code_runner_backend.Prelude.Digits.{contains_char-append, decimal_free}
use code_runner_backend.Prompt.Clean.{neutralize_reserved_tags_removes}
use code_runner_backend.Prompt.Joined.{
  count_tags-append_tag, count_tags-space, count_tags-trim_space,
}
use code_runner_backend.Prompt.Build.{
  CodeBlock, ArticleContext, is_attr, sanitize_language_attr, article_payload,
  build_article_payload, block_head, block_text, blocks_from, build_code_blocks_payload,
}

abbrev closing : Tag → Text
closing untrusted_article = codes "/untrusted_article>"
closing untrusted_code_block = codes "/untrusted_code_block>"

-- One closing tag, for `tag`, as `at` counts.
abbrev pub one_for : Tag → Tag → ℕ
one_for untrusted_article untrusted_article = 1
one_for untrusted_article untrusted_code_block = 0
one_for untrusted_code_block untrusted_article = 0
one_for untrusted_code_block untrusted_code_block = 1

count_closing :
    (tag at : Tag) (v : Text)
    → count_tags (match_close at) (b'<' ∷ (closing tag ++ v))
      ≡ one_for tag at + count_tags (match_close at) v
unfolding count_tags match_at match_close match_close_name match_end match_name skip_blank is_blank
    fold
count_closing untrusted_article untrusted_article v = omega arith
count_closing untrusted_article untrusted_code_block v = omega arith
count_closing untrusted_code_block untrusted_article v = omega arith
count_closing untrusted_code_block untrusted_code_block v = omega arith

-- A neutralized text in its own line, with a closing tag behind it.
count_wrapped :
    (tag at : Tag) (s v : Text)
    → count_tags (match_close at) (neutralize_reserved_tags s ++ 10 ∷ b'<' ∷ (closing tag ++ v))
      ≡ one_for tag at + count_tags (match_close at) v
unfolding is_space
count_wrapped tag at s v =
    let n = neutralize_reserved_tags s in
    ground (
      arith,
      append_assoc n (10 ∷ []) (b'<' ∷ (closing tag ++ v)),
      count_tags-append_tag at (n ++ 10 ∷ []) (closing tag ++ v),
      count_tags-space 10 refl at n,
      (neutralize_reserved_tags_removes at s).1,
      count_closing tag at v,
    )

-- Behind the `<` of an opening tag is no `/`, and no other `<` in the tag.
count_opening :
    (at : Tag) (w v : Text)
    → contains_char b'<' w ≡ false
    → count_tags (match_close at) (b'<' ∷ b'u' ∷ (w ++ v)) ≡ count_tags (match_close at) v
unfolding count_tags match_at match_close
count_opening at w v h = count_tags-append (match_close at) w v h

-- The text of an article has one closing tag, the one that the program writes, before `v`.
pub article_payload_closes :
    (at : Tag) (a : ArticleContext) (v : Text)
    → count_tags (match_close at) ((build_article_payload a).content ++ v)
      ≡ one_for untrusted_article at + count_tags (match_close at) v
unfolding build_article_payload article_payload contains_char count_tags
article_payload_closes at a v =
    let n = neutralize_reserved_tags a.article_content in
    let z = codes "\n</untrusted_article>" in
    ground (
      arith,
      append_assoc (codes "<untrusted_article>\n") (n ++ z) v,
      append_assoc n z v,
      count_opening at (codes "ntrusted_article>\n") (n ++ (z ++ v)) refl,
      count_wrapped untrusted_article at a.article_content v,
    )

keep_free : (s : Text) → contains_char b'<' (keep is_attr s) ≡ false
unfolding contains_char is_attr
keep_free [] = refl
keep_free (c ∷ s) = ground (arith, keep_free s)

take_free :
    (n : ℕ) (s : Text) → contains_char b'<' s ≡ false → contains_char b'<' (take n s) ≡ false
unfolding contains_char
take_free zero s h = refl
take_free (suc n) [] h = refl
take_free (suc n) (c ∷ s) h = ground (arith, take_free n s)

attr_free : (s : Text) → contains_char b'<' (sanitize_language_attr s) ≡ false
unfolding sanitize_language_attr
attr_free s = take_free 32 (keep is_attr s) (keep_free s)

pub free-append :
    (s t : Text)
    → contains_char b'<' s ≡ false
    → contains_char b'<' t ≡ false
    → contains_char b'<' (s ++ t) ≡ false
free-append s t h k = ground (arith, contains_char-append b'<' s t)

block_head-parts :
    (i : ℕ) (lang : Text)
    → contains_char b'<' lang ≡ false
    → (w : Text) × (block_head i lang ≡ b'<' ∷ b'u' ∷ w) × (contains_char b'<' w ≡ false)
unfolding block_head contains_char
block_head-parts i lang h = elim (Bool-cases (is_empty lang)) [
  | inl e ↦ (
    codes "ntrusted_code_block index=\"" ++ decimal i ++ codes "\">\n",
    ground arith,
    free-append (decimal i) (codes "\">\n") (decimal_free b'<' refl i) refl,
  )
  | inr e ↦ (
    codes "ntrusted_code_block index=\""
        ++ decimal i
        ++ codes "\" language=\""
        ++ lang
        ++ codes "\">\n",
    ground arith,
    free-append (decimal i ++ codes "\" language=\"" ++ lang) (codes "\">\n")
        (free-append (decimal i ++ codes "\" language=\"") lang
          (free-append (decimal i) (codes "\" language=\"") (decimal_free b'<' refl i) refl) h)
        refl,
  )
]

count_block :
    (at : Tag) (i : ℕ) (b : CodeBlock) (v : Text)
    → count_tags (match_close at) (block_text i b ++ v)
      ≡ one_for untrusted_code_block at + count_tags (match_close at) v
unfolding block_text count_tags match_at
count_block at i b v =
    let lang = sanitize_language_attr b.language in
    let n = neutralize_reserved_tags b.code in
    let (w, e, f) = block_head-parts i lang (attr_free b.language) in
    let z = codes "\n</untrusted_code_block>\n\n" in
    ground (
      arith,
      e,
      append_assoc (block_head i lang) (n ++ z) v,
      append_assoc n z v,
      count_opening at w (n ++ (z ++ v)) f,
      count_wrapped untrusted_code_block at b.code (codes "\n\n" ++ v),
    )

count_blocks :
    (at : Tag) (i : ℕ) (bs : List CodeBlock)
    → count_tags (match_close at) (blocks_from i bs) ≡ length bs * one_for untrusted_code_block at
unfolding blocks_from count_tags
count_blocks at i [] = omega arith
count_blocks at i (b ∷ bs) =
    grind (arith, count_block at i b (blocks_from (suc i) bs), count_blocks at (suc i) bs)

-- The text of the code blocks has a closing tag for each of them, the one that the program writes,
-- and none for an article.
pub code_blocks_payload_closes :
    (at : Tag) (a : ArticleContext)
    → count_tags (match_close at) (build_code_blocks_payload a).content
      ≡ length a.code_blocks * one_for untrusted_code_block at
unfolding build_code_blocks_payload
code_blocks_payload_closes at a =
    count_tags-trim_space at (blocks_from 0 a.code_blocks) ∙ count_blocks at 0 a.code_blocks
