-- ===== src/Prompt/Clean.antt =====
-- sections.go: a neutralized text has no reserved tag left.
use code_runner_backend.Prelude.{
  ◌≡◌, true, [], ◌∷◌, ◌++◌, Option, none, some, ◌==◌, arith, inl, inr, Option-cases, Bool-cases,
}
use code_runner_backend.Prelude.Text.{Text, codes}
use code_runner_backend.Prompt.Tags.{
  Tag, untrusted_article, untrusted_code_block, match_open, match_close, match_at, replace_from,
  replace_all, neutralize_reserved_tags, count_tags,
}
use code_runner_backend.Prompt.Neutral.{
  found, upto-replace, contains_end-replace, EndsTag, Unhit, Harmless, count_tags-replace_from,
}
use code_runner_backend.Prompt.Put.{opening_put, closing_no_opening, closing_put}
use code_runner_backend.Prompt.Scan.{
  match_open-found, match_open-put, match_open-EndsTag, match_close-found, match_close_name-parts,
  match_close-EndsTag,
}

-- A pass makes no tag of what it leaves.
module _ (m : Text → Option (Text × Text)) (h : EndsTag m) (tag : Tag) (s : Text) where
  opening-stable :
      found (match_open tag (replace_from m 0 s)) ≡ true → found (match_open tag s) ≡ true
  opening-stable k = ground (
    arith,
    match_open-found tag s,
    match_open-found tag (replace_from m 0 s),
    upto-replace m s,
    contains_end-replace m h s,
  )

  closing-stable :
      found (match_close tag (replace_from m 0 s)) ≡ true → found (match_close tag s) ≡ true
  closing-stable k =
      ground (
        arith,
        match_close-found tag s,
        match_close-found tag (replace_from m 0 s),
        upto-replace m s,
      )

-- The pass for a tag leaves none that it is for.
Unhit-itself : (m : Text → Option (Text × Text)) (s : Text) → Unhit m m s
Unhit-itself m [] = tt
Unhit-itself m (c ∷ s) = (λ e. e, Unhit-itself m s)

-- A text without the tags stays without.
Unhit-free : (m at : Text → Option (Text × Text)) (s : Text) → count_tags at s ≡ 0 → Unhit m at s
unfolding count_tags
Unhit-free m at [] h = tt
Unhit-free m at (c ∷ s) h = elim (Option-cases (match_at at c s)) [
  | inl e ↦ (λ k. e, Unhit-free m at s (ground arith))
  | inr (x, e) ↦ absurd (ground arith)
]

opening_pass_opening : (tag at : Tag) → Harmless (match_open tag) (match_open at)
opening_pass_opening tag at = (
  opening-stable (match_open tag) (match_open-EndsTag tag) at,
  λ s w rest v e. ground (arith, match_open-put tag s w rest e, opening_put tag at v),
)

closing_made :
    (tag at : Tag) (s w rest v : Text)
    → match_close tag s ≡ some (w, rest)
    → match_open at (w ++ v) ≡ none
unfolding match_close
closing_made tag at [] w rest v e = absurd (cc)
closing_made tag at (c ∷ s) w rest v e = elim (Bool-cases (c == b'/')) [
  | inl k ↦
      let (n, t, f, g, h) = match_close_name-parts tag s w rest (ground arith) in
      ground (arith, closing_no_opening at (n ++ codes "_>" ++ v))
  | inr k ↦ absurd (ground arith)
]

closing_pass_opening : (tag at : Tag) → Harmless (match_close tag) (match_open at)
closing_pass_opening tag at = (
  opening-stable (match_close tag) (match_close-EndsTag tag) at,
  λ s w rest v e. closing_made tag at s w rest v e,
)

closing_pass_closing : (tag at : Tag) → Harmless (match_close tag) (match_close at)
closing_pass_closing tag at = (
  closing-stable (match_close tag) (match_close-EndsTag tag) at,
  λ s w rest v e. closing_put tag at s w rest v e,
)

gone :
    (m : Text → Option (Text × Text))
    → EndsTag m
    → Harmless m m
    → (s : Text) → count_tags m (replace_all m s) ≡ 0
unfolding replace_all
gone m h k s = count_tags-replace_from m m h k 0 s (Unhit-itself m s)

kept :
    (m at : Text → Option (Text × Text))
    → EndsTag m
    → Harmless m at
    → (s : Text) → count_tags at s ≡ 0
    → count_tags at (replace_all m s) ≡ 0
unfolding replace_all
kept m at h k s e = count_tags-replace_from m at h k 0 s (Unhit-free m at s e)

abbrev opened : Tag → Text → Text
opened tag s = replace_all (match_open tag) s

abbrev closed : Tag → Text → Text
closed tag s = replace_all (match_close tag) s

opening_gone : (tag : Tag) (s : Text) → count_tags (match_open tag) (opened tag s) ≡ 0
opening_gone tag s = gone (match_open tag) (match_open-EndsTag tag) (opening_pass_opening tag tag) s

closing_gone : (tag : Tag) (s : Text) → count_tags (match_close tag) (closed tag s) ≡ 0
closing_gone tag s =
    gone (match_close tag) (match_close-EndsTag tag) (closing_pass_closing tag tag) s

opening_kept :
    (tag at : Tag) (s : Text)
    → count_tags (match_open at) s ≡ 0
    → count_tags (match_open at) (opened tag s) ≡ 0
opening_kept tag at =
    kept (match_open tag) (match_open at) (match_open-EndsTag tag) (opening_pass_opening tag at)

opening_kept_closed :
    (tag at : Tag) (s : Text)
    → count_tags (match_open at) s ≡ 0
    → count_tags (match_open at) (closed tag s) ≡ 0
opening_kept_closed tag at =
    kept (match_close tag) (match_open at) (match_close-EndsTag tag) (closing_pass_opening tag at)

closing_kept :
    (tag at : Tag) (s : Text)
    → count_tags (match_close at) s ≡ 0
    → count_tags (match_close at) (closed tag s) ≡ 0
closing_kept tag at =
    kept (match_close tag) (match_close at) (match_close-EndsTag tag) (closing_pass_closing tag at)

-- Whatever a text says, the neutralized text has no reserved tag: neither an opening nor a closing one
-- begins anywhere in it.
pub neutralize_reserved_tags_removes :
    (tag : Tag) (s : Text)
    → (count_tags (match_open tag) (neutralize_reserved_tags s) ≡ 0)
      × (count_tags (match_close tag) (neutralize_reserved_tags s) ≡ 0)
unfolding neutralize_reserved_tags
neutralize_reserved_tags_removes untrusted_article s =
    let a = opened untrusted_article s in
    let b = opened untrusted_code_block a in
    let c = closed untrusted_article b in
    (
      opening_kept_closed untrusted_code_block untrusted_article c (
          opening_kept_closed untrusted_article untrusted_article b (
            opening_kept untrusted_code_block untrusted_article a
              (opening_gone untrusted_article s))),
      closing_kept untrusted_code_block untrusted_article c (closing_gone untrusted_article b),
    )
neutralize_reserved_tags_removes untrusted_code_block s =
    let b = opened untrusted_code_block (opened untrusted_article s) in
    let c = closed untrusted_article b in
    (
      opening_kept_closed untrusted_code_block untrusted_code_block c (
          opening_kept_closed untrusted_article untrusted_code_block b
            (opening_gone untrusted_code_block (opened untrusted_article s))),
      closing_gone untrusted_code_block c,
    )
