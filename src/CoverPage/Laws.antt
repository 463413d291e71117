-- ===== src/CoverPage/Laws.antt =====
-- app/pdf_merger.py: the rounds of the substitution, and texts without placeholders.
use bulk_processing_service.Base.{
  All, Option-cases, Text, [], ap, arith, codes, inl, inr, length, none, refl, some, suc, sym, zero,
  ℕ, ◌++◌, ◌+◌, ◌∙◌, ◌∷◌, ◌≡◌, ◌≢◌, ◌≤◌,
}
use bulk_processing_service.CoverPage.{
  match_placeholder, replace_all, resolve_cover_page_placeholders, substitute,
}
use bulk_processing_service.Paths.{strip_prefix}
use bulk_processing_service.Strings.{lstrip}
use bulk_processing_service.Strings.Decimal.{decimal}

strip_prefix-length :
    (p t rest : Text) → strip_prefix p t ≡ some rest → length p + length rest ≤ length t
unfolding strip_prefix
strip_prefix-length [] t rest e = ground arith
strip_prefix-length (c ∷ p) [] rest e = absurd (ground arith)
strip_prefix-length (c ∷ p) (d ∷ t) rest e = ground (arith, strip_prefix-length p t rest)

length-lstrip : (t : Text) → length (lstrip t) ≤ length t
unfolding lstrip
length-lstrip [] = omega arith
length-lstrip (c ∷ t) = ground (arith, length-lstrip t)

-- A match takes at least its braces.
match_placeholder_shorter :
    (name t rest : Text) → match_placeholder name t ≡ some rest → length rest + 2 ≤ length t
unfolding match_placeholder
match_placeholder_shorter name t rest e = elim (Option-cases (strip_prefix (codes "{{") t)) [
  | inl no_braces ↦ absurd (ground arith)
  | inr (t1, opened) ↦ elim (Option-cases (strip_prefix name (lstrip t1))) [
    | inl no_name ↦ absurd (ground arith)
    | inr (t2, named) ↦
        let closed : strip_prefix (codes "}}") (lstrip t2) ≡ some rest = ground arith in
        let a = strip_prefix-length (codes "{{") t t1 opened in
        let b = strip_prefix-length name (lstrip t1) t2 named in
        let c = strip_prefix-length (codes "}}") (lstrip t2) rest closed in
        omega (arith, a, b, c, length-lstrip t1, length-lstrip t2)
  ]
]

module _ (name replacement : Text) where
  step_plain :
      (n c : ℕ) (t : Text)
      → match_placeholder name (c ∷ t) ≡ none
      → substitute (suc n) name replacement (c ∷ t) ≡ c ∷ substitute n name replacement t
  unfolding substitute
  step_plain n c t e = ground arith

  step_found :
      (n c : ℕ) (t rest : Text)
      → match_placeholder name (c ∷ t) ≡ some rest
      → substitute (suc n) name replacement (c ∷ t)
        ≡ replacement ++ substitute n name replacement rest
  unfolding substitute
  step_found n c t rest e = ground arith

-- As many rounds as the text has characters are enough: any two numbers of rounds that are not
-- smaller give the same result.
substitute_enough :
    (n m : ℕ) (name replacement t : Text)
    → length t ≤ n
    → length t ≤ m
    → substitute n name replacement t ≡ substitute m name replacement t
unfolding substitute
substitute_enough zero zero name replacement t hn hm = refl
substitute_enough zero (suc m) name replacement [] hn hm = refl
substitute_enough (suc n) zero name replacement [] hn hm = refl
substitute_enough zero (suc m) name replacement (c ∷ t) hn hm = absurd (omega arith)
substitute_enough (suc n) zero name replacement (c ∷ t) hn hm = absurd (omega arith)
substitute_enough (suc n) (suc m) name replacement [] hn hm = refl
substitute_enough (suc n) (suc m) name replacement (c ∷ t) hn hm =
    elim (Option-cases (match_placeholder name (c ∷ t))) [
      | inl plain ↦
          step_plain name replacement n c t plain
          ∙ ap (λ u. c ∷ u) (substitute_enough n m name replacement t (omega arith) (omega arith))
          ∙ sym (step_plain name replacement m c t plain)
      | inr (rest, found) ↦
          let short = match_placeholder_shorter name (c ∷ t) rest found in
          step_found name replacement n c t rest found
          ∙ ap (λ u. replacement ++ u)
              (substitute_enough n m name replacement rest (omega (arith, short))
                (omega (arith, short)))
          ∙ sym (step_found name replacement m c t rest found)
    ]

no_match : (name t : Text) → All (λ c. c ≢ b'{') t → match_placeholder name t ≡ none
unfolding match_placeholder strip_prefix
no_match name [] h = refl
no_match name (c ∷ t) (h, hs) = ground arith

substitute_plain :
    (n : ℕ) (name replacement t : Text)
    → All (λ c. c ≢ b'{') t
    → substitute n name replacement t ≡ t
unfolding substitute
substitute_plain zero name replacement t h = refl
substitute_plain (suc n) name replacement [] h = refl
substitute_plain (suc n) name replacement (c ∷ t) h =
    step_plain name replacement n c t (no_match name (c ∷ t) h)
    ∙ ap (λ u. c ∷ u) (substitute_plain n name replacement t h.1)

-- A cover page without an opening brace is left as it is, whatever the number of pages.
resolve_plain :
    (cover_html : Text) (page_count : ℕ)
    → All (λ c. c ≢ b'{') cover_html
    → resolve_cover_page_placeholders cover_html page_count ≡ cover_html
unfolding resolve_cover_page_placeholders
resolve_plain cover_html page_count h =
    ap (replace_all (codes "PAGES_TOTAL_COUNT") (decimal page_count))
      (substitute_plain (length cover_html) (codes "PAGE_NUMBER") (codes "1") cover_html h)
    ∙ substitute_plain (length cover_html) (codes "PAGES_TOTAL_COUNT") (decimal page_count)
        cover_html h
