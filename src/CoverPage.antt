-- ===== src/CoverPage.antt =====
-- app/pdf_merger.py: `resolve_cover_page_placeholders`, the substitution of placeholders such as
-- `{{ PAGE_NUMBER }}` in the HTML of a cover page.
pub mod Laws
use bulk_processing_service.Base.{
  Option, Text, [], codes, length, none, some, suc, zero, ℕ, ◌++◌, ◌∷◌,
}
use bulk_processing_service.Paths.{strip_prefix}
use bulk_processing_service.Strings.{lstrip}
use bulk_processing_service.Strings.Decimal.{decimal}

-- `\s*`, which takes every blank that there is: no blank can begin what follows.
abbrev skip_spaces : Text → Text
skip_spaces = lstrip

-- A match of the pattern at the start of a text: what is left behind it.
unfoldable pub match_placeholder : Text → Text → Option Text
match_placeholder name t = elim (strip_prefix (codes "{{") t) [
  | none ↦ none
  | some t1 ↦ elim (strip_prefix name (skip_spaces t1)) [
    | none ↦ none
    | some t2 ↦ strip_prefix (codes "}}") (skip_spaces t2)
  ]
]

-- `re.sub`: the matches from the left, none within another. One round takes a character or a
-- match, so as many rounds as there are characters are enough.
unfoldable pub substitute : ℕ → Text → Text → Text → Text
substitute zero name replacement t = t
substitute (suc rounds) name replacement [] = []
substitute (suc rounds) name replacement (c ∷ t) = elim (match_placeholder name (c ∷ t)) [
  | none ↦ c ∷ substitute rounds name replacement t
  | some rest ↦ replacement ++ substitute rounds name replacement rest
]

abbrev pub replace_all : Text → Text → Text → Text
replace_all name replacement t = substitute (length t) name replacement t

-- `resolve_cover_page_placeholders`
unfoldable pub resolve_cover_page_placeholders : Text → ℕ → Text
resolve_cover_page_placeholders cover_html page_count =
    replace_all (codes "PAGES_TOTAL_COUNT") (decimal page_count)
      (replace_all (codes "PAGE_NUMBER") (codes "1") cover_html)
