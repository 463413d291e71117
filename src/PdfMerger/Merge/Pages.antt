-- ===== src/PdfMerger/Merge/Pages.antt =====
-- app/pdf_merger.py: which pages a document has after `_remove_first_page`, `_add` and the loop of
-- `merge_pdf_files`, and in which order. `show` is what a page shows.
use bulk_processing_service.Base.{
  Bool, Bytes, List, Option, Text, [], ap, false, map, none, refl, some, sym, true, ℕ, ◌++◌, ◌∙◌,
  ◌∷◌, ◌≡◌,
}
use bulk_processing_service.PdfMerger.{Page, Pdf, PdfObjects, Structure}
use bulk_processing_service.PdfMerger.Merge.{
  PdfLibrary, add, add_by_structure, add_structure, copy_pages, each_structure, objgens,
  open_document, place, remove_first, remove_if, starts_with_placeholder, without_page,
}
use bulk_processing_service.PdfMerger.PageKeys.{detach, keys_of, shift_keys}
use bulk_processing_service.PdfMerger.ParentTree.{next_of, number_tree}
use bulk_processing_service.PdfMerger.Structures.{copy_elements, document_element}
use bulk_processing_service.Results.{>>=-eq-ok, ok_injective}
use bulk_processing_service.Storage.{Result, ok}
use mathlib.Core.Path.{ap₂}

module _ {O : Type 0} (show : O → Text) where
  abbrev pub shown : List (Page O) → List Text
  shown [] = []
  shown (page ∷ pages) = show page.rest ∷ shown pages

  shown-shift :
      (offset : ℕ) (pages : List (Page O)) → shown (map (shift_keys offset) pages) ≡ shown pages
  unfolding shift_keys
  shown-shift offset [] = refl
  shown-shift offset (page ∷ pages) = ap (λ l. show page.rest ∷ l) (shown-shift offset pages)

  shown-detach : (pages : List (Page O)) → shown (map detach pages) ≡ shown pages
  unfolding detach
  shown-detach [] = refl
  shown-detach (page ∷ pages) = ap (λ l. show page.rest ∷ l) (shown-detach pages)

  shown-append : (xs ys : List (Page O)) → shown (xs ++ ys) ≡ shown xs ++ shown ys
  shown-append [] ys = refl
  shown-append (x ∷ xs) ys = ap (λ l. show x.rest ∷ l) (shown-append xs ys)

  abbrev pub in_place : Bool → List Text → List Text → List Text
  in_place true added own = added ++ own
  in_place false added own = own ++ added

  shown-place :
      (at_start : Bool) (copies own pages : List (Page O))
      → shown copies ≡ shown pages
      → shown (place at_start copies own) ≡ in_place at_start (shown pages) (shown own)
  shown-place true copies own pages e = shown-append copies own ∙ ap (λ l. l ++ shown own) e
  shown-place false copies own pages e = shown-append own copies ∙ ap (λ l. shown own ++ l) e

module _ (p : PdfObjects) (lib : PdfLibrary p) (show : p.Object → Text) where
  -- The copy of a page shows what the page shows.
  abbrev pub KeepsContent : Type 0
  KeepsContent =
      (target : Pdf p.Object) (page : Page p.Object)
      → show (lib.copy_page target page).rest ≡ show page.rest

  shown-copy_pages :
      (target : Pdf p.Object) (pages : List (Page p.Object))
      → KeepsContent
      → shown show (copy_pages p lib target pages) ≡ shown show pages
  unfolding copy_pages
  shown-copy_pages target [] keep = refl
  shown-copy_pages target (page ∷ pages) keep =
      ap₂ ◌∷◌ (keep target page) (shown-copy_pages target pages keep)

  shown-add_by_structure :
      (target source pdf : Pdf p.Object) (pages : List (Page p.Object)) (at_start : Bool)
      (root source_root : Option (Structure p.Object))
      → KeepsContent
      → add_by_structure p lib target source pages at_start root source_root ≡ ok pdf
      → shown show pdf.pages ≡ in_place show at_start (shown show pages) (shown show target.pages)
  unfolding add_by_structure add_structure
  shown-add_by_structure target source pdf pages at_start (some root) (some source_root) keep e =
      let (_, _, e1) = >>=-eq-ok (document_element source_root) _ e in
      let (entries, _, e2) = >>=-eq-ok (number_tree p root.parent_tree) _ e1 in
      let (_, _, e3) = >>=-eq-ok (number_tree p source_root.parent_tree) _ e2 in
      let (_, _, e4) = >>=-eq-ok (copy_elements _ _ _ _ _) _ e3 in
      ap (λ d. shown show d.pages) (sym (ok_injective e4))
      ∙ shown-place show at_start _ target.pages pages (
          shown-shift show (next_of entries) (copy_pages p lib target pages)
          ∙ shown-copy_pages target pages keep)
  shown-add_by_structure target source pdf pages at_start (some root) none keep e =
      ap (λ d. shown show d.pages) (sym (ok_injective e))
      ∙ shown-place show at_start _ target.pages pages
          (shown-detach show (copy_pages p lib target pages) ∙ shown-copy_pages target pages keep)
  shown-add_by_structure target source pdf pages at_start none source_root keep e =
      ap (λ d. shown show d.pages) (sym (ok_injective e))
      ∙ shown-place show at_start _ target.pages pages
          (shown-detach show (copy_pages p lib target pages) ∙ shown-copy_pages target pages keep)

  pub shown-add :
      (target source pdf : Pdf p.Object) (pages : List (Page p.Object)) (at_start : Bool)
      → KeepsContent
      → add p lib target source pages at_start ≡ ok pdf
      → shown show pdf.pages ≡ in_place show at_start (shown show pages) (shown show target.pages)
  unfolding add
  shown-add target source pdf pages at_start keep e =
      shown-add_by_structure target source pdf pages at_start target.structure source.structure keep
        e

  -- The pages of a file that go into the result: all of them, or all but the placeholder.
  abbrev pub without_first : Bool → List Text → List Text
  without_first true (t ∷ texts) = texts
  without_first _ texts = texts

  abbrev pub shown_by : Result (Pdf p.Object) → Result Bool → List Text
  shown_by (ok pdf) (ok test) = without_first test (shown show pdf.pages)
  shown_by _ _ = []

  abbrev pub shown_of : Bytes → List Text
  shown_of data_ = shown_by (lib.open_pdf data_) (starts_with_placeholder p lib data_)

  unfoldable pub all_shown : List Bytes → List Text
  all_shown [] = []
  all_shown (data_ ∷ files) = shown_of data_ ++ all_shown files

  shown-remove_first :
      (pages : List (Page p.Object)) (pdf pdf' : Pdf p.Object)
      → remove_first p pages pdf ≡ ok pdf'
      → shown show pdf'.pages ≡ without_first true (shown show pages)
  unfolding remove_first
  shown-remove_first [] pdf pdf' e = cc
  shown-remove_first (page ∷ pages) pdf pdf' e =
      let (_, _, e1) =
        >>=-eq-ok (each_structure p (without_page p (keys_of page) (objgens pages)) pdf.structure) _
          e in
      ap (λ d. shown show d.pages) (sym (ok_injective e1))

  shown-remove_if :
      (test : Bool) (pdf pdf' : Pdf p.Object)
      → remove_if p lib test pdf ≡ ok pdf'
      → shown show pdf'.pages ≡ without_first test (shown show pdf.pages)
  shown-remove_if true pdf pdf' e = shown-remove_first pdf.pages pdf pdf' e
  shown-remove_if false pdf pdf' e = ap (λ d. shown show d.pages) (sym (ok_injective e))

  pub shown-open_document :
      (data_ : Bytes) (pdf : Pdf p.Object)
      → open_document p lib data_ ≡ ok pdf
      → shown show pdf.pages ≡ shown_of data_
  unfolding open_document
  shown-open_document data_ pdf' e =
      let (pdf, opened, e1) = >>=-eq-ok (lib.open_pdf data_) _ e in
      let (test, tested, e2) = >>=-eq-ok (starts_with_placeholder p lib data_) _ e1 in
      shown-remove_if test pdf pdf' e2 ∙ ap₂ shown_by (sym opened) (sym tested)
