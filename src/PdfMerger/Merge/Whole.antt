-- ===== src/PdfMerger/Merge/Whole.antt =====
-- app/pdf_merger.py: `merge_pdf_files` and `replace_first_page_with_cover` as a whole.
use bulk_processing_service.Base.{
  All, Bool, Bytes, List, Option, Text, [], ap, false, inl, inr, none, refl, some, sym, true, ◌++◌,
  ◌∙◌, ◌∷◌, ◌≡◌, ◌⊎◌,
}
use bulk_processing_service.PdfMerger.{IsLawful, Page, Pdf, PdfObjects}
use bulk_processing_service.PdfMerger.EmbeddedFiles.{
  add_embedded_files, add_files, tidy_embedded_files, write_embedded_files,
}
use bulk_processing_service.PdfMerger.Merge.{
  PdfLibrary, add, drop_navigation, merge_documents, merge_one, open_document,
  starts_with_placeholder,
}
use bulk_processing_service.PdfMerger.Merge.Addition.{KeepsKeys, add-IsLinked}
use bulk_processing_service.PdfMerger.Merge.Links.{IsLinked}
use bulk_processing_service.PdfMerger.Merge.Pages.{
  KeepsContent, all_shown, shown, shown-add, shown-open_document, shown_of,
}
use bulk_processing_service.PdfMerger.Merge.Removal.{remove_first_page-IsLinked}
use bulk_processing_service.Results.{>>=-eq-ok, >>=-ok, ok_injective}
use bulk_processing_service.Storage.{ok}
use mathlib.Core.List.{append-nil, append_assoc}

module _ (p : PdfObjects) (lib : PdfLibrary p) where
  -- A file that can be read: it opens, its text can be looked at, where it starts with the
  -- placeholder it has a page, and its pages are linked with its structure.
  abbrev pub IsReadable : Bytes → Type 0
  IsReadable data_ =
      (pdf : Pdf p.Object) × (lib.open_pdf data_ ≡ ok pdf)
      × (test : Bool) × (starts_with_placeholder p lib data_ ≡ ok test)
      × IsLinked p pdf
      × ((test ≡ false)
          ⊎ ((page : Page p.Object) × (pages : List (Page p.Object)) × (pdf.pages ≡ page ∷ pages)))

  pub open_document-IsLinked :
      (data_ : Bytes)
      → IsLawful p
      → IsReadable data_
      → (pdf : Pdf p.Object) × (open_document p lib data_ ≡ ok pdf) × IsLinked p pdf
  unfolding open_document
  open_document-IsLinked data_ law (pdf, e, false, f, linked, _) =
      (pdf, >>=-ok _ e ∙ >>=-ok _ f, linked)
  open_document-IsLinked data_ law (pdf, e, true, f, linked, inl differs) = absurd (cc)
  open_document-IsLinked data_ law (pdf, e, true, f, linked, inr (page, pages, there)) =
      let (pdf', removed, linked', _) =
        remove_first_page-IsLinked p law pdf page pages there linked in
      (pdf', >>=-ok _ e ∙ >>=-ok _ f ∙ removed, linked')

  -- What `_write_embedded_files` leaves as it was
  write_embedded_files-pages :
      (pdf : Pdf p.Object) (entries : List (Text × p.Object)) (specs : List p.Object)
      → (write_embedded_files p pdf entries specs).pages ≡ pdf.pages
  unfolding write_embedded_files
  write_embedded_files-pages pdf [] [] = refl
  write_embedded_files-pages pdf [] (spec ∷ specs) = refl
  write_embedded_files-pages pdf (entry ∷ entries) specs = refl

  write_embedded_files-IsLinked :
      (pdf : Pdf p.Object) (entries : List (Text × p.Object)) (specs : List p.Object)
      → IsLinked p pdf
      → IsLinked p (write_embedded_files p pdf entries specs)
  unfolding write_embedded_files IsLinked
  write_embedded_files-IsLinked pdf [] [] h = h
  write_embedded_files-IsLinked pdf [] (spec ∷ specs) h = h
  write_embedded_files-IsLinked pdf (entry ∷ entries) specs h = h

  add_files-IsLinked :
      (target source : Pdf p.Object) (added : List (Text × p.Object))
      → IsLinked p target
      → IsLinked p (add_files p target source added)
  add_files-IsLinked target source [] h = h
  add_files-IsLinked target source (file ∷ added) h = write_embedded_files-IsLinked target _ _ h

  add_files-pages :
      (target source : Pdf p.Object) (added : List (Text × p.Object))
      → (add_files p target source added).pages ≡ target.pages
  add_files-pages target source [] = refl
  add_files-pages target source (file ∷ added) = write_embedded_files-pages target _ _

  abbrev AreLinked : Option (Pdf p.Object) → Type 0
  AreLinked none = Unit
  AreLinked (some merged) = IsLinked p merged

  pub merge_one-IsLinked :
      (merged : Option (Pdf p.Object)) (pdf : Pdf p.Object)
      → IsLawful p
      → KeepsKeys p lib
      → AreLinked merged
      → IsLinked p pdf
      → (grown : Pdf p.Object) × (merge_one p lib merged pdf ≡ ok grown) × IsLinked p grown
  unfolding merge_one tidy_embedded_files drop_navigation add_embedded_files IsLinked
  merge_one-IsLinked none pdf law keep none_yet linked =
      (_, refl, write_embedded_files-IsLinked (drop_navigation pdf) _ _ linked)
  merge_one-IsLinked (some merged) pdf law keep linked more =
      let (grown, e, h) = add-IsLinked p lib law keep merged pdf false pdf.pages linked more in
      (_, >>=-ok _ e, add_files-IsLinked grown pdf _ h)

  pub merge_documents-IsLinked :
      (merged : Pdf p.Object) (files : List Bytes)
      → IsLawful p
      → KeepsKeys p lib
      → IsLinked p merged
      → All IsReadable files
      → (pdf : Pdf p.Object) × (merge_documents p lib (some merged) files ≡ ok (some pdf))
        × IsLinked p pdf
  unfolding merge_documents
  merge_documents-IsLinked merged [] law keep linked none_left = (merged, refl, linked)
  merge_documents-IsLinked merged (data_ ∷ files) law keep linked (readable, all_readable) =
      let (pdf, e, h) = open_document-IsLinked data_ law readable in
      let (grown, f, linked') = merge_one-IsLinked (some merged) pdf law keep linked h in
      let (result, g, last) = merge_documents-IsLinked grown files law keep linked' all_readable in
      (result, >>=-ok _ e ∙ >>=-ok _ f ∙ g, last)

  pub merge_documents-returns :
      (data_ : Bytes) (files : List Bytes)
      → IsLawful p
      → KeepsKeys p lib
      → All IsReadable (data_ ∷ files)
      → (pdf : Pdf p.Object) × (merge_documents p lib none (data_ ∷ files) ≡ ok (some pdf))
        × IsLinked p pdf
  unfolding merge_documents
  merge_documents-returns data_ files law keep (readable, all_readable) =
      let (pdf, e, h) = open_document-IsLinked data_ law readable in
      let (grown, f, linked') = merge_one-IsLinked none pdf law keep tt h in
      let (result, g, last) = merge_documents-IsLinked grown files law keep linked' all_readable in
      (result, >>=-ok _ e ∙ >>=-ok _ f ∙ g, last)

module _ (p : PdfObjects) (lib : PdfLibrary p) (show : p.Object → Text) where
  abbrev shown_before : Option (Pdf p.Object) → List Text
  shown_before none = []
  shown_before (some merged) = shown show merged.pages

  shown-merge_one :
      (merged : Option (Pdf p.Object)) (pdf grown : Pdf p.Object)
      → KeepsContent p lib show
      → merge_one p lib merged pdf ≡ ok grown
      → shown show grown.pages ≡ shown_before merged ++ shown show pdf.pages
  unfolding merge_one tidy_embedded_files drop_navigation add_embedded_files
  shown-merge_one none pdf grown keep e =
      ap (λ d. shown show d.pages) (sym (ok_injective e))
      ∙ ap (shown show) (write_embedded_files-pages p lib (drop_navigation pdf) _ _)
  shown-merge_one (some merged) pdf grown keep e =
      let (added, f, e1) = >>=-eq-ok (add p lib merged pdf pdf.pages false) _ e in
      ap (λ d. shown show d.pages) (sym (ok_injective e1))
      ∙ ap (shown show) (add_files-pages p lib added pdf _)
      ∙ shown-add p lib show merged pdf added pdf.pages false keep f

  shown-merge_documents :
      (merged : Option (Pdf p.Object)) (files : List Bytes) (pdf : Pdf p.Object)
      → KeepsContent p lib show
      → merge_documents p lib merged files ≡ ok (some pdf)
      → shown show pdf.pages ≡ shown_before merged ++ all_shown p lib show files
  unfolding merge_documents all_shown
  shown-merge_documents merged [] pdf keep e = sym (append-nil _ ∙ ap shown_before (ok_injective e))
  shown-merge_documents merged (data_ ∷ files) pdf keep e =
      let (opened, f, e1) = >>=-eq-ok (open_document p lib data_) _ e in
      let (grown, g, e2) = >>=-eq-ok (merge_one p lib merged opened) _ e1 in
      shown-merge_documents (some grown) files pdf keep e2
      ∙ ap (λ l. l ++ all_shown p lib show files)
          (shown-merge_one merged opened grown keep g
            ∙ ap (λ l. shown_before merged ++ l) (shown-open_document p lib show data_ opened f))
      ∙ append_assoc (shown_before merged) (shown_of p lib show data_) (all_shown p lib show files)

  -- With copies of pages that show what the pages show: the pages of a merge that returns are those
  -- of its files, in the order of the files and of the pages in each file, without the placeholder
  -- of each file that starts with one.
  pub shown-merge :
      (files : List Bytes) (pdf : Pdf p.Object)
      → KeepsContent p lib show
      → merge_documents p lib none files ≡ ok (some pdf)
      → shown show pdf.pages ≡ all_shown p lib show files
  shown-merge files pdf keep e = shown-merge_documents none files pdf keep e
