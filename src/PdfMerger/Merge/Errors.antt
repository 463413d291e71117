-- ===== src/PdfMerger/Merge/Errors.antt =====
-- app/pdf_merger.py: how `merge_pdf_files` and `replace_first_page_with_cover` fail.
use bulk_processing_service.Base.{All, Bytes, List, [], none, some, ◌++◌, ◌∙◌, ◌∷◌, ◌≡◌}
use bulk_processing_service.PdfMerger.{IsLawful, Pdf, PdfObjects}
use bulk_processing_service.PdfMerger.Merge.{
  PdfLibrary, merge_documents, merge_pdf_files, open_document,
}
use bulk_processing_service.PdfMerger.Merge.Addition.{KeepsKeys}
use bulk_processing_service.PdfMerger.Merge.Links.{IsLinked}
use bulk_processing_service.PdfMerger.Merge.Whole.{
  IsReadable, merge_one-IsLinked, open_document-IsLinked,
}
use bulk_processing_service.Results.{>>=-err, >>=-ok}
use bulk_processing_service.Storage.{Error, err}

module _ (p : PdfObjects) (lib : PdfLibrary p) where
  merge_documents-raises :
      (merged : Pdf p.Object) (files : List Bytes) (bad : Bytes) (more : List Bytes) (e : Error)
      → IsLawful p
      → KeepsKeys p lib
      → IsLinked p merged
      → All (IsReadable p lib) files
      → open_document p lib bad ≡ err e
      → merge_documents p lib (some merged) (files ++ bad ∷ more) ≡ err e
  unfolding merge_documents
  merge_documents-raises merged [] bad more e law keep linked none_left fails = >>=-err _ fails
  merge_documents-raises merged (data_ ∷ files) bad more e law keep linked (readable, all_readable)
        fails =
      let (pdf, opened, h) = open_document-IsLinked p lib data_ law readable in
      let (grown, f, linked') = merge_one-IsLinked p lib (some merged) pdf law keep linked h in
      >>=-ok _ opened
      ∙ >>=-ok _ f
      ∙ merge_documents-raises grown files bad more e law keep linked' all_readable fails

  merge_pdf_files-raises_go :
      (files : List Bytes) (bad : Bytes) (more : List Bytes) (e : Error)
      → IsLawful p
      → KeepsKeys p lib
      → All (IsReadable p lib) files
      → open_document p lib bad ≡ err e
      → merge_documents p lib none (files ++ bad ∷ more) ≡ err e
  unfolding merge_documents
  merge_pdf_files-raises_go [] bad more e law keep none_left fails = >>=-err _ fails
  merge_pdf_files-raises_go (data_ ∷ files) bad more e law keep (readable, all_readable) fails =
      let (pdf, opened, h) = open_document-IsLinked p lib data_ law readable in
      let (grown, f, linked') = merge_one-IsLinked p lib none pdf law keep tt h in
      >>=-ok _ opened
      ∙ >>=-ok _ f
      ∙ merge_documents-raises grown files bad more e law keep linked' all_readable fails

  -- With objects that are read back as they are written, and copies of pages that keep their keys:
  -- the first file that cannot be opened decides how a merge fails. Where the files before it can be
  -- read, its exception is that of the merge, whatever files come after it.
  pub merge_pdf_files-raises :
      (files : List Bytes) (bad : Bytes) (more : List Bytes) (e : Error)
      → IsLawful p
      → KeepsKeys p lib
      → All (IsReadable p lib) files
      → open_document p lib bad ≡ err e
      → merge_pdf_files p lib (files ++ bad ∷ more) ≡ err e
  unfolding merge_pdf_files
  merge_pdf_files-raises files bad more e law keep readable fails =
      >>=-err _ (merge_pdf_files-raises_go files bad more e law keep readable fails)
