-- ===== src/PdfMerger/Jobs.antt =====
-- app/job_manager.py and app/pdf_merger.py together: a job that is finished with `merge_pdf_files` as
-- the merge.
use bulk_processing_service.Base.{Bytes, List, Text, ◌≡◌}
use bulk_processing_service.JobManager.Batch.{Batch}
use bulk_processing_service.Paths.{Host}
use bulk_processing_service.PdfMerger.{Pdf, PdfObjects}
use bulk_processing_service.PdfMerger.Merge.{PdfLibrary}
use bulk_processing_service.PdfMerger.Merge.Links.{IsLinked}
use bulk_processing_service.PdfMerger.Merge.Pages.{all_shown, shown}
use bulk_processing_service.Storage.{Storage, ok}
use bulk_processing_service.JobManager.Batch

-- Where saving a document gives bytes.
abbrev pub Saves : (p : PdfObjects) → PdfLibrary p → Type 0
Saves p lib = (pdf : Pdf p.Object) → (bytes : Bytes) × (lib.save pdf ≡ ok bytes)

module _ (h : Host) (p : PdfObjects) (lib : PdfLibrary p) (show : p.Object → Text) where
  -- What a merge promises of the bytes that it gives for some files.
  abbrev pub IsMerge : List Bytes → Bytes → Type 0
  IsMerge files merged =
      (pdf : Pdf p.Object) × (lib.save pdf ≡ ok merged)
      × (shown show pdf.pages ≡ all_shown p lib show files)
      × IsLinked p pdf
