-- ===== src/PdfMerger/Merge/Cover.antt =====
-- app/pdf_merger.py: `replace_first_page_with_cover` as a whole.
use bulk_processing_service.Base.{List, nat_eq, text_eq}
