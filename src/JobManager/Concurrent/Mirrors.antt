-- ===== src/JobManager/Concurrent/Mirrors.antt =====
-- The directory of a job between the accesses under its lock: it shows a batch.
use bulk_processing_service.Base.{
  Bytes, List, Option, Text, [], ap, arith, eqb, false, inl, inr, length, nat_eq, none, refl, some,
  sym, text_eq, true, ℕ, ◌&&◌, ◌++◌, ◌+◌, ◌∙◌, ◌∷◌, ◌≡◌, ◌≢◌,
}
use bulk_processing_service.Base.Dict.{Dict}
use bulk_processing_service.JobManager.{decode, is_completed, is_some, read_documents}
use bulk_processing_service.JobManager.Batch.{Batch, IsLawful}
use bulk_processing_service.JobManager.Cases.{add_active, status_cases}
use bulk_processing_service.JobManager.Concurrent.History.{IsWhole}
use bulk_processing_service.JobManager.Documents.{
  length-read_documents, read_documents-put_later, read_documents-put_next,
}
use bulk_processing_service.Models.{JobMetadata, Time, active, completed}
use bulk_processing_service.Paths.{Host, no_documents}
use bulk_processing_service.Results.{ok_injective}
use bulk_processing_service.Storage.{JobDir, Result, ok, value_error}
use bulk_processing_service.Base.Dict
use bulk_processing_service.JobManager.Batch

-- The directory `d` with metadata `m` shows the batch `b`. Of a result, only that of a completed job
-- counts.
pub record Mirrors (h : Host) (d : JobDir) (m : JobMetadata) (b : Batch) : Type 0 where
  pub metadata : decode h d.metadata_json ≡ ok (some m)
  pub documents : read_documents d.documents 0 m.pdf_count ≡ ok b.documents
  pub status : m.status ≡ b.status
  pub failed : m.failed_count ≡ b.failed
  pub result : b.status ≡ completed → d.result_pdf ≡ b.result

-- The directory with the metadata `m` in place.
abbrev pub with_new : Host → JobDir → JobMetadata → JobDir
with_new h d m = record d { metadata_json = some (h.dump m); metadata_tmp = none }

-- One access under the lock, on a directory that shows a batch.
module _ (h : Host) (law : IsLawful h) (job_id place : Text) {d : JobDir} {m : JobMetadata}
    {b : Batch} (shows : Mirrors h d m b) where
  open shows use {metadata, documents, status, failed, result}

  pub counts : length b.documents ≡ m.pdf_count
  counts = length-read_documents d.documents 0 m.pdf_count b.documents documents

  -- A number that is not counted yet may be written to.
  pub beyond-Mirrors :
      (content : Bytes)
      → Mirrors h (record d { documents = Dict.put d.documents m.pdf_count content }) m b
  beyond-Mirrors content = record {
    metadata = metadata;
    documents =
        read_documents-put_later d.documents 0 m.pdf_count m.pdf_count content (omega arith)
        ∙ documents;
    status = status;
    failed = failed;
    result = result;
  }

  -- The result of a job that is not completed may be overwritten.
  pub partial-Mirrors :
      (content : Bytes) → b.status ≡ active → Mirrors h (record d { result_pdf = some content }) m b
  partial-Mirrors content open_batch = record {
    metadata = metadata;
    documents = documents;
    status = status;
    failed = failed;
    result = λ e. absurd (ground arith);
  }

  pub draft-Mirrors : (tmp : Option Bytes) → Mirrors h (record d { metadata_tmp = tmp }) m b
  draft-Mirrors tmp = record {
    metadata = metadata;
    documents = documents;
    status = status;
    failed = failed;
    result = result;
  }

  -- A document is added.
  pub add-reply :
      (pdf : Bytes)
      → m.status ≡ active
      → Batch.add job_id pdf b
        ≡ (Batch.done m.pdf_count, record b { documents = b.documents ++ pdf ∷ [] })
  add-reply pdf e =
      add_active job_id pdf b (sym status ∙ e)
      ∙ ap (λ n. (Batch.done n, record b { documents = b.documents ++ pdf ∷ [] })) counts

  pub added-Mirrors :
      (pdf : Bytes) (now : Time)
      → Mirrors h
          (with_new h
            (record d { documents = Dict.put d.documents m.pdf_count pdf })
            (record m { pdf_count = m.pdf_count + 1; updated_at = some now }))
          (record m { pdf_count = m.pdf_count + 1; updated_at = some now })
          (record b { documents = b.documents ++ pdf ∷ [] })
  added-Mirrors pdf now = record {
    metadata = rw law.load-dump;
    documents = read_documents-put_next d.documents m.pdf_count b.documents pdf documents;
    status = status;
    failed = failed;
    result = result;
  }

  pub counted-Mirrors :
      (now : Time)
      → Mirrors h
          (with_new h d (record m { failed_count = m.failed_count + 1; updated_at = some now }))
          (record m { failed_count = m.failed_count + 1; updated_at = some now })
          (record b { failed = b.failed + 1 })
  counted-Mirrors now = record {
    metadata = rw law.load-dump;
    documents = documents;
    status = status;
    failed = ap (λ (n : ℕ). n + 1) failed;
    result = result;
  }

  pub merged-Mirrors :
      (now : Time) (content : Bytes)
      → Mirrors h
          (with_new h
            (record d { result_pdf = some content })
            (record m { status = completed; completed_at = some now }))
          (record m { status = completed; completed_at = some now })
          (record b { status = completed; result = some content })
  merged-Mirrors now content = record {
    metadata = rw law.load-dump;
    documents = documents;
    status = refl;
    failed = failed;
    result = λ e. refl;
  }

  -- The test whether there is a result already.
  module _ (whole : IsWhole h job_id place b) where
    result_there : b.status ≡ completed → (is_completed m.status && is_some d.result_pdf) ≡ true
    result_there e = let (r, k, _) = whole e in ground (arith, result e)

    pub result_missing : (is_completed m.status && is_some d.result_pdf) ≡ false → b.status ≡ active
    result_missing e = elim (status_cases b.status) [
      | inl open_batch ↦ open_batch
      | inr shut ↦ absurd (ground (arith, result_there shut))
    ]

    pub same_test :
        (is_completed b.status && is_some b.result)
        ≡ (is_completed m.status && is_some d.result_pdf)
    same_test = elim (status_cases b.status) [
      | inl open_batch ↦ ground arith
      | inr shut ↦ rw (status, result shut) refl
    ]

    -- The branches of the completion, by what the body has read.
    pub complete_again :
        (is_completed m.status && is_some d.result_pdf) ≡ true
        → Batch.complete place h.merge b ≡ (Batch.done place, b)
    complete_again t = let t' = same_test ∙ t in rw t'

    pub complete_empty :
        (is_completed m.status && is_some d.result_pdf) ≡ false
        → m.pdf_count ≡ 0
        → Batch.complete place h.merge b ≡ (Batch.refused (value_error no_documents), b)
    complete_empty t n = let t' = same_test ∙ t in ground (arith, counts)

    pub complete_merges :
        (is_completed m.status && is_some d.result_pdf) ≡ false
        → m.pdf_count ≢ 0
        → {docs : List Bytes} (r : Result Bytes)
        → read_documents d.documents 0 m.pdf_count ≡ ok docs
        → h.merge docs ≡ r
        → Batch.complete place h.merge b ≡ Batch.merge_all place r b
    complete_merges t n {docs} r e k =
        let t' = same_test ∙ t in
        let same : b.documents ≡ docs = ok_injective (sym documents ∙ e) in
        let z : eqb (length b.documents) 0 ≡ false = ground (arith, counts) in
        rw (t', z, ap h.merge same, k)
