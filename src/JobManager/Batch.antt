-- ===== src/JobManager/Batch.antt =====
-- What a job promises, without files: a batch of documents in the order of their arrival, the
-- number of documents that failed, and the merged result. The directory of a job represents one.
use bulk_processing_service.Base.{
  Bytes, List, Option, Text, [], eqb, if◌then◌else◌, length, some, ℕ, ◌&&◌, ◌++◌, ◌+◌, ◌∷◌, ◌≡◌,
}
use bulk_processing_service.JobManager.{decode, is_completed, is_some, read_documents}
use bulk_processing_service.Models.{JobMetadata, JobStatus, completed}
use bulk_processing_service.Paths.{Host, no_documents, not_active}
use bulk_processing_service.Storage.{
  Error, JobDir, None, Outcome, Result, Storage, dir_at, err, ok, raises, returns, value_error,
}

pub record Batch : Type 0 where
  pub status : JobStatus
  pub documents : List Bytes
  pub failed : ℕ
  pub result : Option Bytes

-- How the service answers a call for a batch.
pub data Reply (A : Type 0) : Type 0 where
  done : A → Reply A
  refused : Error → Reply A

-- A document is put behind the others, while the batch is active. The reply is its index.
abbrev pub add : Text → Bytes → Batch → Reply ℕ × Batch
add job_id pdf b =
    if is_completed b.status
    then (refused (value_error (not_active job_id)), b)
    else (done (length b.documents), record b { documents = b.documents ++ pdf ∷ [] })

-- A failure is counted, whatever the status.
abbrev pub fail : Batch → Reply None × Batch
fail b = (done tt, record b { failed = b.failed + 1 })

abbrev pub merge_all : Text → Result Bytes → Batch → Reply Text × Batch
merge_all place (ok merged) b = (done place, record b { status = completed; result = some merged })
merge_all place (err e) b = (refused e, b)

-- A completed batch with a result is left as it is, an empty one is refused, and any other is
-- merged, all documents in their order. The reply is the place of the result.
abbrev pub complete : Text → (List Bytes → Result Bytes) → Batch → Reply Text × Batch
complete place merge b =
    if is_completed b.status && is_some b.result
    then (done place, b)
    else if eqb (length b.documents) 0
    then (refused (value_error no_documents), b)
    else merge_all place (merge b.documents) b

-- Pydantic reads back what it wrote.
pub record IsLawful (h : Host) : Type 0 where
  pub load-dump : (m : JobMetadata) → h.load (h.dump m) ≡ ok m

-- The directory `d` with metadata `m` holds the batch `b`.
pub record Represents (h : Host) (d : JobDir) (m : JobMetadata) (b : Batch) : Type 0 where
  pub metadata : decode h d.metadata_json ≡ ok (some m)
  pub documents : read_documents d.documents 0 m.pdf_count ≡ ok b.documents
  pub status : m.status ≡ b.status
  pub failed : m.failed_count ≡ b.failed
  pub result : d.result_pdf ≡ b.result

abbrev pub outcome_of : {A : Type 0} → Reply A → Outcome A
outcome_of (done a) = returns a
outcome_of (refused e) = raises e

-- The storage holds the batch `b` at a path.
abbrev pub Holds : Host → Text → Batch → Storage → Type 0
Holds h path b s = (d : JobDir) × (m : JobMetadata) × (dir_at s path ≡ some d) × Represents h d m b

-- A call ended as the batch replies, and the storage holds what the batch has become.
abbrev pub Answers : {A : Type 0} → Host → Text → Reply A × Batch → Outcome A × Storage → Type 0
Answers h path (reply, b) (r, s) = (r ≡ outcome_of reply) × Holds h path b s
