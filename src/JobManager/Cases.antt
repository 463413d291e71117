-- ===== src/JobManager/Cases.antt =====
-- The branches of the operations of a batch.
use bulk_processing_service.Base.{
  Bool-cases, Bytes, List, Text, [], arith, eqb, false, inl, inr, length, refl, some, true, ◌&&◌,
  ◌++◌, ◌∷◌, ◌≡◌, ◌≢◌, ◌⊎◌,
}
use bulk_processing_service.JobManager.{is_completed, is_some}
use bulk_processing_service.JobManager.Batch.{Batch}
use bulk_processing_service.Models.{JobStatus, active, completed}
use bulk_processing_service.Paths.{no_documents, not_active}
use bulk_processing_service.Storage.{Error, Result, err, ok, value_error}
use bulk_processing_service.JobManager.Batch

pub status_cases : (st : JobStatus) → (st ≡ active) ⊎ (st ≡ completed)
status_cases active = inl refl
status_cases completed = inr refl

pub add_active :
    (job_id : Text) (pdf : Bytes) (b : Batch)
    → b.status ≡ active
    → Batch.add job_id pdf b
      ≡ (Batch.done (length b.documents), record b { documents = b.documents ++ pdf ∷ [] })
add_active job_id pdf b e = ground arith

pub add_completed :
    (job_id : Text) (pdf : Bytes) (b : Batch)
    → b.status ≡ completed
    → Batch.add job_id pdf b ≡ (Batch.refused (value_error (not_active job_id)), b)
add_completed job_id pdf b e = ground arith

-- The branches of `Batch.complete`.
pub data Completion (place : Text) (merge : List Bytes → Result Bytes) (b : Batch) : Type 0 where
  again :
      (is_completed b.status && is_some b.result) ≡ true
      → Batch.complete place merge b ≡ (Batch.done place, b)
      → Completion place merge b
  without_documents :
      (is_completed b.status && is_some b.result) ≡ false
      → length b.documents ≡ 0
      → Batch.complete place merge b ≡ (Batch.refused (value_error no_documents), b)
      → Completion place merge b
  merge_done :
      (result : Bytes)
      → (is_completed b.status && is_some b.result) ≡ false
      → length b.documents ≢ 0
      → merge b.documents ≡ ok result
      → Batch.complete place merge b
        ≡ (Batch.done place, record b { status = completed; result = some result })
      → Completion place merge b
  failed_merge :
      (x : Error)
      → (is_completed b.status && is_some b.result) ≡ false
      → length b.documents ≢ 0
      → merge b.documents ≡ err x
      → Batch.complete place merge b ≡ (Batch.refused x, b)
      → Completion place merge b

merge_cases : (r : Result Bytes) → ((a : Bytes) × (r ≡ ok a)) ⊎ ((x : Error) × (r ≡ err x))
merge_cases (ok a) = inl (a, refl)
merge_cases (err x) = inr (x, refl)

pub complete_cases :
    (place : Text) (merge : List Bytes → Result Bytes) (b : Batch) → Completion place merge b
complete_cases place merge b = elim (Bool-cases (is_completed b.status && is_some b.result)) [
  | inl t ↦ again t (rw t)
  | inr t ↦ elim (Bool-cases (eqb (length b.documents) 0)) [
    | inl n ↦ without_documents t (ground arith) (rw (t, n))
    | inr n ↦ elim (merge_cases (merge b.documents)) [
      | inl (a, g) ↦ merge_done a t (ground arith) g (rw (t, n, g))
      | inr (x, g) ↦ failed_merge x t (ground arith) g (rw (t, n, g))
    ]
  ]
]
