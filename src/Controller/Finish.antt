-- ===== src/Controller/Finish.antt =====
-- app/converter_controller.py, `finish_merge_job`, against the batch that a directory represents.
use bulk_processing_service.Base.{
  Bool-cases, Bytes, List, Option, Text, eqb, if◌then◌else◌, inl, inr, length, ltb, refl, some,
  true, ◌&&◌, ◌≡◌,
}
use bulk_processing_service.Controller.{
  Answer, Download, after_complete, all_failed, crashes, download, finish_authorized,
  finish_merge_job, http_error, job_missing, respond,
}
use bulk_processing_service.Controller.Endpoints.{authorized_lem}
use bulk_processing_service.JobManager.{decode, get_job_metadata, result_of}
use bulk_processing_service.JobManager.Batch.{Answers, Batch, IsLawful, Reply, Represents}
use bulk_processing_service.JobManager.Documents.{length-read_documents}
use bulk_processing_service.JobManager.Refinement.{complete_job-Answers}
use bulk_processing_service.JobManager.Steps.{read_metadata_lem}
use bulk_processing_service.Locks.Laws.{IsFree}
use bulk_processing_service.Models.{JobMetadata, Time}
use bulk_processing_service.Paths.{Host, job_dir}
use bulk_processing_service.PolarionAuth.{Principal, may_use_job}
use bulk_processing_service.Storage.{
  JobDir, Outcome, Result, Storage, dir_at, key_error, ok, os_error, other_error, value_error,
}
use bulk_processing_service.JobManager.Batch

-- What the endpoint does to a batch: without a document but with failures it refuses the batch, and
-- else it completes it.
abbrev pub finish_spec : Text → (List Bytes → Result Bytes) → Batch → Reply Text × Batch
finish_spec place merge b =
    if eqb (length b.documents) 0 && ltb 0 b.failed
    then (Batch.refused (value_error (all_failed b.failed)), b)
    else Batch.complete place merge b

-- The answer to a reply of the batch, where `m` is the metadata after it: the file with the headers
-- that `m` asks for, 400 with the message of a `ValueError`, 404 for a `KeyError`, and no handler
-- for any other error.
abbrev pub finish_answer : Text → JobMetadata → Reply Text → Answer Download
finish_answer job_id m (Batch.done place) = download place (some m)
finish_answer job_id m (Batch.refused (value_error msg)) = http_error 400 msg
finish_answer job_id m (Batch.refused (key_error msg)) = job_missing job_id
finish_answer job_id m (Batch.refused os_error) = crashes os_error
finish_answer job_id m (Batch.refused other_error) = crashes other_error

-- The storage holds what the batch has become, and the answer is made of its metadata.
abbrev pub Finishes : Host → Text → Text → Reply Text × Batch → Answer Download × Storage → Type 0
Finishes h job_id path (r, b) (answer, s) =
    (d : JobDir) × (m : JobMetadata) × (dir_at s path ≡ some d)
    × Represents h d m b
    × (answer ≡ finish_answer job_id m r)

module _ (h : Host) (job_id : Text) {path : Text} (p : job_dir h job_id ≡ ok path) where
  respond_lem :
      (place : Text) (s : Storage) (d : JobDir) (m : JobMetadata)
      → dir_at s path ≡ some d
      → decode h d.metadata_json ≡ ok (some m)
      → respond place (get_job_metadata h job_id s) ≡ (download place (some m), s)
  unfolding get_job_metadata
  respond_lem place s d m e g = rw (read_metadata_lem h job_id p s d {m = m} e g) refl

  after_complete-Finishes :
      (r : Reply Text) (b : Batch) (q : Outcome Text × Storage)
      → Answers h path (r, b) q
      → Finishes h job_id path
          (r, b)
          (after_complete job_id (λ place t. respond place (get_job_metadata h job_id t)) q)
  after_complete-Finishes (Batch.done place) b (x, s) (e, (d, m, at_path, rep)) =
      rw (e, respond_lem place s d m at_path rep.metadata) (d, m, at_path, rep, refl)
  after_complete-Finishes (Batch.refused (value_error msg)) b (x, s) (e, (d, m, at_path, rep)) =
      rw e (d, m, at_path, rep, refl)
  after_complete-Finishes (Batch.refused (key_error msg)) b (x, s) (e, (d, m, at_path, rep)) =
      rw e (d, m, at_path, rep, refl)
  after_complete-Finishes (Batch.refused os_error) b (x, s) (e, (d, m, at_path, rep)) =
      rw e (d, m, at_path, rep, refl)
  after_complete-Finishes (Batch.refused other_error) b (x, s) (e, (d, m, at_path, rep)) =
      rw e (d, m, at_path, rep, refl)

module _ (h : Host) (law : IsLawful h) (job_id : Text) {path : Text} {d : JobDir} {m : JobMetadata}
    {b : Batch} (s : Storage) (f : IsFree h job_id path d s) (rep : Represents h d m b) where
  -- The test of `finish_merge_job` is that of the specification.
  same_test :
      (eqb m.pdf_count 0 && ltb 0 m.failed_count) ≡ (eqb (length b.documents) 0 && ltb 0 b.failed)
  same_test =
      let counts : length b.documents ≡ m.pdf_count =
        length-read_documents d.documents 0 m.pdf_count b.documents rep.documents in
      rw (counts, rep.failed) refl

  finish_authorized-Finishes :
      (now : Time)
      → Finishes h job_id path
          (finish_spec (result_of path) h.merge b)
          (finish_authorized h job_id now m s)
  unfolding finish_authorized
  finish_authorized-Finishes now =
      elim (Bool-cases (eqb (length b.documents) 0 && ltb 0 b.failed)) [
        | inl t ↦ rw (same_test, t, rep.failed) (d, m, f.dir, rep, refl)
        | inr t ↦
            rw (same_test, t)
              (after_complete-Finishes h job_id f.path_of _ _ _
                (complete_job-Answers h law job_id s f rep now))
      ]

  -- For a caller who may use the job, finishing it does what the endpoint promises on every branch:
  -- a job with failures and no document, or with nothing, is refused with 400 and left as it is; a
  -- job that has its result keeps it and hands it out; any other is merged from all its documents
  -- in their order and completed, or is left as it was where the merge fails. What is handed out is
  -- described by the metadata that the job has then.
  pub finish_merge_job-Finishes :
      (principal : Option Principal) (now : Time)
      → may_use_job principal job_id m ≡ true
      → Finishes h job_id path
          (finish_spec (result_of path) h.merge b)
          (finish_merge_job h principal job_id now s)
  unfolding finish_merge_job
  finish_merge_job-Finishes principal now mine =
      rw (authorized_lem h law job_id s f rep principal mine) (finish_authorized-Finishes now)
