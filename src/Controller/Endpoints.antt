-- ===== src/Controller/Endpoints.antt =====
-- app/converter_controller.py, `_add_document`, against the batch that a directory represents.
use bulk_processing_service.Base.{
  Bytes, List, Option, Text, [], arith, inl, inr, length, some, true, ◌++◌, ◌∷◌, ◌≡◌,
}
use bulk_processing_service.Controller.{
  Renderer, accepted_document, add_document, get_authorized_job, http_error, render_document, reply,
  store_document,
}
use bulk_processing_service.Controller.Access.{get_authorized_job-visible}
use bulk_processing_service.Controller.Documents.{
  Meets, add_spec, after_add-refused, after_add-stored, after_failure-Meets,
}
use bulk_processing_service.JobManager.{add_pdf, metadata_at}
use bulk_processing_service.JobManager.Batch.{Answers, Batch, IsLawful, Represents}
use bulk_processing_service.JobManager.Cases.{add_active, add_completed, status_cases}
use bulk_processing_service.JobManager.Refinement.{add_pdf-Answers, record_failure-Answers}
use bulk_processing_service.Locks.Laws.{IsFree}
use bulk_processing_service.Models.{AddDocumentRequest, JobMetadata, Time, active, completed}
use bulk_processing_service.Paths.{Host, not_active}
use bulk_processing_service.PolarionAuth.{Principal, may_use_job}
use bulk_processing_service.Storage.{JobDir, Result, Storage, err, ok}
use bulk_processing_service.WeasyprintClient.{Attachment}
use bulk_processing_service.JobManager.Batch

module _ (h : Host) (law : IsLawful h) (job_id : Text) {path : Text} {d : JobDir} {m : JobMetadata}
    {b : Batch} (s : Storage) (f : IsFree h job_id path d s) (rep : Represents h d m b)
    (principal : Option Principal) (mine : may_use_job principal job_id m ≡ true) where
  found_lem : metadata_at h s path ≡ ok (some m)
  unfolding metadata_at
  found_lem = ground (arith, f.dir, rep.metadata)

  pub authorized_lem : get_authorized_job h principal job_id s ≡ (reply m, s)
  authorized_lem = get_authorized_job-visible h principal job_id s path m f.path_of found_lem mine

  spec_active :
      (pdf : Bytes)
      → b.status ≡ active
      → add_spec job_id (ok pdf) b
        ≡ (reply accepted_document, record b { documents = b.documents ++ pdf ∷ [] })
  spec_active pdf e = ground arith

  spec_completed :
      (pdf : Bytes)
      → b.status ≡ completed
      → add_spec job_id (ok pdf) b ≡ (http_error 409 (not_active job_id), b)
  spec_completed pdf e = ground arith

  store_document-Meets :
      (body : AddDocumentRequest) (now : Time) (r : Result Bytes)
      → Meets h path (add_spec job_id r b) (store_document h job_id body now r s)
  unfolding store_document
  store_document-Meets body now (err e) =
      after_failure-Meets h job_id f.path_of _ (record_failure-Answers h law job_id s f rep now)
  store_document-Meets body now (ok pdf) =
      let added : Answers h path (Batch.add job_id pdf b) (add_pdf h job_id pdf now s) =
        add_pdf-Answers h law job_id s f rep pdf now in
      elim (status_cases b.status) [
        | inl act ↦ rw (spec_active pdf act) (
            after_add-stored h job_id f.path_of body pdf (length b.documents) _
              (rw (add_active job_id pdf b act) at added))
        | inr cmp ↦ rw (spec_completed pdf cmp) (
            after_add-refused h job_id f.path_of _ (not_active job_id) _
              (rw (add_completed job_id pdf b cmp) at added))
      ]

  -- For a caller who may use the job, adding a document does what the endpoint promises, with the
  -- debug output on or off: a document that cannot be rendered is counted as failed and answered
  -- `failed`, one for a completed job is refused with 409 and not stored, and any other is stored
  -- behind the others and answered `accepted`.
  pub add_document-Meets :
      (w : Renderer) (body : AddDocumentRequest) (attachments : List Attachment) (now : Time)
      → Meets h path
          (add_spec job_id (render_document w body attachments) b)
          (add_document h w principal job_id body attachments now s)
  unfolding add_document
  add_document-Meets w body attachments now =
      rw authorized_lem (store_document-Meets body now (render_document w body attachments))
