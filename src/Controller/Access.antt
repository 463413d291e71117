-- ===== src/Controller/Access.antt =====
-- app/converter_controller.py, `_get_authorized_job`, which stands before every handler of a job.
use bulk_processing_service.Base.{List, Option, Text, arith, false, none, some, true, ◌≡◌}
use bulk_processing_service.Controller.{
  Renderer, add_document, delete_merge_job, finish_merge_job, get_authorized_job, job_missing,
  reply,
}
use bulk_processing_service.JobManager.{get_job_metadata, metadata_at, read_metadata}
use bulk_processing_service.Models.{AddDocumentRequest, JobMetadata, Time}
use bulk_processing_service.Paths.{Host, job_dir}
use bulk_processing_service.PolarionAuth.{Principal, may_use_job}
use bulk_processing_service.Storage.{Storage, err, key_error, ok}
use bulk_processing_service.WeasyprintClient.{Attachment}

-- A job that the principal may not see: its id is not one, it does not exist or has no metadata,
-- or it is not the principal's.
pub data Hidden (h : Host) (principal : Option Principal) (job_id : Text) (s : Storage)
    : Type 0 where
  bad_id : (msg : Text) → job_dir h job_id ≡ err (key_error msg) → Hidden h principal job_id s
  missing :
      (path : Text)
      → job_dir h job_id ≡ ok path
      → metadata_at h s path ≡ ok none
      → Hidden h principal job_id s
  of_another :
      (path : Text) (m : JobMetadata)
      → job_dir h job_id ≡ ok path
      → metadata_at h s path ≡ ok (some m)
      → may_use_job principal job_id m ≡ false
      → Hidden h principal job_id s

module _ (h : Host) (principal : Option Principal) (job_id : Text) (s : Storage) where
  pub get_authorized_job-Hidden :
      Hidden h principal job_id s
      → get_authorized_job h principal job_id s ≡ (job_missing job_id, s)
  unfolding get_authorized_job get_job_metadata read_metadata
  get_authorized_job-Hidden (bad_id msg e) = ground arith
  get_authorized_job-Hidden (missing path e f) = ground arith
  get_authorized_job-Hidden (of_another path m e f g) = ground arith

  -- Every handler answers a job that the principal may not see with the same reply, that of a job
  -- which does not exist, and leaves the storage as it was.
  pub handlers-Hidden :
      (w : Renderer) (body : AddDocumentRequest) (attachments : List Attachment) (now : Time)
      → Hidden h principal job_id s
      → (add_document h w principal job_id body attachments now s ≡ (job_missing job_id, s))
        × (finish_merge_job h principal job_id now s ≡ (job_missing job_id, s))
        × (delete_merge_job h principal job_id s ≡ (job_missing job_id, s))
  unfolding add_document finish_merge_job delete_merge_job
  handlers-Hidden w body attachments now hidden =
      let e = get_authorized_job-Hidden hidden in (rw e, rw e, rw e)

  -- A job whose metadata can be read and which the principal may use is found.
  pub get_authorized_job-visible :
      (path : Text) (m : JobMetadata)
      → job_dir h job_id ≡ ok path
      → metadata_at h s path ≡ ok (some m)
      → may_use_job principal job_id m ≡ true
      → get_authorized_job h principal job_id s ≡ (reply m, s)
  unfolding get_authorized_job get_job_metadata read_metadata
  get_authorized_job-visible path m e f g = ground arith
