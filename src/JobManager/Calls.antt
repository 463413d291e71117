-- ===== src/JobManager/Calls.antt =====
-- The calls of `JobManager` as data, and sequences of them.
use bulk_processing_service.Base.{Bytes, List, Option, Text, [], ◌∷◌, ◌≡◌, ◌≢◌}
use bulk_processing_service.JobManager.{
  add_pdf, complete_job, create_job, delete_job, get_debug_dir, get_job_metadata, record_failure,
}
use bulk_processing_service.Models.{MergeJobStartParams, Time}
use bulk_processing_service.Paths.{Host, job_dir}
use bulk_processing_service.Storage.{Storage, ok}

pub data Call : Type 0 where
  start : MergeJobStartParams → Option Text → Time → Call
  add_document : Bytes → Time → Call
  add_failure : Time → Call
  finish : Time → Call
  debug delete read : Call

-- What a call for a job leaves behind, however it ends.
unfoldable pub perform : Host → Text → Call → Storage → Storage
perform h id (start params user now) s = (create_job h params user id now s).1
perform h id (add_document pdf now) s = (add_pdf h id pdf now s).1
perform h id (add_failure now) s = (record_failure h id now s).1
perform h id (finish now) s = (complete_job h id now s).1
perform h id debug s = (get_debug_dir h id s).1
perform h id delete s = (delete_job h id s).1
perform h id read s = (get_job_metadata h id s).1

unfoldable pub run : Host → List (Text × Call) → Storage → Storage
run h [] s = s
run h ((id, call) ∷ calls) s = run h calls (perform h id call s)

-- None of the calls is for the job at a path.
abbrev pub Elsewhere : Host → Text → List (Text × Call) → Type 0
Elsewhere h q [] = Unit
Elsewhere h q ((id, call) ∷ calls) =
    ((path : Text) → job_dir h id ≡ ok path → path ≢ q) × Elsewhere h q calls
