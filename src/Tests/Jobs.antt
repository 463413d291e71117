-- ===== src/Tests/Jobs.antt =====
-- Runs of `JobManager`, and its theorems at a job with one document.
use bulk_processing_service.Base.{Text, [], codes, nat_eq, none, refl, some, text_eq, true, ◌∷◌}
use bulk_processing_service.Base.Dict.{Dict}
use bulk_processing_service.JobManager.{
  add_locked, add_pdf, complete_job, create_job, metadata_at, read_documents, read_metadata,
  result_of, write_metadata,
}
use bulk_processing_service.JobManager.Batch.{Answers, Batch, Represents}
use bulk_processing_service.JobManager.Refinement.{add_pdf-Answers, complete_job-Answers}
use bulk_processing_service.Locks.{is_held, job_lock, released, thread_lock}
use bulk_processing_service.Locks.Laws.{IsFree}
use bulk_processing_service.Models.{JobMetadata, MergeJobStartParams, active}
use bulk_processing_service.Paths.{all_job_digits, is_valid_job_id, job_dir, strip_prefix}
use bulk_processing_service.Storage.{JobDir, Storage, dir_in, exists, set_dir}
use bulk_processing_service.Tests.Codec.{
  encode, host, host-IsLawful, load, put_option, put_status, put_text, put_time,
}
use bulk_processing_service.JobManager.Batch
use bulk_processing_service.Base.Dict

abbrev pub id : Text
id = codes "0123456789abcdef0123456789abcdef"

abbrev pub path : Text
path = codes "/jobs/0123456789abcdef0123456789abcdef"

abbrev pub params : MergeJobStartParams
params = record { file_name = codes "a.pdf"; pdf_variant = none }

abbrev pub empty_storage : Storage
empty_storage = record {
  root = true;
  nodes = [];
  links = [];
  thread_locks = [];
  file_locks = [];
  foreign_locks = [];
}

-- A job that was started, and then given one document.
unfoldable pub one : Storage
unfolding create_job add_pdf add_locked read_metadata metadata_at write_metadata job_lock
    thread_lock is_held released job_dir is_valid_job_id all_job_digits strip_prefix text_eq nat_eq
    exists dir_in set_dir Dict.get Dict.put Dict.remove load encode put_text put_option put_time
    put_status
one =
    (add_pdf host id (1 ∷ 2 ∷ []) 20
      (create_job host params (some (codes "u")) id 10 empty_storage).1).1

abbrev pub metadata_one : JobMetadata
metadata_one = record {
  job_id = id;
  status = active;
  created_at = 10;
  updated_at = some 20;
  completed_at = none;
  params = params;
  initiator_hash = some (codes "u");
  pdf_count = 1;
  failed_count = 0;
}

abbrev pub dir_one : JobDir
dir_one = record {
  metadata_json = some (encode metadata_one);
  metadata_tmp = none;
  documents = (0, 1 ∷ 2 ∷ []) ∷ [];
  result_pdf = none;
  lock_file = true;
  debug = none;
}

abbrev pub batch_one : Batch
batch_one = record { status = active; documents = (1 ∷ 2 ∷ []) ∷ []; failed = 0; result = none }

pub one-IsFree : IsFree host id path dir_one one
unfolding one
one-IsFree = record { path_of = refl; dir = refl; thread = refl; foreign = refl }

pub one-Represents : Represents host dir_one metadata_one batch_one
unfolding one read_documents
one-Represents = record {
  metadata = refl;
  documents = refl;
  status = refl;
  failed = refl;
  result = refl;
}

add_pdf-Answers_example :
    Answers host path (Batch.add id (3 ∷ []) batch_one) (add_pdf host id (3 ∷ []) 30 one)
add_pdf-Answers_example =
    add_pdf-Answers host host-IsLawful id one one-IsFree one-Represents (3 ∷ []) 30

complete_job-Answers_example :
    Answers host path
      (Batch.complete (result_of path) host.merge batch_one)
      (complete_job host id 30 one)
complete_job-Answers_example =
    complete_job-Answers host host-IsLawful id one one-IsFree one-Represents 30
