-- ===== src/Tests/Sweep.antt =====
-- The sweep at a job with one document, and the API key.
use bulk_processing_service.Base.{
  Any, Text, [], arith, codes, eq_iff, if◌then◌else◌, nat_eq, none, refl, some, sym, text_eq, true,
  ◌++◌, ◌↔◌, ◌∙◌, ◌∷◌, ◌≡◌, ◌≢◌, ◌⊎◌,
}
use bulk_processing_service.Auth.{get_api_keys, granted, presented, require_api_key, without_empty}
use bulk_processing_service.Auth.Laws.{AreEncodable, Opens, require_api_key_iff}
use bulk_processing_service.Base.Dict.{Dict}
use bulk_processing_service.Cleanup.{cleanup_active_job, cleanup_job, run_cleanup}
use bulk_processing_service.Cleanup.Contention.{IsBusy, by_thread, cleanup_job-skips}
use bulk_processing_service.Cleanup.Laws.{cleanup_active_job-rechecks, is_stuck, spared}
use bulk_processing_service.Cleanup.Sweep.{IsElsewhere, run_cleanup-deletes}
use bulk_processing_service.JobManager.{
  directory_names, list_jobs, list_names, metadata_at, read_metadata,
}
use bulk_processing_service.Locks.{is_held}
use bulk_processing_service.Locks.Laws.{IsFree}
use bulk_processing_service.Models.{JobMetadata, completed}
use bulk_processing_service.Paths.{all_job_digits, is_valid_job_id, job_dir, strip_prefix}
use bulk_processing_service.Results.{ok_injective}
use bulk_processing_service.Storage.{JobDir, Storage, dir_at, dir_in, directory, ok, returns}
use bulk_processing_service.Strings.{is_space, lstrip, split_on, strip}
use bulk_processing_service.Strings.Utf8.{utf8}
use bulk_processing_service.Tests.Codec.{
  encode, host, load, put_option, put_status, put_text, put_time,
}
use bulk_processing_service.Tests.Jobs.{
  dir_one, empty_storage, id, metadata_one, one, one-IsFree, one-Represents, path,
}
use bulk_processing_service.Base.Dict

cleanup_active_job-rechecks_example :
    ((cleanup_active_job host metadata_one 1000 5 one).0 ≡ returns tt)
    × (dir_at (cleanup_active_job host metadata_one 1000 5 one).1 path
        ≡ (if is_stuck metadata_one 1000 5 then none else some (spared dir_one)))
cleanup_active_job-rechecks_example =
    cleanup_active_job-rechecks host one-IsFree metadata_one metadata_one 1000 5 refl refl
      one-Represents.metadata

abbrev listed_completed : JobMetadata
listed_completed = record metadata_one { status = completed; completed_at = some 50 }

-- The same storage, where another thread works on the job.
abbrev busy : Storage
busy = record one { thread_locks = (id, true) ∷ [] }

busy-IsBusy : IsBusy id path busy
unfolding is_held Dict.get text_eq nat_eq
busy-IsBusy = by_thread refl

cleanup_job-skips_example :
    ((cleanup_job host metadata_one 1000 5 busy).0 ≡ returns tt)
    × ((dir_at (cleanup_job host metadata_one 1000 5 busy).1 path ≡ some dir_one)
        ⊎ (dir_at (cleanup_job host metadata_one 1000 5 busy).1 path ≡ some (spared dir_one)))
cleanup_job-skips_example =
    cleanup_job-skips host id busy one-IsFree.path_of one-IsFree.dir metadata_one 1000 5 refl
      busy-IsBusy

abbrev raw_keys : Text
raw_keys = codes "k1, k2,"

raw_keys-AreEncodable : AreEncodable (get_api_keys raw_keys)
unfolding get_api_keys without_empty split_on strip lstrip is_space utf8
raw_keys-AreEncodable = ((codes "k1", refl), ((codes "k2", refl), tt))

require_api_key_iff_example : (require_api_key raw_keys (some (codes "k2")) none ≡ granted) ↔ (
    (get_api_keys raw_keys ≡ [])
    ⊎ Any (λ c. Any (Opens c) (get_api_keys raw_keys)) (presented (some (codes "k2")) none))
require_api_key_iff_example =
    require_api_key_iff raw_keys (some (codes "k2")) none raw_keys-AreEncodable

-- A storage with two jobs: one that is completed, and one that a sweep comes to first.
abbrev first_id : Text
first_id = codes "00000000000000000000000000000000"

abbrev first_path : Text
first_path = codes "/jobs/00000000000000000000000000000000"

abbrev listed_first : JobMetadata
listed_first = record metadata_one { job_id = first_id }

abbrev dir_done : JobDir
dir_done = record dir_one { metadata_json = some (encode listed_completed) }

abbrev dir_first : JobDir
dir_first = record dir_one { metadata_json = some (encode listed_first) }

abbrev two_jobs : Storage
two_jobs = record empty_storage {
  nodes = (first_path, directory dir_first) ∷ (path, directory dir_done) ∷ [];
}

two_jobs-IsFree : IsFree host id path dir_done two_jobs
unfolding dir_in Dict.get text_eq nat_eq is_held
two_jobs-IsFree = record { path_of = one-IsFree.path_of; dir = refl; thread = refl; foreign = refl }

two_jobs_listed :
    list_jobs host two_jobs ≡ (returns ((listed_first ∷ []) ++ listed_completed ∷ []), two_jobs)
unfolding list_jobs list_names directory_names read_metadata metadata_at job_dir is_valid_job_id
    all_job_digits strip_prefix dir_in Dict.get text_eq nat_eq load encode put_text put_option
    put_time put_status
two_jobs_listed = refl

first_path_of : job_dir host first_id ≡ ok first_path
unfolding job_dir is_valid_job_id all_job_digits strip_prefix text_eq nat_eq
first_path_of = refl

ids_differ : first_id ≢ id
unfolding text_eq nat_eq
ids_differ e = let same = (eq_iff first_id id).1 e in cc

paths_differ : first_path ≢ path
unfolding text_eq nat_eq
paths_differ e = let same = (eq_iff first_path path).1 e in cc

first-IsElsewhere : IsElsewhere host id path listed_first
first-IsElsewhere =
    (ids_differ, λ at e same. paths_differ (ok_injective (sym first_path_of ∙ e) ∙ same))

run_cleanup-deletes_example :
    ((run_cleanup host 1000 5 two_jobs).0 ≡ returns tt)
    × (dir_at (run_cleanup host 1000 5 two_jobs).1 path ≡ none)
run_cleanup-deletes_example =
    run_cleanup-deletes host id path dir_done 1000 5 two_jobs (listed_first ∷ []) []
      listed_completed 50 two_jobs_listed (first-IsElsewhere, tt) tt two_jobs-IsFree refl refl refl
      (omega arith)
