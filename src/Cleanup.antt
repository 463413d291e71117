-- ===== src/Cleanup.antt =====
-- app/cleanup.py: the sweep that deletes expired jobs. Logging is left out. A difference of times is
-- compared by adding on the other side, as the numbers here have no sign.
pub mod Laws
pub mod Contention
pub mod Ttl
pub mod Calm
pub mod OtherLocks
pub mod Others
pub mod Sweep
use bulk_processing_service.Base.{
  Bool, List, Option, Text, [], false, if◌then◌else◌, leb, none, some, true, ◌*◌, ◌+◌, ◌∷◌,
}
use bulk_processing_service.JobManager.{delete_job, get_job_metadata, is_completed, list_jobs}
use bulk_processing_service.Locks.{try_job_lock}
use bulk_processing_service.Models.{JobMetadata, Time, active, completed}
use bulk_processing_service.Paths.{Host}
use bulk_processing_service.Storage.{
  Action, None, Outcome, Storage, continue, raises, returns, waits, ◌>>=◌, ◌>>◌,
}

-- `now - since <= span`
abbrev pub is_within : Time → Time → Time → Bool
is_within now since span = leb now (since + span)

-- `metadata.updated_at or metadata.created_at`
abbrev pub last_activity : JobMetadata → Time
last_activity m = elim m.updated_at [ some t ↦ t | none ↦ m.created_at ]

-- `except Exception`, which only logs
abbrev pub swallowed : Outcome None × Storage → Outcome None × Storage
swallowed (returns _, s) = (returns tt, s)
swallowed (raises e, s) = (returns tt, s)
swallowed (waits, s) = (waits, s)

module _ (h : Host) where
  -- The body of `_cleanup_completed_job` under the lock.
  unfoldable pub delete_acquired : Text → Bool → Action None
  delete_acquired job_id acquired s = elim acquired [
    | true ↦ delete_job h job_id s
    | false ↦ (returns tt, s)
  ]

  -- `_cleanup_completed_job`
  unfoldable pub cleanup_completed_job : JobMetadata → Time → Time → Action None
  cleanup_completed_job metadata now ttl s = elim metadata.completed_at [
    | none ↦ (returns tt, s)
    | some completed_at ↦
        if is_within now completed_at ttl
        then (returns tt, s)
        else try_job_lock h metadata.job_id (delete_acquired metadata.job_id) s
  ]

  -- What `_cleanup_active_job` does with the metadata that it reads again.
  unfoldable pub delete_stuck : Text → Time → Time → Option JobMetadata → Action None
  delete_stuck job_id now ttl found s = elim found [
    | none ↦ (returns tt, s)
    | some current ↦
        if is_completed current.status
        then (returns tt, s)
        else if is_within now (last_activity current) (ttl * 2)
        then (returns tt, s)
        else delete_job h job_id s
  ]

  -- The body of `_cleanup_active_job` under the lock.
  unfoldable pub recheck : Text → Time → Time → Bool → Action None
  recheck job_id now ttl acquired s = elim acquired [
    | true ↦ (do found ← get_job_metadata h job_id; delete_stuck job_id now ttl found) s
    | false ↦ (returns tt, s)
  ]

  -- `_cleanup_active_job`
  unfoldable pub cleanup_active_job : JobMetadata → Time → Time → Action None
  cleanup_active_job metadata now ttl s =
      if is_within now (last_activity metadata) (ttl * 2)
      then (returns tt, s)
      else try_job_lock h metadata.job_id (recheck metadata.job_id now ttl) s

  -- `_cleanup_job`
  unfoldable pub cleanup_job : JobMetadata → Time → Time → Action None
  cleanup_job metadata now ttl s = elim metadata.status [
    | completed ↦ cleanup_completed_job metadata now ttl s
    | active ↦ cleanup_active_job metadata now ttl s
  ]

  -- The loop of `_run_cleanup`: what fails for one job does not stop the others.
  unfoldable pub cleanup_each : List JobMetadata → Time → Time → Action None
  cleanup_each [] now ttl s = (returns tt, s)
  cleanup_each (m ∷ jobs) now ttl s =
      continue (λ _. cleanup_each jobs now ttl) (swallowed (cleanup_job m now ttl s))

  -- `_run_cleanup`
  unfoldable pub run_cleanup : Time → Time → Action None
  run_cleanup now ttl = do jobs ← list_jobs h; cleanup_each jobs now ttl

  -- `cleanup_expired_jobs`, for the times at which its timer goes off: a sweep that fails does not
  -- end the loop.
  unfoldable pub cleanup_expired_jobs : List Time → Time → Action None
  cleanup_expired_jobs [] ttl s = (returns tt, s)
  cleanup_expired_jobs (now ∷ ticks) ttl s =
      continue (λ _. cleanup_expired_jobs ticks ttl) (swallowed (run_cleanup now ttl s))
