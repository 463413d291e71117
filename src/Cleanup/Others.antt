-- ===== src/Cleanup/Others.antt =====
-- app/cleanup.py: the sweep of a job does not wait, and leaves the other jobs alone.
use bulk_processing_service.Base.{
  Bool, Option, Text, false, if◌then◌else◌, none, refl, some, true, ◌*◌, ◌≡◌, ◌≢◌,
}
use bulk_processing_service.Cleanup.{
  cleanup_active_job, cleanup_completed_job, cleanup_job, delete_acquired, delete_stuck, is_within,
  last_activity, recheck,
}
use bulk_processing_service.Cleanup.Calm.{Calm, IsCalm, continue-Calm, lift-Calm}
use bulk_processing_service.Cleanup.OtherLocks.{delete_job-Calm, try_job_lock-Calm}
use bulk_processing_service.JobManager.{get_job_metadata, is_completed, metadata_at, read_metadata}
use bulk_processing_service.Locks.{try_job_lock}
use bulk_processing_service.Models.{JobMetadata, JobStatus, Time, active, completed}
use bulk_processing_service.Paths.{Host, job_dir}
use bulk_processing_service.Storage.{None, Outcome, Result, Storage, err, lift, ok, returns}

module _ (h : Host) (j q job_id : Text) (differs : job_id ≢ j)
    (other : (path : Text) → job_dir h job_id ≡ ok path → path ≢ q) where
  delete_acquired-Calm : (b : Bool) → Calm j q (delete_acquired h job_id b)
  unfolding delete_acquired
  delete_acquired-Calm true s = delete_job-Calm h j q job_id differs other s
  delete_acquired-Calm false s = (λ w. cc, (refl, refl, refl))

  if-Calm :
      (b : Bool) (s : Storage) (m k : Outcome None × Storage)
      → IsCalm j q s m
      → IsCalm j q s k
      → IsCalm j q s (if b then m else k)
  if-Calm true s m k calm_m calm_k = calm_m
  if-Calm false s m k calm_m calm_k = calm_k

  idle : (s : Storage) → IsCalm j q s (returns tt, s)
  idle s = (λ w. cc, (refl, refl, refl))

  delete_stuck-Calm :
      (now ttl : Time) (found : Option JobMetadata) → Calm j q (delete_stuck h job_id now ttl found)
  unfolding delete_stuck
  delete_stuck-Calm now ttl none s = idle s
  delete_stuck-Calm now ttl (some current) s =
      if-Calm (is_completed current.status) s _ _ (idle s) (
        if-Calm (is_within now (last_activity current) (ttl * 2)) s _ _ (idle s)
          (delete_job-Calm h j q job_id differs other s))

  lifted-Calm : {A : Type 0} (r : Result A) → Calm j q (lift r)
  lifted-Calm (ok a) s = (λ w. cc, (refl, refl, refl))
  lifted-Calm (err e) s = (λ w. cc, (refl, refl, refl))

  get_job_metadata-Calm : Calm j q (get_job_metadata h job_id)
  unfolding get_job_metadata read_metadata
  get_job_metadata-Calm =
      lift-Calm j q (job_dir h job_id) _ λ path e s. lifted-Calm (metadata_at h s path) s

  recheck-Calm : (now ttl : Time) (b : Bool) → Calm j q (recheck h job_id now ttl b)
  unfolding recheck
  recheck-Calm now ttl true s =
      continue-Calm j q (delete_stuck h job_id now ttl) s (get_job_metadata h job_id s)
        (delete_stuck-Calm now ttl) (get_job_metadata-Calm s)
  recheck-Calm now ttl false s = idle s

module _ (h : Host) (j q : Text) (m : JobMetadata) (differs : m.job_id ≢ j)
    (other : (path : Text) → job_dir h m.job_id ≡ ok path → path ≢ q) (now ttl : Time) where
  completed-Calm :
      (o : Option Time) (s : Storage)
      → IsCalm {A = None} j q s (elim o [
        | none ↦ (returns tt, s)
        | some completed_at ↦
            if is_within now completed_at ttl
            then (returns tt, s)
            else try_job_lock h m.job_id (delete_acquired h m.job_id) s
      ])
  completed-Calm none s = idle h j q m.job_id differs other s
  completed-Calm (some completed_at) s =
      if-Calm h j q m.job_id differs other (is_within now completed_at ttl) s _ _
        (idle h j q m.job_id differs other s)
        (try_job_lock-Calm h j q m.job_id differs other (delete_acquired h m.job_id)
          (delete_acquired-Calm h j q m.job_id differs other) s)

  active-Calm : Calm j q (cleanup_active_job h m now ttl)
  unfolding cleanup_active_job
  active-Calm s =
      if-Calm h j q m.job_id differs other (is_within now (last_activity m) (ttl * 2)) s _ _
        (idle h j q m.job_id differs other s)
        (try_job_lock-Calm h j q m.job_id differs other (recheck h m.job_id now ttl)
          (recheck-Calm h j q m.job_id differs other now ttl) s)

  status-Calm :
      (status : JobStatus) (s : Storage)
      → IsCalm {A = None} j q s (elim status [
        | completed ↦ cleanup_completed_job h m now ttl s
        | active ↦ cleanup_active_job h m now ttl s
      ])
  unfolding cleanup_completed_job
  status-Calm completed s = completed-Calm m.completed_at s
  status-Calm active s = active-Calm s

  -- The sweep of a job does not wait, and leaves every other job as it was.
  pub cleanup_job-Calm : Calm j q (cleanup_job h m now ttl)
  unfolding cleanup_job
  cleanup_job-Calm s = status-Calm m.status s
