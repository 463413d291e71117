-- ===== src/Cleanup/Contention.antt =====
-- app/cleanup.py: the sweep of a job whose lock is held.
use bulk_processing_service.Base.{
  Bool, Bool-cases, Option-cases, Text, ap, arith, contains, false, inl, inr, nat_eq, refl, some,
  text_eq, true, ◌*◌, ◌∙◌, ◌≡◌, ◌⊎◌,
}
use bulk_processing_service.Base.Dict.{Dict}
use bulk_processing_service.Cleanup.{
  cleanup_active_job, cleanup_completed_job, cleanup_job, delete_acquired, is_within, last_activity,
  recheck,
}
use bulk_processing_service.Cleanup.Laws.{spared}
use bulk_processing_service.JobManager.Cases.{status_cases}
use bulk_processing_service.Locks.{
  is_held, open_lock_file, release, thread_lock, try_job_lock, try_lock_file, unlock_if,
}
use bulk_processing_service.Locks.Laws.{is_held-thread_lock}
use bulk_processing_service.Models.{JobMetadata, Time, active, completed}
use bulk_processing_service.Paths.{Host, job_dir}
use bulk_processing_service.Storage.{
  Action, JobDir, None, Outcome, Storage, clean, dir_at, lift, ok, returns, set_dir,
}
use bulk_processing_service.Storage.Laws.{bind_returns, dir_in-set_dir_self}
use bulk_processing_service.Base.Dict

-- The lock of a job is held by another thread, or its lock file by another replica.
pub data IsBusy (job_id path : Text) (s : Storage) : Type 0 where
  by_thread : is_held s.thread_locks job_id ≡ true → IsBusy job_id path s
  by_replica :
      is_held s.thread_locks job_id ≡ false
      → contains s.foreign_locks path ≡ true
      → IsBusy job_id path s

-- The action returned, and the directory is there, with or without a lock file of its own.
abbrev Kept : Text → JobDir → Outcome None × Storage → Type 0
Kept path d (r, t) =
    (r ≡ returns tt) × ((dir_at t path ≡ some d) ⊎ (dir_at t path ≡ some (spared d)))

-- The storage after the lock file was opened and could not be locked.
abbrev opened : Text → Text → JobDir → Storage → Storage
opened job_id path d s = record s {
  nodes = set_dir s.nodes path (spared d);
  thread_locks = Dict.put (thread_lock s.thread_locks job_id) job_id true;
}

module _ (h : Host) (job_id : Text) (s : Storage) where
  pub try_job_lock_held :
      (body : Bool → Action None)
      → is_held s.thread_locks job_id ≡ true
      → try_job_lock h job_id body s
        ≡ body false (record s { thread_locks = thread_lock s.thread_locks job_id })
  unfolding try_job_lock
  try_job_lock_held body held = rw (is_held-thread_lock, held) refl

open_lem :
    (path : Text) (d : JobDir) (s : Storage) (locks : Dict Text Bool)
    → dir_at s path ≡ some d
    → open_lock_file path (record s { thread_locks = locks })
      ≡ (returns tt, record s { thread_locks = locks; nodes = set_dir s.nodes path (spared d) })
open_lem path d s locks e = rw e

module _ (h : Host) (job_id : Text) {path : Text} {d : JobDir} (s : Storage) where
  try_job_lock_foreign :
      (body : Bool → Action None)
      → job_dir h job_id ≡ ok path
      → dir_at s path ≡ some d
      → is_held s.thread_locks job_id ≡ false
      → contains s.foreign_locks path ≡ true
      → body false (opened job_id path d s) ≡ (returns tt, opened job_id path d s)
      → try_job_lock h job_id body s ≡ (returns tt, release job_id (opened job_id path d s))
  unfolding try_job_lock
  try_job_lock_foreign body p e free foreign idle =
      rw (is_held-thread_lock, free)
        (ap (clean (release job_id)) (
          bind_returns (lift (job_dir h job_id)) _ (rw p)
          ∙ bind_returns (open_lock_file path) _ (open_lem path d s _ e)
          ∙ bind_returns (try_lock_file path) _ {s = opened job_id path d s} (rw foreign)
          ∙ ap (clean (unlock_if false path)) idle))

module _ (h : Host) (s : Storage) where
  cleanup_job_active :
      (listed : JobMetadata) (now ttl : Time)
      → listed.status ≡ active
      → cleanup_job h listed now ttl s ≡ cleanup_active_job h listed now ttl s
  unfolding cleanup_job
  cleanup_job_active listed now ttl e = ground arith

  cleanup_job_completed :
      (listed : JobMetadata) (now ttl : Time)
      → listed.status ≡ completed
      → cleanup_job h listed now ttl s ≡ cleanup_completed_job h listed now ttl s
  unfolding cleanup_job
  cleanup_job_completed listed now ttl e = ground arith

module _ (h : Host) (job_id : Text) {path : Text} {d : JobDir} (s : Storage)
    (p : job_dir h job_id ≡ ok path) (e : dir_at s path ≡ some d) where
  try_job_lock-Kept :
      (body : Bool → Action None)
      → IsBusy job_id path s
      → ((t : Storage) → body false t ≡ (returns tt, t))
      → Kept path d (try_job_lock h job_id body s)
  try_job_lock-Kept body (by_thread held) idle =
      rw (try_job_lock_held h job_id s body held, idle) (refl, inl e)
  try_job_lock-Kept body (by_replica free foreign) idle =
      rw (try_job_lock_foreign h job_id s body p e free foreign (idle (opened job_id path d s)))
        (refl, inr (dir_in-set_dir_self s.nodes path (spared d)))

  completed-Kept :
      (listed : JobMetadata) (now ttl : Time)
      → listed.job_id ≡ job_id
      → IsBusy job_id path s
      → Kept path d (cleanup_completed_job h listed now ttl s)
  unfolding cleanup_completed_job delete_acquired
  completed-Kept listed now ttl q busy = elim (Option-cases listed.completed_at) [
    | inl unset ↦ rw unset (refl, inl e)
    | inr (t, at_time) ↦ elim (Bool-cases (is_within now t ttl)) [
      | inl young ↦ rw (at_time, young) (refl, inl e)
      | inr old ↦
          rw (at_time, old, q) (try_job_lock-Kept (delete_acquired h job_id) busy (λ t. refl))
    ]
  ]

  active-Kept :
      (listed : JobMetadata) (now ttl : Time)
      → listed.job_id ≡ job_id
      → IsBusy job_id path s
      → Kept path d (cleanup_active_job h listed now ttl s)
  unfolding cleanup_active_job recheck
  active-Kept listed now ttl q busy =
      elim (Bool-cases (is_within now (last_activity listed) (ttl * 2))) [
        | inl young ↦ rw young (refl, inl e)
        | inr old ↦ rw (old, q) (try_job_lock-Kept (recheck h job_id now ttl) busy (λ t. refl))
      ]

  -- However old the sweep takes a job to be, it returns at once and leaves the directory as it is,
  -- but for a lock file, while another thread or replica holds the lock of the job.
  pub cleanup_job-skips :
      (listed : JobMetadata) (now ttl : Time)
      → listed.job_id ≡ job_id
      → IsBusy job_id path s
      → ((cleanup_job h listed now ttl s).0 ≡ returns tt)
        × ((dir_at (cleanup_job h listed now ttl s).1 path ≡ some d)
            ⊎ (dir_at (cleanup_job h listed now ttl s).1 path ≡ some (spared d)))
  cleanup_job-skips listed now ttl q busy = elim (status_cases listed.status) [
    | inl act ↦ rw (cleanup_job_active h s listed now ttl act) (active-Kept listed now ttl q busy)
    | inr cmp ↦
        rw (cleanup_job_completed h s listed now ttl cmp) (completed-Kept listed now ttl q busy)
  ]
