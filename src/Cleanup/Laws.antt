-- ===== src/Cleanup/Laws.antt =====
-- app/cleanup.py: what the sweep deletes where the lock of a job is free.
use bulk_processing_service.Base.{
  Bool, Bool-cases, Option, Text, arith, eq_refl, false, if◌then◌else◌, inl, inr, nat_eq, none, not,
  refl, some, text_eq, true, ◌&&◌, ◌*◌, ◌+◌, ◌<◌, ◌≡◌,
}
use bulk_processing_service.Base.Dict.{Dict, get-remove}
use bulk_processing_service.Cleanup.{
  cleanup_active_job, cleanup_completed_job, delete_acquired, delete_stuck, is_within,
  last_activity, recheck,
}
use bulk_processing_service.JobManager.{
  decode, delete_job, drop_lock, get_job_metadata, is_completed, read_metadata, remove_existing,
}
use bulk_processing_service.JobManager.Steps.{read_metadata_lem}
use bulk_processing_service.Locks.Laws.{IsFree, leave, locked, try_job_lock_lem}
use bulk_processing_service.Models.{JobMetadata, Time}
use bulk_processing_service.Paths.{Host}
use bulk_processing_service.Storage.{
  JobDir, None, Outcome, Storage, dir_at, dir_in, ok, raises, returns, waits,
}
use bulk_processing_service.Storage.Laws.{bind_returns, dir_in-set_dir_self, exists_of_dir}
use bulk_processing_service.Base.Dict

-- A job that the sweep may delete: an active one whose last activity is more than two periods ago.
abbrev pub is_stuck : JobMetadata → Time → Time → Bool
is_stuck m now ttl = not (is_completed m.status) && not (is_within now (last_activity m) (ttl * 2))

-- The directory as a sweep that spares it leaves it, with the lock file that it opened.
abbrev pub spared : JobDir → JobDir
spared d = record d { lock_file = true }

module _ (h : Host) {job_id path : Text} {d : JobDir} {s : Storage}
    (f : IsFree h job_id path d s) where
  removed : Storage → Storage
  removed t = record t {
    nodes = Dict.remove t.nodes path;
    thread_locks = Dict.remove t.thread_locks job_id;
  }

  delete_job_lem :
      delete_job h job_id (locked job_id path d s) ≡ (returns tt, removed (locked job_id path d s))
  unfolding delete_job remove_existing drop_lock removed
  delete_job_lem = ground (
    arith,
    f.path_of,
    dir_in-set_dir_self s.nodes path (spared d),
    exists_of_dir (locked job_id path d s).nodes path (spared d)
        (dir_in-set_dir_self s.nodes path (spared d)),
  )

  gone : (t : Storage) → dir_at (removed t) path ≡ none
  unfolding removed dir_in
  gone t = ground (arith, get-remove t.nodes path path, eq_refl path)

  -- What became of the directory, and that the action returned.
  Leaves : Option JobDir → Outcome None × Storage → Type 0
  Leaves o (r, t) = (r ≡ returns tt) × (dir_at t path ≡ o)

  leave-Leaves :
      (o : Option JobDir) (p : Outcome None × Storage) → Leaves o p → Leaves o (leave job_id path p)
  unfolding Leaves
  leave-Leaves o (returns _, t) (e, k) = (refl, k)
  leave-Leaves o (raises x, t) (e, k) = absurd (ground arith)
  leave-Leaves o (waits, t) (e, k) = absurd (ground arith)

  deleted_lem : Leaves none (delete_job h job_id (locked job_id path d s))
  unfolding Leaves
  deleted_lem = rw delete_job_lem (refl, gone (locked job_id path d s))

  delete_stuck-Leaves :
      (now ttl : Time) (m : JobMetadata)
      → Leaves
          (if is_stuck m now ttl then none else some (spared d))
          (delete_stuck h job_id now ttl (some m) (locked job_id path d s))
  unfolding Leaves delete_stuck
  delete_stuck-Leaves now ttl m = elim (Bool-cases (is_completed m.status)) [
    | inl finished ↦ rw finished (refl, dir_in-set_dir_self s.nodes path (spared d))
    | inr alive ↦ elim (Bool-cases (is_within now (last_activity m) (ttl * 2))) [
      | inl young ↦ rw (alive, young) (refl, dir_in-set_dir_self s.nodes path (spared d))
      | inr old ↦ rw (alive, old) deleted_lem
    ]
  ]

  recheck_lem :
      (now ttl : Time) (m : JobMetadata)
      → decode h d.metadata_json ≡ ok (some m)
      → recheck h job_id now ttl true (locked job_id path d s)
        ≡ delete_stuck h job_id now ttl (some m) (locked job_id path d s)
  unfolding recheck get_job_metadata
  recheck_lem now ttl m e = bind_returns (read_metadata h job_id) (delete_stuck h job_id now ttl) (
      read_metadata_lem h job_id f.path_of (locked job_id path d s) (spared d) {m = m}
        (dir_in-set_dir_self s.nodes path (spared d)) e)

  -- Where the lock is free and the listed metadata is old, the sweep of an active job deletes the
  -- directory exactly when the metadata that is there now, under the lock, is still active and old:
  -- more than twice the period has gone by since its last change, or since its making where it was
  -- not changed. A job that finished or made progress since it was listed is spared.
  pub cleanup_active_job-rechecks :
      (listed current : JobMetadata) (now ttl : Time)
      → listed.job_id ≡ job_id
      → is_within now (last_activity listed) (ttl * 2) ≡ false
      → decode h d.metadata_json ≡ ok (some current)
      → ((cleanup_active_job h listed now ttl s).0 ≡ returns tt)
        × (dir_at (cleanup_active_job h listed now ttl s).1 path
            ≡ (if is_stuck current now ttl then none else some (spared d)))
  unfolding cleanup_active_job Leaves
  cleanup_active_job-rechecks listed current now ttl e old stored =
      rw (old, e, try_job_lock_lem f (recheck h job_id now ttl), recheck_lem now ttl current stored)
        (leave-Leaves _ _ (delete_stuck-Leaves now ttl current))

  -- Where the lock is free, a completed job whose result has been there for longer than the period
  -- is deleted with everything in its directory.
  pub cleanup_completed_job-deletes :
      (listed : JobMetadata) (completed_at now ttl : Time)
      → listed.job_id ≡ job_id
      → listed.completed_at ≡ some completed_at
      → completed_at + ttl < now
      → ((cleanup_completed_job h listed now ttl s).0 ≡ returns tt)
        × (dir_at (cleanup_completed_job h listed now ttl s).1 path ≡ none)
  unfolding cleanup_completed_job Leaves delete_acquired
  cleanup_completed_job-deletes listed completed_at now ttl e at_time late =
      let old : is_within now completed_at ttl ≡ false = ground arith in
      rw (at_time, old, e, try_job_lock_lem f (delete_acquired h job_id))
        (leave-Leaves none _ deleted_lem)
