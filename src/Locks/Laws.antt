-- ===== src/Locks/Laws.antt =====
-- app/job_manager.py, `_job_lock` and `_try_job_lock`: the body of the `with` block and the way out.
use bulk_processing_service.Base.{
  Bool, Text, ap, arith, contains, false, nat_eq, refl, some, text_eq, true, ◌∙◌, ◌≡◌,
}
use bulk_processing_service.Base.Dict.{Dict, get-put}
use bulk_processing_service.Locks.{
  acquire, is_held, job_lock, lock_file, open_lock_file, release, thread_lock, try_job_lock,
  try_lock_file, unlock_file,
}
use bulk_processing_service.Paths.{Host, job_dir}
use bulk_processing_service.Storage.{
  Action, JobDir, Outcome, Storage, clean, dir_at, lift, ok, raises, returns, set_dir, waits,
}
use bulk_processing_service.Storage.Laws.{bind_returns}
use bulk_processing_service.Base.Dict

-- The storage inside the `with` block.
abbrev pub locked : Text → Text → JobDir → Storage → Storage
locked job_id path d s = record s {
  nodes = set_dir s.nodes path (record d { lock_file = true });
  thread_locks = Dict.put (thread_lock s.thread_locks job_id) job_id true;
  file_locks = Dict.put s.file_locks path true;
}

-- The way out of the `with` block.
abbrev pub leave : {A : Type 0} → Text → Text → Outcome A × Storage → Outcome A × Storage
leave job_id path = clean (λ s. release job_id (unlock_file path s))

clean-clean :
    {A : Type 0} (job_id path : Text) (p : Outcome A × Storage)
    → clean (release job_id) (clean (unlock_file path) p) ≡ leave job_id path p
clean-clean job_id path (returns a, s) = refl
clean-clean job_id path (raises e, s) = refl
clean-clean job_id path (waits, s) = refl

pub is_held-thread_lock :
    (locks : Dict Text Bool) (j k : Text) → is_held (thread_lock locks j) k ≡ is_held locks k
unfolding is_held thread_lock
is_held-thread_lock locks j k = ground (arith, get-put locks j k false)

-- What a call of the lock needs of the storage to go through at once.
pub record IsFree (h : Host) (job_id path : Text) (d : JobDir) (s : Storage) : Type 0 where
  pub path_of : job_dir h job_id ≡ ok path
  pub dir : dir_at s path ≡ some d
  pub thread : is_held s.thread_locks job_id ≡ false
  pub foreign : contains s.foreign_locks path ≡ false

module _ {h : Host} {job_id path : Text} {d : JobDir} {s : Storage}
    (f : IsFree h job_id path d s) where
  acquire_lem : acquire job_id (record s { thread_locks = thread_lock s.thread_locks job_id }) ≡ (
    returns tt,
    record s { thread_locks = Dict.put (thread_lock s.thread_locks job_id) job_id true },
  )
  acquire_lem = rw (is_held-thread_lock, f.thread)

  open_lem :
      (locks : Dict Text Bool)
      → open_lock_file path (record s { thread_locks = locks }) ≡ (
        returns tt,
        record s {
          thread_locks = locks;
          nodes = set_dir s.nodes path (record d { lock_file = true });
        },
      )
  open_lem locks = rw f.dir

  -- The body runs between `locked` and `leave`.
  pub job_lock_lem :
      {A : Type 0} (body : Action A)
      → job_lock h job_id body s ≡ leave job_id path (body (locked job_id path d s))
  unfolding job_lock
  job_lock_lem body =
      bind_returns (acquire job_id) _ acquire_lem
      ∙ ap (clean (release job_id)) (
          bind_returns (lift (job_dir h job_id)) _ (rw f.path_of)
          ∙ bind_returns (open_lock_file path) _ (open_lem _)
          ∙ ap (clean (unlock_file path)) (
              bind_returns (lock_file path) _
                {s = record (locked job_id path d s) { file_locks = s.file_locks }} (rw f.foreign)))
      ∙ clean-clean job_id path (body (locked job_id path d s))

  -- `_try_job_lock` gets the lock, and the body runs with it held.
  pub try_job_lock_lem :
      {A : Type 0} (body : Bool → Action A)
      → try_job_lock h job_id body s ≡ leave job_id path (body true (locked job_id path d s))
  unfolding try_job_lock
  try_job_lock_lem body =
      rw (is_held-thread_lock, f.thread)
        (ap (clean (release job_id)) (
            bind_returns (lift (job_dir h job_id)) _ (rw f.path_of)
            ∙ bind_returns (open_lock_file path) _ (open_lem _)
            ∙ bind_returns (try_lock_file path) _
                {s = record (locked job_id path d s) { file_locks = s.file_locks }} (rw f.foreign))
          ∙ clean-clean job_id path (body true (locked job_id path d s)))
