-- ===== src/Locks.antt =====
-- app/job_manager.py: the locks of a job, `_thread_lock`, `_job_lock` and `_try_job_lock`.
pub mod Laws
pub mod Threads
use bulk_processing_service.Base.{
  Bool, Text, contains, false, if◌then◌else◌, nat_eq, none, some, text_eq, true,
}
use bulk_processing_service.Base.Dict.{Dict}
use bulk_processing_service.Paths.{Host, job_dir}
use bulk_processing_service.Storage.{
  Action, None, Storage, finally, find_dir, lift, returns, waits, write_dir, ◌>>=◌, ◌>>◌,
}
use bulk_processing_service.Base.Dict

-- `_thread_lock`: the lock of the job is made when it is first asked for.
unfoldable pub thread_lock : Dict Text Bool → Text → Dict Text Bool
thread_lock locks job_id = elim (Dict.get locks job_id) [
  | some _ ↦ locks
  | none ↦ Dict.put locks job_id false
]

unfoldable pub is_held : Dict Text Bool → Text → Bool
is_held locks job_id = elim (Dict.get locks job_id) [ some held ↦ held | none ↦ false ]

-- `thread_lock.release()`. A lock that was dropped from the map is released for nobody.
unfoldable pub released : Dict Text Bool → Text → Dict Text Bool
released locks job_id = elim (Dict.get locks job_id) [
  | some _ ↦ Dict.put locks job_id false
  | none ↦ locks
]

abbrev pub release : Text → Storage → Storage
release job_id s = record s { thread_locks = released s.thread_locks job_id }

-- `thread_lock.acquire()`
abbrev pub acquire : Text → Action None
acquire job_id s =
    if is_held s.thread_locks job_id
    then (waits, s)
    else (returns tt, record s { thread_locks = Dict.put s.thread_locks job_id true })

-- `os.open(lock_path, O_CREAT | O_RDWR)`
abbrev pub open_lock_file : Text → Action None
open_lock_file path = do d ← find_dir path; write_dir path (record d { lock_file = true })

-- `fcntl.lockf(fd, LOCK_EX)`
abbrev pub lock_file : Text → Action None
lock_file path s =
    if contains s.foreign_locks path
    then (waits, s)
    else (returns tt, record s { file_locks = Dict.put s.file_locks path true })

-- `fcntl.lockf(fd, LOCK_EX | LOCK_NB)` under `except OSError`
abbrev pub try_lock_file : Text → Action Bool
try_lock_file path s =
    if contains s.foreign_locks path
    then (returns false, s)
    else (returns true, record s { file_locks = Dict.put s.file_locks path true })

-- `fcntl.lockf(fd, LOCK_UN)` and `os.close(fd)`
abbrev pub unlock_file : Text → Storage → Storage
unlock_file path s = record s { file_locks = Dict.remove s.file_locks path }

abbrev pub unlock_if : Bool → Text → Storage → Storage
unlock_if acquired path s = if acquired then unlock_file path s else s

module _ (h : Host) {A : Type 0} where
  -- `with self._job_lock(job_id): body`
  unfoldable pub job_lock : Text → Action A → Action A
  job_lock job_id body s =
      (do
        acquire job_id
        finally
            (do
              path ← lift (job_dir h job_id)
              open_lock_file path
              finally (do lock_file path; body) (unlock_file path))
            (release job_id))
        (record s { thread_locks = thread_lock s.thread_locks job_id })

  -- `with self._try_job_lock(job_id) as acquired: body`
  unfoldable pub try_job_lock : Text → (Bool → Action A) → Action A
  try_job_lock job_id body s =
      let s' = record s { thread_locks = thread_lock s.thread_locks job_id } in
      if is_held s'.thread_locks job_id
      then body false s'
      else (do
        acquire job_id
        finally
            (do
              path ← lift (job_dir h job_id)
              open_lock_file path
              acquired ← try_lock_file path
              finally (body acquired) (unlock_if acquired path))
            (release job_id))
          s'
