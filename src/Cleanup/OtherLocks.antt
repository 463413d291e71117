-- ===== src/Cleanup/OtherLocks.antt =====
-- app/job_manager.py: `_try_job_lock` and `delete_job` do not wait, and leave other jobs alone.
use bulk_processing_service.Base.{
  Bool, Bool-cases, Option-cases, Text, arith, contains, false, inl, inr, nat_eq, none, refl, some,
  sym, text_eq, true, ◌∙◌, ◌≡◌, ◌≢◌,
}
use bulk_processing_service.Base.Dict.{Dict, get-put, get-remove}
use bulk_processing_service.Cleanup.Calm.{
  Alike, Calm, IsCalm, IsCalm-later, clean-Calm, continue-Calm, lift-Calm,
}
use bulk_processing_service.Cleanup.Contention.{try_job_lock_held}
use bulk_processing_service.JobManager.{delete_job, drop_lock, remove_existing}
use bulk_processing_service.Locks.{
  is_held, open_lock_file, release, released, thread_lock, try_job_lock, try_lock_file, unlock_if,
}
use bulk_processing_service.Locks.Laws.{is_held-thread_lock}
use bulk_processing_service.Paths.{Host, job_dir}
use bulk_processing_service.Storage.{
  Action, JobDir, Node, None, Storage, clean, dir_at, directory, exists, finally, lift, ok,
  os_error, raises, remove_tree, returns, set_dir, ◌>>=◌, ◌>>◌,
}
use mathlib.Core.Path.{subst}
use bulk_processing_service.Base.Dict

module _ (j q job_id : Text) (differs : job_id ≢ j) where
  is_held-put :
      (locks : Dict Text Bool) (b : Bool) → is_held (Dict.put locks job_id b) j ≡ is_held locks j
  unfolding is_held
  is_held-put locks b = ground (arith, get-put locks job_id j b)

  is_held-remove : (locks : Dict Text Bool) → is_held (Dict.remove locks job_id) j ≡ is_held locks j
  unfolding is_held
  is_held-remove locks = ground (arith, get-remove locks job_id j)

  is_held-released : (locks : Dict Text Bool) → is_held (released locks job_id) j ≡ is_held locks j
  unfolding is_held released
  is_held-released locks = ground (arith, get-put locks job_id j false)

  release-Alike : (t : Storage) → Alike j q (release job_id t) t
  release-Alike t = (refl, is_held-released t.thread_locks, refl)

module _ (h : Host) (j q job_id : Text) (differs : job_id ≢ j)
    (other : (path : Text) → job_dir h job_id ≡ ok path → path ≢ q) where
  node-set_dir :
      (nodes : Dict Text Node) (path : Text) (d : JobDir)
      → path ≢ q
      → Dict.get (set_dir nodes path d) q ≡ Dict.get nodes q
  unfolding set_dir
  node-set_dir nodes path d ne = ground (arith, get-put nodes path q (directory d))

  node-remove :
      (nodes : Dict Text Node) (path : Text)
      → path ≢ q
      → Dict.get (Dict.remove nodes path) q ≡ Dict.get nodes q
  node-remove nodes path ne = ground (arith, get-remove nodes path q)

  remove_tree-found :
      (path : Text) (s : Storage) {d : JobDir}
      → dir_at s path ≡ some d
      → remove_tree path s ≡ (returns tt, record s { nodes = Dict.remove s.nodes path })
  remove_tree-found path s e = ground arith

  remove_tree-absent :
      (path : Text) (s : Storage) → dir_at s path ≡ none → remove_tree path s ≡ (raises os_error, s)
  remove_tree-absent path s e = ground arith

  remove_tree-Calm : (path : Text) → path ≢ q → Calm j q (remove_tree path)
  remove_tree-Calm path ne s = elim (Option-cases (dir_at s path)) [
    | inl absent ↦
        subst (IsCalm j q s) (sym (remove_tree-absent path s absent)) (λ w. cc, (refl, refl, refl))
    | inr (d, found) ↦
        subst (IsCalm j q s) (sym (remove_tree-found path s found))
          (λ w. cc, (node-remove s.nodes path ne, refl, refl))
  ]

  remove_existing-there :
      (path : Text) (s : Storage)
      → exists s.nodes path ≡ true
      → remove_existing path s ≡ remove_tree path s
  unfolding remove_existing
  remove_existing-there path s e = ground arith

  remove_existing-absent :
      (path : Text) (s : Storage)
      → exists s.nodes path ≡ false
      → remove_existing path s ≡ (returns tt, s)
  unfolding remove_existing
  remove_existing-absent path s e = ground arith

  remove_existing-Calm : (path : Text) → path ≢ q → Calm j q (remove_existing path)
  remove_existing-Calm path ne s = elim (Bool-cases (exists s.nodes path)) [
    | inl there ↦
        subst (IsCalm j q s) (sym (remove_existing-there path s there)) (remove_tree-Calm path ne s)
    | inr absent ↦
        subst (IsCalm j q s) (sym (remove_existing-absent path s absent))
          (λ w. cc, (refl, refl, refl))
  ]

  drop_lock-Calm : Calm j q (drop_lock job_id)
  unfolding drop_lock
  drop_lock-Calm s = (λ w. cc, (refl, is_held-remove j q job_id differs s.thread_locks, refl))

  pub delete_job-Calm : Calm j q (delete_job h job_id)
  unfolding delete_job
  delete_job-Calm = lift-Calm j q (job_dir h job_id) _ λ path e s.
      continue-Calm j q _ s (remove_existing path s) (λ _. drop_lock-Calm)
        (remove_existing-Calm path (other path e) s)

  open_lock_file-Calm : (path : Text) → path ≢ q → Calm j q (open_lock_file path)
  open_lock_file-Calm path ne s = elim (Option-cases (dir_at s path)) [
    | inl absent ↦ rw absent (λ w. cc, (refl, refl, refl))
    | inr (d, there) ↦
        rw there
          (λ w. cc, (node-set_dir s.nodes path (record d { lock_file = true }) ne, refl, refl))
  ]

  try_lock_file-Calm : (path : Text) → Calm j q (try_lock_file path)
  try_lock_file-Calm path s = elim (Bool-cases (contains s.foreign_locks path)) [
    | inl held ↦ rw held (λ w. cc, (refl, refl, refl))
    | inr free ↦ rw free (λ w. cc, (refl, refl, refl))
  ]

  -- The part of `_try_job_lock` where the lock of the thread was acquired.
  abbrev with_lock_file : (Bool → Action None) → Action None
  with_lock_file body = do
    path ← lift (job_dir h job_id)
    open_lock_file path
    acquired ← try_lock_file path
    finally (body acquired) (unlock_if acquired path)

  unlock_if-Alike :
      (acquired : Bool) (path : Text) (t : Storage) → Alike j q (unlock_if acquired path t) t
  unlock_if-Alike true path t = (refl, refl, refl)
  unlock_if-Alike false path t = (refl, refl, refl)

  with_lock_file-Calm :
      (body : Bool → Action None)
      → ((b : Bool) → Calm j q (body b))
      → Calm j q (with_lock_file body)
  with_lock_file-Calm body k = lift-Calm j q (job_dir h job_id) _ λ path e s.
      continue-Calm j q _ s (open_lock_file path s)
        (λ _ t.
          continue-Calm j q _ t (try_lock_file path t)
            (λ acquired u.
              clean-Calm j q (unlock_if acquired path) u (body acquired u)
                (unlock_if-Alike acquired path) (k acquired u))
            (try_lock_file-Calm path t))
        (open_lock_file-Calm path (other path e) s)

  try_job_lock_acquired :
      (body : Bool → Action None) (s : Storage)
      → is_held s.thread_locks job_id ≡ false
      → try_job_lock h job_id body s
        ≡ clean (release job_id) (
            with_lock_file body (record s {
              thread_locks = Dict.put (thread_lock s.thread_locks job_id) job_id true;
            }))
  unfolding try_job_lock
  try_job_lock_acquired body s free = rw (is_held-thread_lock, free) refl

  thread_lock-Alike :
      (locks : Dict Text Bool) → is_held (thread_lock locks job_id) j ≡ is_held locks j
  thread_lock-Alike locks = is_held-thread_lock locks job_id j

  pub try_job_lock-Calm :
      (body : Bool → Action None)
      → ((b : Bool) → Calm j q (body b))
      → Calm j q (try_job_lock h job_id body)
  try_job_lock-Calm body k s = elim (Bool-cases (is_held s.thread_locks job_id)) [
    | inl held ↦
        let t = record s { thread_locks = thread_lock s.thread_locks job_id } in
        subst (IsCalm j q s) (sym (try_job_lock_held h job_id s body held)) (
          IsCalm-later j q s t (body false t) (refl, thread_lock-Alike s.thread_locks, refl)
            (k false t))
    | inr free ↦
        let locks = thread_lock s.thread_locks job_id in
        let t = record s { thread_locks = Dict.put locks job_id true } in
        subst (IsCalm j q s) (sym (try_job_lock_acquired body s free)) (
          IsCalm-later j q s t (clean (release job_id) (with_lock_file body t))
            (
              refl,
              is_held-put j q job_id differs locks true ∙ thread_lock-Alike s.thread_locks,
              refl,
            )
            (clean-Calm j q (release job_id) t (with_lock_file body t)
              (release-Alike j q job_id differs) (with_lock_file-Calm body k t)))
  ]
