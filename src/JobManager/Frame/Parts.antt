-- ===== src/JobManager/Frame/Parts.antt =====
-- app/job_manager.py: what the parts of the operations do to other paths.
use bulk_processing_service.Base.Dict
use bulk_processing_service.Base.{
  Bool, Option, Text, arith, nat_eq, none, refl, some, text_eq, true, ◌≡◌, ◌≢◌,
}
use bulk_processing_service.Base.Dict.{Dict, get-put}
use bulk_processing_service.JobManager.{metadata_at, read_metadata, require_exists, write_metadata}
use bulk_processing_service.Locks.{
  acquire, job_lock, lock_file, open_lock_file, release, thread_lock, unlock_file,
}
use bulk_processing_service.Models.{JobMetadata}
use bulk_processing_service.Paths.{Host, job_dir}
use bulk_processing_service.Storage.{
  Action, Error, JobDir, Node, Storage, directory, find_dir, lift, ok, raise_if, set_dir, write_dir,
  ◌>>=◌, ◌>>◌,
}
use bulk_processing_service.Storage.Keeps.{
  Keeps, bind-Keeps, finally-Keeps, lift-Keeps, lift-Keeps_end,
}

abbrev pub node_at : Text → Storage → Option Node
node_at q s = Dict.get s.nodes q

module _ (h : Host) (job_id q : Text)
    (other : (path : Text) → job_dir h job_id ≡ ok path → path ≢ q) where
  pub write-Keeps :
      (path : Text) (d : JobDir) → job_dir h job_id ≡ ok path → Keeps (node_at q) (write_dir path d)
  unfolding set_dir
  write-Keeps path d e = record {
    at = λ s. ground (arith, get-put s.nodes path q (directory d), other path e);
  }

  pub find-Keeps : (path : Text) → Keeps (node_at q) (find_dir path)
  find-Keeps path = record { at = λ s. ground arith }

  pub read_metadata-Keeps : Keeps (node_at q) (read_metadata h job_id)
  unfolding read_metadata
  read_metadata-Keeps =
      lift-Keeps (node_at q) (job_dir h job_id)
        λ path e. record { at = λ s. (lift-Keeps_end (node_at q) (metadata_at h s path)).at s }

  -- A directory is read and written back in another form.
  pub update-Keeps :
      (path : Text) (f : JobDir → JobDir)
      → job_dir h job_id ≡ ok path
      → Keeps (node_at q) (find_dir path >>= λ d. write_dir path (f d))
  update-Keeps path f e =
      bind-Keeps (node_at q) (find_dir path) (find-Keeps path) λ d. write-Keeps path (f d) e

  pub write_metadata-Keeps : (m : JobMetadata) → Keeps (node_at q) (write_metadata h job_id m)
  unfolding write_metadata
  write_metadata-Keeps m = lift-Keeps (node_at q) (job_dir h job_id) λ path e.
      bind-Keeps (node_at q) (find_dir path) (find-Keeps path) λ d.
        bind-Keeps (node_at q) (write_dir path (record d { metadata_tmp = some (h.dump m) }))
          (write-Keeps path _ e)
          λ _.
            update-Keeps path
              (λ d'. record d' { metadata_json = d'.metadata_tmp; metadata_tmp = none }) e

  pub acquire-Keeps : Keeps (node_at q) (acquire job_id)
  acquire-Keeps = record { at = λ t. ground arith }

  pub lock_file-Keeps : (path : Text) → Keeps (node_at q) (lock_file path)
  lock_file-Keeps path = record { at = λ t. ground arith }

  pub job_lock-Keeps :
      {A : Type 0} (body : Action A)
      → Keeps (node_at q) body
      → Keeps (node_at q) (job_lock h job_id body)
  unfolding job_lock
  job_lock-Keeps body k = record {
    at = λ s.
        (bind-Keeps (node_at q) (acquire job_id) acquire-Keeps λ _.
            finally-Keeps (node_at q) (release job_id)
              (lift-Keeps (node_at q) (job_dir h job_id) λ path e.
                bind-Keeps (node_at q) (open_lock_file path)
                  (update-Keeps path (λ d. record d { lock_file = true }) e)
                  λ _.
                    finally-Keeps (node_at q) (unlock_file path)
                      (bind-Keeps (node_at q) (lock_file path) (lock_file-Keeps path) λ _. k)
                      (λ t. refl))
              (λ t. refl)).at
          (record s { thread_locks = thread_lock s.thread_locks job_id });
  }

  pub require_exists-Keeps : (path : Text) (e : Error) → Keeps (node_at q) (require_exists path e)
  require_exists-Keeps path e = record { at = λ s. ground arith }

  pub raise_if-Keeps : (t : Bool) (e : Error) → Keeps (node_at q) (raise_if t e)
  raise_if-Keeps t e = record { at = λ s. refl }

  -- An operation under the lock.
  pub guarded-Keeps :
      {A : Type 0} (e : Error) (body : Text → Action A)
      → ((path : Text) → job_dir h job_id ≡ ok path → Keeps (node_at q) (body path))
      → Keeps (node_at q) (
          lift (job_dir h job_id) >>= λ path.
          require_exists path e >> job_lock h job_id (body path))
  guarded-Keeps e body k = lift-Keeps (node_at q) (job_dir h job_id) λ path p.
      bind-Keeps (node_at q) (require_exists path e) (require_exists-Keeps path e)
        λ _. job_lock-Keeps (body path) (k path p)
