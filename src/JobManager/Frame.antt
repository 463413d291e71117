-- ===== src/JobManager/Frame.antt =====
-- app/job_manager.py: what the operations on one job do to the paths of others.
pub mod Parts
use bulk_processing_service.Base.{
  Bool, Bytes, List, Option, Text, [], arith, eqb, false, nat_eq, none, refl, some, text_eq, true,
  ℕ, ◌+◌, ◌∙◌, ◌∷◌, ◌≡◌, ◌≢◌,
}
use bulk_processing_service.Base.Dict.{Dict, get-put, get-remove}
use bulk_processing_service.JobManager.{
  add_locked, add_pdf, complete_job, complete_locked, create_job, delete_job, drop_lock,
  get_debug_dir, get_job_metadata, get_result_path, is_completed, make_debug, make_debug_dir,
  merge_documents, merge_locked, read_documents, read_metadata, record_failure, record_locked,
  remove_existing, result_of, write_metadata,
}
use bulk_processing_service.JobManager.Calls.{
  Call, Elsewhere, add_document, add_failure, debug, delete, finish, perform, read, run, start,
}
use bulk_processing_service.JobManager.Frame.Parts.{node_at}
use bulk_processing_service.Models.{JobMetadata, MergeJobStartParams, Time, completed}
use bulk_processing_service.Paths.{Host, job_dir, no_documents, not_active, not_found}
use bulk_processing_service.Storage.{
  Action, JobDir, Outcome, Storage, directory, empty_dir, find_dir, key_error, make_dir, ok,
  or_raise, pure, raise_if, returns, set_dir, value_error, write_dir,
}
use bulk_processing_service.Storage.Keeps.{
  Keeps, bind-Keeps, lift-Keeps, or_raise-Keeps, pure-Keeps,
}
use bulk_processing_service.Base.Dict
use bulk_processing_service.JobManager.Frame.Parts

module _ (h : Host) (job_id q : Text)
    (other : (path : Text) → job_dir h job_id ≡ ok path → path ≢ q) where
  add_pdf-Keeps : (pdf : Bytes) (now : Time) → Keeps (node_at q) (add_pdf h job_id pdf now)
  unfolding add_pdf add_locked
  add_pdf-Keeps pdf now =
      Parts.guarded-Keeps h job_id q other (key_error (not_found job_id))
        (λ path. add_locked h job_id path pdf now)
        λ path e.
          bind-Keeps (node_at q) (read_metadata h job_id)
            (Parts.read_metadata-Keeps h job_id q other)
            λ found.
              bind-Keeps (node_at q) (or_raise found (key_error (not_found job_id)))
                (or_raise-Keeps (node_at q) found _)
                λ m.
                  bind-Keeps (node_at q)
                    (raise_if (is_completed m.status) (value_error (not_active job_id)))
                    (Parts.raise_if-Keeps h job_id q other _ _)
                    λ _.
                      bind-Keeps (node_at q) (find_dir path)
                        (Parts.find-Keeps h job_id q other path)
                        λ d.
                          let d' : JobDir = record d {
                            documents = Dict.put d.documents m.pdf_count pdf;
                          } in
                          let m' : JobMetadata = record m {
                            pdf_count = m.pdf_count + 1;
                            updated_at = some now;
                          } in
                          bind-Keeps (node_at q) (write_dir path d')
                            (Parts.write-Keeps h job_id q other path d' e)
                            λ _.
                              bind-Keeps (node_at q) (write_metadata h job_id m')
                                {f = λ _. pure m.pdf_count}
                                (Parts.write_metadata-Keeps h job_id q other m')
                                λ _. record { at = λ s. refl }

  record_failure-Keeps : (now : Time) → Keeps (node_at q) (record_failure h job_id now)
  unfolding record_failure record_locked
  record_failure-Keeps now =
      Parts.guarded-Keeps h job_id q other (key_error (not_found job_id))
        (λ _. record_locked h job_id now)
        λ path e.
          bind-Keeps (node_at q) (read_metadata h job_id)
            (Parts.read_metadata-Keeps h job_id q other)
            λ found.
              bind-Keeps (node_at q) (or_raise found (key_error (not_found job_id)))
                (or_raise-Keeps (node_at q) found _)
                λ m. Parts.write_metadata-Keeps h job_id q other _

  merge_documents-Keeps :
      (path : Text) (n : ℕ)
      → job_dir h job_id ≡ ok path
      → Keeps (node_at q) (merge_documents h path n)
  unfolding merge_documents
  merge_documents-Keeps path n e =
      bind-Keeps (node_at q) (find_dir path) (Parts.find-Keeps h job_id q other path) λ d.
        lift-Keeps (node_at q) (read_documents d.documents 0 n) λ pdfs _.
          lift-Keeps (node_at q) (h.merge pdfs)
            λ merged _. Parts.write-Keeps h job_id q other path _ e

  merge_locked-Keeps :
      (path : Text) (m : JobMetadata) (now : Time)
      → job_dir h job_id ≡ ok path
      → Keeps (node_at q) (merge_locked h job_id path m now)
  unfolding merge_locked
  merge_locked-Keeps path m now e =
      bind-Keeps (node_at q) (raise_if (eqb m.pdf_count 0) (value_error no_documents))
        (Parts.raise_if-Keeps h job_id q other _ _)
        λ _.
          bind-Keeps (node_at q) (merge_documents h path m.pdf_count)
            (merge_documents-Keeps path m.pdf_count e)
            λ _.
              let m' : JobMetadata = record m { status = completed; completed_at = some now } in
              bind-Keeps (node_at q) (write_metadata h job_id m') {f = λ _. pure (result_of path)}
                (Parts.write_metadata-Keeps h job_id q other m') λ _. record { at = λ s. refl }

  complete_job-Keeps : (now : Time) → Keeps (node_at q) (complete_job h job_id now)
  unfolding complete_job complete_locked
  complete_job-Keeps now =
      Parts.guarded-Keeps h job_id q other (key_error (not_found job_id))
        (λ path. complete_locked h job_id path now)
        λ path e.
          bind-Keeps (node_at q) (read_metadata h job_id)
            (Parts.read_metadata-Keeps h job_id q other)
            λ found.
              bind-Keeps (node_at q) (or_raise found (key_error (not_found job_id)))
                (or_raise-Keeps (node_at q) found _)
                λ m. record { at = λ s. ground (arith, (merge_locked-Keeps path m now e).at s) }

  -- `get_debug_dir` with the setting made explicit.
  debug_setting :
      (b : Bool) (m : Action (Option Text)) (s : Storage)
      → node_at q (m s).1 ≡ node_at q s
      → node_at q
          (elim b as (λ _. Outcome (Option Text) × Storage) [
            | false ↦ (returns none, s)
            | true ↦ m s
          ]).1
        ≡ node_at q s
  debug_setting true m s k = k
  debug_setting false m s k = refl

  get_debug_dir-Keeps : Keeps (node_at q) (get_debug_dir h job_id)
  unfolding get_debug_dir make_debug_dir
  get_debug_dir-Keeps = record {
    at = λ s. debug_setting h.debug_dir (make_debug_dir h job_id) s (
        (lift-Keeps (node_at q) (job_dir h job_id) λ path e.
            bind-Keeps (node_at q) (find_dir path) (Parts.find-Keeps h job_id q other path) λ d.
              bind-Keeps (node_at q) (write_dir path (make_debug d))
                (Parts.write-Keeps h job_id q other path (make_debug d) e)
                λ _. pure-Keeps (node_at q) (some path)).at
          s);
  }

  remove_tree-Keeps :
      (path : Text) → job_dir h job_id ≡ ok path → Keeps (node_at q) (remove_existing path)
  unfolding remove_existing
  remove_tree-Keeps path e = record {
    at = λ s. ground (arith, get-remove s.nodes path q, other path e);
  }

  drop_lock-Keeps : Keeps (node_at q) (drop_lock job_id)
  unfolding drop_lock
  drop_lock-Keeps = record { at = λ s. refl }

  delete_job-Keeps : Keeps (node_at q) (delete_job h job_id)
  unfolding delete_job
  delete_job-Keeps = lift-Keeps (node_at q) (job_dir h job_id) λ path e.
      bind-Keeps (node_at q) (remove_existing path) (remove_tree-Keeps path e) λ _. drop_lock-Keeps

  make_dir-Keeps : (path : Text) → job_dir h job_id ≡ ok path → Keeps (node_at q) (make_dir path)
  unfolding set_dir
  make_dir-Keeps path e = record {
    at = λ s. ground (arith, get-put s.nodes path q (directory empty_dir), other path e);
  }

  create_job-Keeps :
      (params : MergeJobStartParams) (user : Option Text) (now : Time)
      → Keeps (node_at q) (create_job h params user job_id now)
  unfolding create_job
  create_job-Keeps params user now = lift-Keeps (node_at q) (job_dir h job_id) λ path e.
      bind-Keeps (node_at q) (make_dir path) (make_dir-Keeps path e) λ _.
        bind-Keeps (node_at q) (write_metadata h job_id _)
          (Parts.write_metadata-Keeps h job_id q other _) λ _. pure-Keeps (node_at q) job_id

  perform-keeps : (call : Call) (s : Storage) → node_at q (perform h job_id call s) ≡ node_at q s
  unfolding perform get_job_metadata get_result_path
  perform-keeps (start params user now) s = (create_job-Keeps params user now).at s
  perform-keeps (add_document pdf now) s = (add_pdf-Keeps pdf now).at s
  perform-keeps (add_failure now) s = (record_failure-Keeps now).at s
  perform-keeps (finish now) s = (complete_job-Keeps now).at s
  perform-keeps debug s = get_debug_dir-Keeps.at s
  perform-keeps delete s = delete_job-Keeps.at s
  perform-keeps read s = (Parts.read_metadata-Keeps h job_id q other).at s

-- No call for other jobs touches a path: after any sequence of calls that are all for other jobs,
-- finished or failed, the path holds what it held.
pub run-keeps :
    (h : Host) (q : Text) (calls : List (Text × Call)) (s : Storage)
    → Elsewhere h q calls
    → node_at q (run h calls s) ≡ node_at q s
unfolding run
run-keeps h q [] s _ = refl
run-keeps h q ((id, call) ∷ calls) s (other, rest) =
    run-keeps h q calls (perform h id call s) rest ∙ perform-keeps h id q other call s
