-- ===== src/JobManager/Refinement.antt =====
-- app/job_manager.py: the operations of `JobManager` against those of a batch.
use bulk_processing_service.Base.{
  Bytes, Text, [], ap, false, inl, inr, length, nat_eq, refl, some, sym, text_eq, true, ℕ, ◌&&◌,
  ◌++◌, ◌+◌, ◌∙◌, ◌∷◌, ◌≡◌,
}
use bulk_processing_service.Base.Dict.{Dict}
use bulk_processing_service.JobManager.{
  add_locked, add_pdf, complete_job, complete_locked, is_completed, is_some, merge_locked,
  read_documents, record_failure, record_locked, require_exists, result_of,
}
use bulk_processing_service.JobManager.Batch.{Answers, Batch, Holds, IsLawful, Reply, Represents}
use bulk_processing_service.JobManager.Cases.{
  add_active, add_completed, again, complete_cases, failed_merge, merge_done, status_cases,
  without_documents,
}
use bulk_processing_service.JobManager.Documents.{length-read_documents, read_documents-put_next}
use bulk_processing_service.JobManager.Steps.{
  add_locked_lem, add_locked_refused, complete_locked_again, complete_locked_first, in_dir,
  merge_locked_empty, merge_locked_failed, merge_locked_lem, record_locked_lem, with_metadata,
}
use bulk_processing_service.Locks.{job_lock}
use bulk_processing_service.Locks.Laws.{IsFree, job_lock_lem, leave, locked}
use bulk_processing_service.Models.{JobMetadata, Time, completed}
use bulk_processing_service.Paths.{Host, job_dir, not_found}
use bulk_processing_service.Storage.{
  Action, JobDir, Outcome, Storage, dir_at, key_error, lift, ok, raises, returns, waits, ◌>>=◌,
  ◌>>◌,
}
use bulk_processing_service.Storage.Laws.{bind_returns, dir_in-set_dir_self, exists_of_dir}
use bulk_processing_service.Base.Dict
use bulk_processing_service.JobManager.Batch

-- An operation under the lock, where the job is there and its lock is free.
abbrev guarded : {A : Type 0} → Host → Text → (Text → Action A) → Action A
guarded h job_id body = do
  path ← lift (job_dir h job_id)
  require_exists path (key_error (not_found job_id))
  job_lock h job_id (body path)

-- Leaving the lock changes neither the answer nor the directory.
leave-Answers :
    {A : Type 0} (h : Host) (job_id path : Text) (a : Reply A × Batch) (p : Outcome A × Storage)
    → Answers h path a p
    → Answers h path a (leave job_id path p)
leave-Answers h job_id path a (returns x, s) (e, holds) = (e, holds)
leave-Answers h job_id path a (raises x, s) (e, holds) = (e, holds)
leave-Answers h job_id path a (waits, s) (e, holds) = (e, holds)

module _ (h : Host) (law : IsLawful h) (job_id : Text) {path : Text} {d : JobDir} {m : JobMetadata}
    {b : Batch} (s : Storage) (f : IsFree h job_id path d s) (rep : Represents h d m b) where
  guarded_lem :
      {A : Type 0} (body : Text → Action A)
      → guarded h job_id body s ≡ leave job_id path (body path (locked job_id path d s))
  guarded_lem body =
      bind_returns (lift (job_dir h job_id)) _ (rw f.path_of)
      ∙ bind_returns (require_exists path (key_error (not_found job_id))) _ {s = s}
          (rw (exists_of_dir s.nodes path d f.dir))
      ∙ job_lock_lem f (body path)

  dir_in_locked : dir_at (locked job_id path d s) path ≡ some (record d { lock_file = true })
  dir_in_locked = dir_in-set_dir_self s.nodes path (record d { lock_file = true })

  length-documents : length b.documents ≡ m.pdf_count
  length-documents = length-read_documents d.documents 0 m.pdf_count b.documents rep.documents

  -- It is enough that the body answers as the batch does.
  by_body :
      {A : Type 0} {x a : Reply A × Batch} {p : Outcome A × Storage}
      → x ≡ a
      → (body : Text → Action A) → body path (locked job_id path d s) ≡ p
      → Answers h path a p
      → Answers h path x (guarded h job_id body s)
  by_body e body q ans = rw (guarded_lem body, q, e) (leave-Answers h job_id path _ _ ans)

  abbrev holder : JobDir
  holder = record d { lock_file = true }

  -- The metadata that is written is read back.
  rewritten :
      (d' : JobDir) (m' : JobMetadata) (b' : Batch)
      → read_documents d'.documents 0 m'.pdf_count ≡ ok b'.documents
      → m'.status ≡ b'.status
      → m'.failed_count ≡ b'.failed
      → d'.result_pdf ≡ b'.result
      → Holds h path b' (in_dir (locked job_id path d s) path (with_metadata h d' m'))
  rewritten d' m' b' docs st fl res = (
    with_metadata h d' m',
    m',
    dir_in-set_dir_self (locked job_id path d s).nodes path (with_metadata h d' m'),
    record {
      metadata = rw law.load-dump;
      documents = docs;
      status = st;
      failed = fl;
      result = res;
    },
  )

  unchanged : Holds h path b (locked job_id path d s)
  unchanged = (
    holder,
    m,
    dir_in_locked,
    record {
      metadata = rep.metadata;
      documents = rep.documents;
      status = rep.status;
      failed = rep.failed;
      result = rep.result;
    },
  )

  -- `add_pdf` is `Batch.add`: in an active job the document is stored behind the others and its
  -- index is returned, in a completed one nothing is stored.
  pub add_pdf-Answers :
      (pdf : Bytes) (now : Time)
      → Answers h path (Batch.add job_id pdf b) (add_pdf h job_id pdf now s)
  unfolding add_pdf
  add_pdf-Answers pdf now = elim (status_cases b.status) [
    | inl act ↦
        by_body (add_active job_id pdf b act) (λ path. add_locked h job_id path pdf now)
          (add_locked_lem h job_id f.path_of _ holder m pdf now dir_in_locked rep.metadata
            (rep.status ∙ act))
          (
            ap returns (sym length-documents),
            rewritten (record holder { documents = Dict.put d.documents m.pdf_count pdf })
                (record m { pdf_count = m.pdf_count + 1; updated_at = some now })
                (record b { documents = b.documents ++ pdf ∷ [] })
                (read_documents-put_next d.documents m.pdf_count b.documents pdf rep.documents)
                rep.status rep.failed rep.result,
          )
    | inr cmp ↦
        by_body (add_completed job_id pdf b cmp) (λ path. add_locked h job_id path pdf now)
          (add_locked_refused h job_id f.path_of _ holder m pdf now dir_in_locked rep.metadata
            (rep.status ∙ cmp))
          (refl, unchanged)
  ]

  -- `record_failure` is `Batch.fail`: the failure is counted, and nothing else changes.
  pub record_failure-Answers :
      (now : Time) → Answers h path (Batch.fail b) (record_failure h job_id now s)
  unfolding record_failure
  record_failure-Answers now =
      by_body {x = Batch.fail b} refl (λ _. record_locked h job_id now)
        (record_locked_lem h job_id f.path_of _ holder m now dir_in_locked rep.metadata)
        (
          refl,
          rewritten holder (record m { failed_count = m.failed_count + 1; updated_at = some now })
              (record b { failed = b.failed + 1 }) rep.documents rep.status
              (ap (λ (n : ℕ). n + 1) rep.failed) rep.result,
        )

  abbrev merging : Text → Time → Action Text
  merging path now = complete_locked h job_id path now

  first_merge :
      (now : Time) {p : Outcome Text × Storage}
      → (is_completed b.status && is_some b.result) ≡ false
      → merge_locked h job_id path m now (locked job_id path d s) ≡ p
      → merging path now (locked job_id path d s) ≡ p
  first_merge now t e =
      complete_locked_first h job_id f.path_of _ holder m now dir_in_locked rep.metadata
        (rw (rep.status, rep.result) t)
      ∙ e

  -- `complete_job` is `Batch.complete`: a job that has its result is left as it is, an empty one is
  -- refused, and any other is merged from all its documents in the order they were added; where the
  -- merge fails its error is raised and the job stays as it was.
  pub complete_job-Answers :
      (now : Time)
      → Answers h path (Batch.complete (result_of path) h.merge b) (complete_job h job_id now s)
  unfolding complete_job
  complete_job-Answers now = elim (complete_cases (result_of path) h.merge b) [
    | again t e ↦
        by_body e (λ path. merging path now)
          (complete_locked_again h job_id f.path_of _ holder m now dir_in_locked rep.metadata
            (rw (rep.status, rep.result) t))
          (refl, unchanged)
    | without_documents t n e ↦
        by_body e (λ path. merging path now)
          (first_merge now t
            (merge_locked_empty h job_id f.path_of _ m now (sym length-documents ∙ n)))
          (refl, unchanged)
    | merge_done result t n g e ↦
        by_body e (λ path. merging path now)
          (first_merge now t (
            merge_locked_lem h job_id f.path_of _ holder m now dir_in_locked rep.documents g
              (λ z. n (length-documents ∙ z))))
          (
            refl,
            rewritten (record holder { result_pdf = some result })
                (record m { status = completed; completed_at = some now })
                (record b { status = completed; result = some result }) rep.documents refl
                rep.failed refl,
          )
    | failed_merge x t n g e ↦
        by_body e (λ path. merging path now)
          (first_merge now t (
            merge_locked_failed h job_id f.path_of _ holder m now dir_in_locked rep.documents g
              (λ z. n (length-documents ∙ z))))
          (refl, unchanged)
  ]
