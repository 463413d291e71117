-- ===== src/JobManager/Concurrent/Linear.antt =====
-- The calls for a job from any number of threads and replicas, in any order of their accesses.
use bulk_processing_service.Base.{Bytes, Text, ap, arith, false, refl, some, sym, ℕ, ◌∙◌, ◌∷◌, ◌≡◌}
use bulk_processing_service.JobManager.{decode, read_documents}
use bulk_processing_service.JobManager.Batch.{IsLawful}
use bulk_processing_service.JobManager.Concurrent.{Answer, Log, Work, answered, bodies, new_shelf}
use bulk_processing_service.JobManager.Concurrent.Guard.{IsConsistent, Reach-IsConsistent}
use bulk_processing_service.JobManager.Concurrent.History.{
  IsLinear, added, documents-replay, replay, replay-IsWhole,
}
use bulk_processing_service.Locks.Threads.{Reach, System, inside}
use bulk_processing_service.Models.{JobMetadata, active, completed}
use bulk_processing_service.Paths.{Host}
use bulk_processing_service.Storage.{ok}

module _ {h : Host} (law : IsLawful h) {job_id place : Text} {home : ℕ → ℕ} {n : ℕ}
    (m : JobMetadata) (fresh : (m.status ≡ active) × ((m.pdf_count ≡ 0) × (m.failed_count ≡ 0)))
    {s : System (bodies h job_id place)} (r : Reach home n (new_shelf h m) s)
    (kept : s.memory.deleting ≡ false) where
  pub new-IsConsistent : IsConsistent h law job_id place (new_shelf h m)
  unfolding replay IsLinear read_documents
  new-IsConsistent = (
    tt,
    (
      m,
      record {
        metadata = rw law.load-dump;
        documents = rw fresh.1.0 refl;
        status = fresh.0;
        failed = fresh.1.1;
        result = λ e. refl;
      },
    ),
  )

  -- With a codec that reads back what it wrote, for a job that was new, and as long as nothing is
  -- deleted: in every reachable state, every call in the log has the answer that a batch gives after
  -- the calls before it, and the directory shows the batch that they have made. This also holds
  -- while threads are in the middle of a call, or have left one by an exception. A thread that is
  -- about to leave the lock with an answer has its call in the log, as the latest one.
  pub calls-IsConsistent :
      IsConsistent h law job_id place s.memory.shared
      × ((i g x : ℕ) (e : Work × Answer)
          → s.phase i ≡ inside g x (answered e)
          → (earlier : Log) × (s.memory.shared.log ≡ e ∷ earlier))
  calls-IsConsistent = Reach-IsConsistent h law job_id place new-IsConsistent r kept

  -- With such a codec, for such a job, and as long as nothing is deleted: in every reachable state
  -- whose metadata calls the job completed, the result is the merge of exactly the documents whose
  -- adding was answered with an index, in the order of their indices.
  pub result-IsMerge :
      {m' : JobMetadata}
      → decode h s.memory.shared.dir.metadata_json ≡ ok (some m')
      → m'.status ≡ completed
      → (result : Bytes) × (s.memory.shared.dir.result_pdf ≡ some result)
        × (h.merge (added s.memory.shared.log) ≡ ok result)
  result-IsMerge {m'} e done_status =
      let ((linear, (m0, shows)), _) = calls-IsConsistent in
      let same : m0 ≡ m' = ground (arith, shows.metadata) in
      let shut = sym shows.status ∙ ap (λ (x : JobMetadata). x.status) same ∙ done_status in
      let (result, k, g) = replay-IsWhole h job_id place s.memory.shared.log shut in
      (
        result,
        shows.result shut ∙ k,
        ap h.merge (sym (documents-replay h job_id place s.memory.shared.log linear)) ∙ g,
      )
