-- ===== src/JobManager/Concurrent/Answering.antt =====
-- How far a body is from its answer.
use bulk_processing_service.Base.{
  Bool-cases, Bytes, Text, arith, false, inl, inr, refl, ℕ, ◌&&◌, ◌<◌, ◌≡◌, ◌≢◌, ◌≤◌, ◌⊎◌,
}
use bulk_processing_service.JobManager.{is_completed, is_some}
use bulk_processing_service.JobManager.Batch.{Batch}
use bulk_processing_service.JobManager.Cases.{status_cases}
use bulk_processing_service.JobManager.Concurrent.{
  Access, Answer, Place, Shelf, Work, adds, answered, begun, bodies, completes, count_failure,
  drafted, drafting, has_merged, knows, merge_fails, new_shelf, read, records, refuse_document,
  refuse_empty, replace, write_document, write_draft, write_result,
}
use bulk_processing_service.JobManager.Concurrent.Guard.{Reach-Within, Within}
use bulk_processing_service.JobManager.Concurrent.Linear.{new-IsConsistent}
use bulk_processing_service.JobManager.Concurrent.Mirrors.{Mirrors}
use bulk_processing_service.Locks.Threads.{Reach, System, inside}
use bulk_processing_service.Models.{JobMetadata, Time, active}
use bulk_processing_service.Paths.{Host}
use bulk_processing_service.JobManager.Batch.{IsLawful}
use bulk_processing_service.Storage.{Result, err, ok}
use native.Mathlib.Decide.{ℕ_discrete}

-- How many accesses a body has before it at most, not counting the parts of a file.
abbrev pub accesses_left : Place → ℕ
accesses_left (begun w) = 4
accesses_left (knows w m) = 3
accesses_left (drafting e m) = 2
accesses_left (drafted e m) = 1
accesses_left (answered e) = 0

-- An access that brings a body closer to its answer.
abbrev pub Closer : Host → Text → Text → Shelf → Place → Type 0
Closer h job_id place s l =
    (s' : Shelf) × (l' : Place) × Access h job_id place s l s' l'
    × (accesses_left l' < accesses_left l)

module _ {h : Host} (law : IsLawful h) {job_id place : Text} where
  merge_next :
      (s : Shelf) {m : JobMetadata} {b : Batch}
      → Mirrors h s.dir m b
      → (now : Time) → (is_completed m.status && is_some s.dir.result_pdf) ≡ false
      → m.pdf_count ≢ 0
      → Closer h job_id place s (knows (completes now) m)
  merge_next s {m} {b} shows now new n = go (h.merge b.documents) refl
    where
      go :
          (o : Result Bytes)
          → h.merge b.documents ≡ o
          → Closer h job_id place s (knows (completes now) m)
      go (ok result) g = (_, _, write_result new n shows.documents g, omega arith)
      go (err raised) g = (_, _, merge_fails new n shows.documents g, omega arith)

  complete_next :
      (s : Shelf) {m : JobMetadata} {b : Batch}
      → Mirrors h s.dir m b
      → (now : Time) → Closer h job_id place s (knows (completes now) m)
  complete_next s {m} shows now =
      elim (Bool-cases (is_completed m.status && is_some s.dir.result_pdf)) [
        | inl old ↦ (_, _, has_merged old, omega arith)
        | inr new ↦ elim (ℕ_discrete m.pdf_count 0) [
          | yes empty ↦ (_, _, refuse_empty new empty, omega arith)
          | no some_added ↦ merge_next s shows now new some_added
        ]
      ]

  add_next :
      (s : Shelf) (m : JobMetadata) (pdf : Bytes) (now : Time)
      → Closer h job_id place s (knows (adds pdf now) m)
  add_next s m pdf now = elim (status_cases m.status) [
    | inl open_job ↦ (_, _, write_document open_job, omega arith)
    | inr shut ↦ (_, _, refuse_document shut, omega arith)
  ]

  next_access :
      (s : Shelf) (l : Place)
      → Within h law job_id place s l
      → ((e : Work × Answer) × (l ≡ answered e)) ⊎ Closer h job_id place s l
  next_access s (begun w) ((linear, (m, shows)), k) = inr (_, _, read shows.metadata, omega arith)
  next_access s (knows (adds pdf now) m) k = inr (add_next s m pdf now)
  next_access s (knows (records now) m) k = inr (_, _, count_failure, omega arith)
  next_access s (knows (completes now) m) (f, shows) = inr (complete_next s shows now)
  next_access s (drafting e m) k = inr (_, _, write_draft, omega arith)
  next_access s (drafted e m) k = inr (_, _, replace, omega arith)
  next_access s (answered e) k = inl (e, refl)

  module _ {home : ℕ → ℕ} {n : ℕ} (m : JobMetadata)
      (fresh : (m.status ≡ active) × ((m.pdf_count ≡ 0) × (m.failed_count ≡ 0)))
      {s : System (bodies h job_id place)} (r : Reach home n (new_shelf h m) s)
      (kept : s.memory.deleting ≡ false) where
    -- With a codec that reads back what it wrote, for a job that was new, and as long as nothing is
    -- deleted: in every reachable state, a thread in the body has its answer, or there is an access
    -- that it can do next and that brings it closer to its answer, of which it is never more than
    -- four accesses away.
    pub body_answers :
        {i g x : ℕ} {l : Place}
        → s.phase i ≡ inside g x l
        → (accesses_left l ≤ 4)
          × (((e : Work × Answer) × (l ≡ answered e)) ⊎ Closer h job_id place s.memory.shared l)
    body_answers {l} q = (
      ground arith,
      next_access s.memory.shared l
          (Reach-Within h law job_id place (new-IsConsistent law m fresh r kept) r kept q),
    )
