-- ===== src/JobManager/Concurrent/History.antt =====
-- The calls of a log one after the other, as a batch answers them.
use bulk_processing_service.Base.{
  Bytes, List, Text, [], ap, arith, inl, inr, none, refl, some, sym, ◌++◌, ◌∙◌, ◌∷◌, ◌≡◌,
}
use bulk_processing_service.JobManager.Batch.{Batch, done}
use bulk_processing_service.JobManager.Cases.{
  add_active, add_completed, again, complete_cases, failed_merge, merge_done, status_cases,
  without_documents,
}
use bulk_processing_service.JobManager.Concurrent.{
  Answer, Log, Work, adds, completes, counted, merged, records, stored,
}
use bulk_processing_service.Models.{active, completed}
use bulk_processing_service.Paths.{Host}
use bulk_processing_service.Storage.{ok}
use mathlib.Core.Path.{subst}
use bulk_processing_service.JobManager.Batch

abbrev pub empty_batch : Batch
empty_batch = record { status = active; documents = []; failed = 0; result = none }

-- The documents whose adding was answered with an index, the first one first.
abbrev pub with_added : Work × Answer → List Bytes → List Bytes
with_added (adds pdf now, stored (done i)) docs = docs ++ pdf ∷ []
with_added _ docs = docs

unfoldable pub added : Log → List Bytes
added [] = []
added (e ∷ log) = with_added e (added log)

-- The answer of a batch to a call, and what the batch has become.
module _ (h : Host) (job_id place : Text) where
  abbrev pub reply : Work → Batch → Answer
  reply (adds pdf now) b = stored (Batch.add job_id pdf b).0
  reply (records now) b = counted (Batch.fail b).0
  reply (completes now) b = merged (Batch.complete place h.merge b).0

  abbrev pub next : Work → Batch → Batch
  next (adds pdf now) b = (Batch.add job_id pdf b).1
  next (records now) b = (Batch.fail b).1
  next (completes now) b = (Batch.complete place h.merge b).1

  -- The batch after all calls of a log.
  unfoldable pub replay : Log → Batch
  replay [] = empty_batch
  replay ((w, a) ∷ log) = next w (replay log)

  -- Every call was answered as the batch answers it that the calls before have made.
  unfoldable pub IsLinear : Log → Type 0
  IsLinear [] = Unit
  IsLinear ((w, a) ∷ log) = (a ≡ reply w (replay log)) × IsLinear log

  -- A completed batch has the merge of all its documents as its result.
  abbrev pub IsWhole : Batch → Type 0
  IsWhole b =
      b.status ≡ completed
      → (result : Bytes) × (b.result ≡ some result) × (h.merge b.documents ≡ ok result)

  next-IsWhole : (w : Work) (b : Batch) → IsWhole b → IsWhole (next w b)
  next-IsWhole (adds pdf now) b whole = elim (status_cases b.status) [
    | inl open_batch ↦
        subst (λ p. IsWhole p.1) (sym (add_active job_id pdf b open_batch))
          (λ e. absurd (ground arith))
    | inr shut ↦ subst (λ p. IsWhole p.1) (sym (add_completed job_id pdf b shut)) whole
  ]
  next-IsWhole (records now) b whole = whole
  next-IsWhole (completes now) b whole = elim (complete_cases place h.merge b) [
    | again t k ↦ subst (λ p. IsWhole p.1) (sym k) whole
    | without_documents t n k ↦ subst (λ p. IsWhole p.1) (sym k) whole
    | merge_done result t n g k ↦ subst (λ p. IsWhole p.1) (sym k) (λ e. (result, refl, g))
    | failed_merge x t n g k ↦ subst (λ p. IsWhole p.1) (sym k) whole
  ]

  pub replay-IsWhole : (log : Log) → IsWhole (replay log)
  unfolding replay
  replay-IsWhole [] e = absurd cc
  replay-IsWhole ((w, a) ∷ log) e = next-IsWhole w (replay log) (replay-IsWhole log) e

  complete-documents : (b : Batch) → (Batch.complete place h.merge b).1.documents ≡ b.documents
  complete-documents b = elim (complete_cases place h.merge b) [
    | again t k ↦ rw k refl
    | without_documents t n k ↦ rw k refl
    | merge_done result t n g k ↦ rw k refl
    | failed_merge x t n g k ↦ rw k refl
  ]

  pub documents-replay : (log : Log) → IsLinear log → (replay log).documents ≡ added log
  unfolding replay IsLinear added
  documents-replay [] linear = refl
  documents-replay ((adds pdf now, a) ∷ log) (e, linear) =
      let rest = documents-replay log linear in
      elim (status_cases (replay log).status) [
        | inl open_batch ↦
            let k = add_active job_id pdf (replay log) open_batch in
            ap (λ p. p.1.documents) k
            ∙ ap (λ docs. docs ++ pdf ∷ []) rest
            ∙ ap (λ r. with_added (adds pdf now, r) (added log))
                (ap (λ p. stored p.0) (sym k) ∙ sym e)
        | inr shut ↦
            let k = add_completed job_id pdf (replay log) shut in
            ap (λ p. p.1.documents) k
            ∙ rest
            ∙ ap (λ r. with_added (adds pdf now, r) (added log))
                (ap (λ p. stored p.0) (sym k) ∙ sym e)
      ]
  documents-replay ((records now, a) ∷ log) (e, linear) = documents-replay log linear
  documents-replay ((completes now, a) ∷ log) (e, linear) =
      complete-documents (replay log) ∙ documents-replay log linear
