-- ===== src/JobManager/Concurrent/Alone.antt =====
-- The operations of `JobManager` under the lock, as the accesses that the interleaving takes apart.
use bulk_processing_service.Base.{
  Bool-cases, Bytes, List, Option, Text, false, inl, inr, nat_eq, none, refl, some, sym, text_eq,
  true, ◌&&◌, ◌∷◌, ◌≡◌, ◌≢◌,
}
use bulk_processing_service.Base.Dict.{Dict}
use bulk_processing_service.JobManager.{
  add_locked, complete_locked, decode, is_completed, is_some, merge_locked, read_documents,
  record_locked, result_of,
}
use bulk_processing_service.JobManager.Batch.{Batch, Reply}
use bulk_processing_service.JobManager.Cases.{status_cases}
use bulk_processing_service.JobManager.Concurrent.{
  Access, Answer, Log, Place, Shelf, Work, adds, answered, begun, completes, count_failure, counted,
  drafting, has_merged, merge_fails, merged, read, records, refuse_document, refuse_empty, replace,
  stored, write_document, write_draft, write_result,
}
use bulk_processing_service.JobManager.Steps.{
  add_locked_lem, add_locked_refused, complete_locked_again, complete_locked_first,
  merge_locked_empty, merge_locked_failed, merge_locked_lem, record_locked_lem, with_metadata,
}
use bulk_processing_service.Models.{JobMetadata, Time, active, completed}
use bulk_processing_service.Paths.{Host, job_dir}
use bulk_processing_service.Storage.{
  JobDir, Outcome, Result, Storage, dir_at, err, ok, raises, returns, waits,
}
use bulk_processing_service.Storage.Laws.{dir_in-set_dir_self}
use mathlib.Core.Path.{subst}
use native.Mathlib.Decide.{ℕ_discrete}
use bulk_processing_service.JobManager.Batch
use bulk_processing_service.Base.Dict

module _ (h : Host) (job_id path : Text) where
  -- Accesses one after the other.
  pub data Accesses : Shelf → Place → Shelf → Place → Type 0 where
    finished : {s : Shelf} {l : Place} → Accesses s l s l
    onward :
        {s t u : Shelf} {l l' l'' : Place}
        → Access h job_id (result_of path) s l t l'
        → Accesses t l' u l''
        → Accesses s l u l''

  abbrev answer_by : {A : Type 0} → (Reply A → Answer) → Outcome A → Option Answer
  answer_by make (returns a) = some (make (Batch.done a))
  answer_by make (raises e) = some (make (Batch.refused e))
  answer_by make waits = none

  -- The answer of an operation under the lock, and the storage it leaves.
  abbrev pub operation : Work → Storage → Option Answer × Storage
  operation (adds pdf now) s =
      let (r, t) = add_locked h job_id path pdf now s in (answer_by stored r, t)
  operation (records now) s = let (r, t) = record_locked h job_id now s in (answer_by counted r, t)
  operation (completes now) s =
      let (r, t) = complete_locked h job_id path now s in (answer_by merged r, t)

  -- The operation ends with an answer and a directory, and so do accesses of its call.
  abbrev pub IsTaken : Work → JobDir → Log → Option Answer × Storage → Type 0
  IsTaken w d log (r, t) =
      (a : Answer) × (d' : JobDir) × (r ≡ some a)
      × (dir_at t path ≡ some d')
      × Accesses (record { dir = d; log = log }) (begun w) (record { dir = d'; log = (w, a) ∷ log })
          (answered (w, a))

  module _ (p : job_dir h job_id ≡ ok path) (s : Storage) (d : JobDir) (m : JobMetadata) (log : Log)
      (there : dir_at s path ≡ some d) (read_back : decode h d.metadata_json ≡ ok (some m)) where
    -- Accesses that write the metadata `m'` over `d'` at the end.
    written :
        {w : Work} {a : Answer} (d' : JobDir) {m' : JobMetadata}
        → Accesses
            (record { dir = d'; log = log })
            (drafting (w, a) m')
            (record { dir = with_metadata h d' m'; log = (w, a) ∷ log })
            (answered (w, a))
    written d' = onward write_draft (onward replace finished)

    add-IsTaken :
        (pdf : Bytes) (now : Time)
        → m.status ≡ active
        → IsTaken (adds pdf now) d log (operation (adds pdf now) s)
    add-IsTaken pdf now e =
        let d' : JobDir = record d { documents = Dict.put d.documents m.pdf_count pdf } in
        subst (λ q. IsTaken (adds pdf now) d log (answer_by stored q.0, q.1))
          (sym (add_locked_lem h job_id p s d m pdf now there read_back e))
          (
            stored (Batch.done m.pdf_count),
            _,
            refl,
            dir_in-set_dir_self s.nodes path _,
            onward (read read_back) (onward (write_document e) (written d')),
          )

    refuse-IsTaken :
        (pdf : Bytes) (now : Time)
        → m.status ≡ completed
        → IsTaken (adds pdf now) d log (operation (adds pdf now) s)
    refuse-IsTaken pdf now e =
        subst (λ q. IsTaken (adds pdf now) d log (answer_by stored q.0, q.1))
          (sym (add_locked_refused h job_id p s d m pdf now there read_back e))
          (_, d, refl, there, onward (read read_back) (onward (refuse_document e) finished))

    record-IsTaken : (now : Time) → IsTaken (records now) d log (operation (records now) s)
    record-IsTaken now =
        subst (λ q. IsTaken (records now) d log (answer_by counted q.0, q.1))
          (sym (record_locked_lem h job_id p s d m now there read_back))
          (
            counted (Batch.done tt),
            _,
            refl,
            dir_in-set_dir_self s.nodes path _,
            onward (read read_back) (onward count_failure (written d)),
          )

    again-IsTaken :
        (now : Time)
        → (is_completed m.status && is_some d.result_pdf) ≡ true
        → IsTaken (completes now) d log (operation (completes now) s)
    again-IsTaken now e =
        subst (λ q. IsTaken (completes now) d log (answer_by merged q.0, q.1))
          (sym (complete_locked_again h job_id p s d m now there read_back e))
          (_, d, refl, there, onward (read read_back) (onward (has_merged e) finished))

    first-IsTaken :
        (now : Time) {docs : List Bytes}
        → (is_completed m.status && is_some d.result_pdf) ≡ false
        → read_documents d.documents 0 m.pdf_count ≡ ok docs
        → IsTaken (completes now) d log (operation (completes now) s)
    first-IsTaken now {docs} e r =
        subst (λ q. IsTaken (completes now) d log (answer_by merged q.0, q.1))
          (sym (complete_locked_first h job_id p s d m now there read_back e))
          (elim (ℕ_discrete m.pdf_count 0) [
            | yes empty ↦ along (merge_locked_empty h job_id p s m now empty) (
              _,
              d,
              refl,
              there,
              onward (read read_back) (onward (refuse_empty e empty) finished),
            )
            | no some_added ↦ go some_added (h.merge docs) refl
          ])
      where
        along :
            {q q' : Outcome Text × Storage}
            → q ≡ q'
            → IsTaken (completes now) d log (answer_by merged q'.0, q'.1)
            → IsTaken (completes now) d log (answer_by merged q.0, q.1)
        along k = subst (λ q. IsTaken (completes now) d log (answer_by merged q.0, q.1)) (sym k)

        go :
            m.pdf_count ≢ 0
            → (o : Result Bytes) → h.merge docs ≡ o
            → let q = merge_locked h job_id path m now s in
              IsTaken (completes now) d log (answer_by merged q.0, q.1)
        go n (ok result) g =
            let d' : JobDir = record d { result_pdf = some result } in
            along (merge_locked_lem h job_id p s d m now there r g n) (
              merged (Batch.done (result_of path)),
              _,
              refl,
              dir_in-set_dir_self s.nodes path _,
              onward (read read_back) (onward (write_result e n r g) (written d')),
            )
        go n (err raised) g =
            along (merge_locked_failed h job_id p s d m now there r g n)
              (_, d, refl, there, onward (read read_back) (onward (merge_fails e n r g) finished))

    -- Under the lock of a job whose metadata and documents can be read, each operation ends with the
    -- answer and the directory that the accesses of its call, taken one after the other, end with.
    pub operation-IsTaken :
        {docs : List Bytes}
        → read_documents d.documents 0 m.pdf_count ≡ ok docs
        → (w : Work) → IsTaken w d log (operation w s)
    operation-IsTaken r (adds pdf now) = elim (status_cases m.status) [
      | inl open_job ↦ add-IsTaken pdf now open_job
      | inr shut ↦ refuse-IsTaken pdf now shut
    ]
    operation-IsTaken r (records now) = record-IsTaken now
    operation-IsTaken r (completes now) =
        elim (Bool-cases (is_completed m.status && is_some d.result_pdf)) [
          | inl old ↦ again-IsTaken now old
          | inr new ↦ first-IsTaken now new r
        ]
