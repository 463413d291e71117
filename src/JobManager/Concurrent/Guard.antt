-- ===== src/JobManager/Concurrent/Guard.antt =====
-- The property of the directory of a job that the bodies under its lock keep.
use bulk_processing_service.Base.{
  Text, ap, arith, false, nat_eq, none, refl, some, sym, text_eq, ℕ, ◌∙◌, ◌∷◌, ◌≡◌,
}
use bulk_processing_service.Base.Dict.{Dict}
use bulk_processing_service.JobManager.Batch.{Batch, IsLawful}
use bulk_processing_service.JobManager.Cases.{add_completed}
use bulk_processing_service.JobManager.Concurrent.{
  Access, Answer, Log, Place, Shelf, Work, adds, answered, begun, bodies, completes, count_failure,
  drafted, drafting, has_merged, knows, logged, merge_fails, merged, read, refuse_document,
  refuse_empty, replace, stored, write_document, write_draft, write_part, write_result,
  write_result_part,
}
use bulk_processing_service.JobManager.Concurrent.History.{
  IsLinear, next, replay, replay-IsWhole, reply,
}
use bulk_processing_service.JobManager.Concurrent.Mirrors.{
  Mirrors, add-reply, added-Mirrors, beyond-Mirrors, complete_again, complete_empty,
  complete_merges, counted-Mirrors, draft-Mirrors, merged-Mirrors, partial-Mirrors, result_missing,
  with_new,
}
use bulk_processing_service.Locks.Threads.{Reach, System, inside}
use bulk_processing_service.Locks.Threads.Guarded.{Guards, Reach-Guarded}
use bulk_processing_service.Models.{JobMetadata}
use bulk_processing_service.Paths.{Host}
use bulk_processing_service.Storage.{JobDir, err, ok}
use bulk_processing_service.Base.Dict
use mathlib.Core.Path.{subst}

module _ (h : Host) (law : IsLawful h) (job_id place : Text) where
  abbrev pub batch_of : Shelf → Batch
  batch_of s = replay h job_id place s.log

  abbrev pub IsConsistent : Shelf → Type 0
  IsConsistent s =
      IsLinear h job_id place s.log × ((m : JobMetadata) × Mirrors h s.dir m (batch_of s))

  -- The new metadata, once it is in place, shows the batch that the call makes.
  abbrev pub Prepared : Shelf → Work × Answer → JobMetadata → Type 0
  Prepared s (w, a) m =
      (a ≡ reply h job_id place w (batch_of s))
      × Mirrors h (with_new h s.dir m) m (next h job_id place w (batch_of s))

  abbrev pub Knows : Shelf → Place → Type 0
  Knows s (begun w) = Unit
  Knows s (knows w m) = Mirrors h s.dir m (batch_of s)
  Knows s (drafting e m) = Prepared s e m
  Knows s (drafted e m) = Prepared s e m × (s.dir.metadata_tmp ≡ some (h.dump m))
  Knows s (answered e) = (earlier : Log) × (s.log ≡ e ∷ earlier)

  abbrev pub Within : Shelf → Place → Type 0
  Within s l = IsConsistent s × Knows s l

  -- An answer that changes nothing.
  answer :
      (s : Shelf) (w : Work) {a : Answer} {m : JobMetadata}
      → IsConsistent s
      → Mirrors h s.dir m (batch_of s)
      → a ≡ reply h job_id place w (batch_of s)
      → next h job_id place w (batch_of s) ≡ batch_of s
      → Within (logged (w, a) s) (answered (w, a))
  unfolding replay IsLinear
  answer s w {m} (linear, _) shows e same =
      (((e, linear), (m, subst (λ b. Mirrors h s.dir m b) (sym same) shows)), (s.log, refl))

  -- A call of which the batch is known that it makes.
  prepare :
      (s : Shelf) (w : Work) {a : Answer} {m : JobMetadata} (d : JobDir) {b : Batch}
      → a ≡ reply h job_id place w (batch_of s)
      → next h job_id place w (batch_of s) ≡ b
      → Mirrors h (with_new h d m) m b
      → (a ≡ reply h job_id place w (batch_of s))
        × Mirrors h (with_new h d m) m (next h job_id place w (batch_of s))
  prepare s w {m} d e k shows = (e, subst (λ b. Mirrors h (with_new h d m) m b) (sym k) shows)

  -- The new metadata is put in place.
  take_effect :
      (s : Shelf) (w : Work) {a : Answer} {m : JobMetadata}
      → a ≡ reply h job_id place w (batch_of s)
      → IsLinear h job_id place s.log
      → Mirrors h (with_new h s.dir m) m (next h job_id place w (batch_of s))
      → s.dir.metadata_tmp ≡ some (h.dump m)
      → Within
          (record {
            dir = record s.dir { metadata_json = s.dir.metadata_tmp; metadata_tmp = none };
            log = (w, a) ∷ s.log;
          })
          (answered (w, a))
  unfolding replay IsLinear
  take_effect s w {m} k linear shows tmp = (
    (
      (k, linear),
      (
        m,
        subst
            (λ o.
              Mirrors h (record s.dir { metadata_json = o; metadata_tmp = none }) m
                (next h job_id place w (batch_of s)))
            (sym tmp) shows,
      ),
    ),
    (s.log, refl),
  )

  act-Within :
      {s s' : Shelf} {l l' : Place} → Access h job_id place s l s' l' → Within s l → Within s' l'
  act-Within {s} (read {m} e) ((linear, (m0, shows)), k) = (
    (linear, (m0, shows)),
    subst (λ n. Mirrors h s.dir n (batch_of s)) (ground (arith, shows.metadata)) shows,
  )
  act-Within {s} (refuse_document {pdf} e) (f, shows) =
      let k = add_completed job_id pdf (batch_of s) (sym shows.status ∙ e) in
      answer s _ f shows (ap (λ p. stored p.0) (sym k)) (ap (λ p. p.1) k)
  act-Within {s} (write_part {m} e part) ((linear, _), shows) = (
    (linear, (m, beyond-Mirrors h law job_id place shows part)),
    beyond-Mirrors h law job_id place shows part,
  )
  act-Within {s} (write_document {pdf} {now} {m} e) ((linear, _), shows) =
      let k = add-reply h law job_id place shows pdf e in
      (
        (linear, (m, beyond-Mirrors h law job_id place shows pdf)),
        prepare s (adds pdf now)
            (record s.dir { documents = Dict.put s.dir.documents m.pdf_count pdf })
            (ap (λ p. stored p.0) (sym k)) (ap (λ p. p.1) k)
            (added-Mirrors h law job_id place shows pdf now),
      )
  act-Within {s} (count_failure {now}) (f, shows) =
      (f, (refl, counted-Mirrors h law job_id place shows now))
  act-Within {s} (has_merged e) (f, shows) =
      let k = complete_again h law job_id place shows (replay-IsWhole h job_id place s.log) e in
      answer s _ f shows (ap (λ p. merged p.0) (sym k)) (ap (λ p. p.1) k)
  act-Within {s} (refuse_empty e n) (f, shows) =
      let k = complete_empty h law job_id place shows (replay-IsWhole h job_id place s.log) e n in
      answer s _ f shows (ap (λ p. merged p.0) (sym k)) (ap (λ p. p.1) k)
  act-Within {s} (merge_fails {raised} e n r g) (f, shows) =
      let k =
        complete_merges h law job_id place shows (replay-IsWhole h job_id place s.log) e n
          (err raised) r g in
      answer s _ f shows (ap (λ p. merged p.0) (sym k)) (ap (λ p. p.1) k)
  act-Within {s} (write_result_part {m} e n part) ((linear, _), shows) =
      let open_batch =
        result_missing h law job_id place shows (replay-IsWhole h job_id place s.log) e in
      let after = partial-Mirrors h law job_id place shows part open_batch in
      ((linear, (m, after)), after)
  act-Within {s} (write_result {now} {m} {result} e n r g) ((linear, _), shows) =
      let whole = replay-IsWhole h job_id place s.log in
      let k = complete_merges h law job_id place shows whole e n (ok result) r g in
      (
        (
          linear,
          (
            m,
            partial-Mirrors h law job_id place shows result
                (result_missing h law job_id place shows whole e),
          ),
        ),
        prepare s (completes now) (record s.dir { result_pdf = some result })
            (ap (λ p. merged p.0) (sym k)) (ap (λ p. p.1) k)
            (merged-Mirrors h law job_id place shows now result),
      )
  act-Within {s} (write_draft {e = (w, a)} {m = m'}) ((linear, (m, shows)), prepared) =
      ((linear, (m, draft-Mirrors h law job_id place shows (some (h.dump m')))), (prepared, refl))
  act-Within {s} (replace {e = (w, a)} {m}) ((linear, _), ((k, shows), tmp)) =
      take_effect s w k linear shows tmp

  guards : Guards (bodies h job_id place)
  guards = record {
    Holds = IsConsistent;
    Within = Within;
    enter = λ w f. (f, tt);
    acts = λ k a. act-Within a k;
    leave = λ k. k.0;
  }

  pub Reach-IsConsistent :
      {home : ℕ → ℕ} {n : ℕ} {d : Shelf} {s : System (bodies h job_id place)}
      → IsConsistent d
      → Reach home n d s
      → s.memory.deleting ≡ false
      → IsConsistent s.memory.shared
        × ((i g x : ℕ) (e : Work × Answer)
            → s.phase i ≡ inside g x (answered e)
            → (earlier : Log) × (s.memory.shared.log ≡ e ∷ earlier))
  unfolding guards
  Reach-IsConsistent first r kept =
      let all = Reach-Guarded guards first r in
      (all.holds kept, λ i g x e q. (all.within i g x (answered e) kept q).1)

  pub Reach-Within :
      {home : ℕ → ℕ} {n : ℕ} {d : Shelf} {s : System (bodies h job_id place)} {i g x : ℕ}
      {l : Place}
      → IsConsistent d
      → Reach home n d s
      → s.memory.deleting ≡ false
      → s.phase i ≡ inside g x l
      → Within s.memory.shared l
  unfolding guards
  Reach-Within {i} {g} {x} {l} first r kept q = (Reach-Guarded guards first r).within i g x l kept q
