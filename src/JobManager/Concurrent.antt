-- ===== src/JobManager/Concurrent.antt =====
-- app/job_manager.py: what `add_pdf`, `record_failure` and `complete_job` do under the lock of a job,
-- a file access at a time, for the interleaving of `Locks.Threads`. `log` is no data of the
-- program: it keeps the calls with their answers, the latest first, each from the access on by
-- which it took effect. A body may also end between any two accesses, by an exception.
pub mod History
pub mod Mirrors
pub mod Guard
pub mod Linear
pub mod Alone
pub mod Answering
use bulk_processing_service.Base.{
  Bytes, List, Text, [], false, nat_eq, none, some, text_eq, true, ℕ, ◌&&◌, ◌+◌, ◌∷◌, ◌≡◌, ◌≢◌,
}
use bulk_processing_service.Base.Dict.{Dict}
use bulk_processing_service.JobManager.{decode, is_completed, is_some, read_documents}
use bulk_processing_service.JobManager.Batch.{Reply, done, refused}
use bulk_processing_service.JobManager.Calls.{debug}
use bulk_processing_service.Locks.{lock_file}
use bulk_processing_service.Locks.Threads.{Body}
use bulk_processing_service.Models.{JobMetadata, Time, active, completed}
use bulk_processing_service.Paths.{Host, no_documents, not_active}
use bulk_processing_service.Storage.{Error, JobDir, None, err, ok, value_error}
use bulk_processing_service.Base.Dict

-- The calls; `now` is what `datetime.now(UTC)` returns in them.
pub data Work : Type 0 where
  adds : (pdf : Bytes) (now : Time) → Work
  records completes : (now : Time) → Work

pub data Answer : Type 0 where
  stored : Reply ℕ → Answer
  counted : Reply None → Answer
  merged : Reply Text → Answer

abbrev pub Log : Type 0
Log = List (Work × Answer)

pub record Shelf : Type 0 where
  pub dir : JobDir
  pub log : Log

-- Where a body stands.
pub data Place : Type 0 where
  begun : Work → Place  -- before `_read_metadata`
  knows : Work → JobMetadata → Place
  drafting : Work × Answer → JobMetadata → Place  -- before `_write_metadata`
  drafted : Work × Answer → JobMetadata → Place  -- with the temporary file written
  answered : Work × Answer → Place

-- A call takes effect.
abbrev pub logged : Work × Answer → Shelf → Shelf
logged e s = record s { log = e ∷ s.log }

module _ (h : Host) (job_id place : Text) where
  pub data Access (s : Shelf) : Place → Shelf → Place → Type 0 where
    read :
        {w : Work} {m : JobMetadata}
        → decode h s.dir.metadata_json ≡ ok (some m)
        → Access s (begun w) s (knows w m)
    refuse_document :
        {pdf : Bytes} {now : Time} {m : JobMetadata}
        → m.status ≡ completed
        → Access s
            (knows (adds pdf now) m)
            (logged (adds pdf now, stored (refused (value_error (not_active job_id)))) s)
            (answered (adds pdf now, stored (refused (value_error (not_active job_id)))))
    -- A part of the document, or anything else, may be what is written so far.
    write_part :
        {pdf : Bytes} {now : Time} {m : JobMetadata}
        → m.status ≡ active
        → (part : Bytes)
        → Access s
            (knows (adds pdf now) m)
            (record s {
              dir = record s.dir { documents = Dict.put s.dir.documents m.pdf_count part };
            })
            (knows (adds pdf now) m)
    write_document :
        {pdf : Bytes} {now : Time} {m : JobMetadata}
        → m.status ≡ active
        → Access s
            (knows (adds pdf now) m)
            (record s {
              dir = record s.dir { documents = Dict.put s.dir.documents m.pdf_count pdf };
            })
            (drafting
              (adds pdf now, stored (done m.pdf_count))
              (record m { pdf_count = m.pdf_count + 1; updated_at = some now }))
    count_failure :
        {now : Time} {m : JobMetadata}
        → Access s (knows (records now) m) s (
            drafting
              (records now, counted (done tt))
              (record m { failed_count = m.failed_count + 1; updated_at = some now }))
    has_merged :
        {now : Time} {m : JobMetadata}
        → (is_completed m.status && is_some s.dir.result_pdf) ≡ true
        → Access s
            (knows (completes now) m)
            (logged (completes now, merged (done place)) s)
            (answered (completes now, merged (done place)))
    refuse_empty :
        {now : Time} {m : JobMetadata}
        → (is_completed m.status && is_some s.dir.result_pdf) ≡ false
        → m.pdf_count ≡ 0
        → Access s
            (knows (completes now) m)
            (logged (completes now, merged (refused (value_error no_documents))) s)
            (answered (completes now, merged (refused (value_error no_documents))))
    merge_fails :
        {now : Time} {m : JobMetadata} {docs : List Bytes} {raised : Error}
        → (is_completed m.status && is_some s.dir.result_pdf) ≡ false
        → m.pdf_count ≢ 0
        → read_documents s.dir.documents 0 m.pdf_count ≡ ok docs
        → h.merge docs ≡ err raised
        → Access s
            (knows (completes now) m)
            (logged (completes now, merged (refused raised)) s)
            (answered (completes now, merged (refused raised)))
    -- Of the result, too, a part may be there.
    write_result_part :
        {now : Time} {m : JobMetadata}
        → (is_completed m.status && is_some s.dir.result_pdf) ≡ false
        → m.pdf_count ≢ 0
        → (part : Bytes)
        → Access s
            (knows (completes now) m)
            (record s { dir = record s.dir { result_pdf = some part } })
            (knows (completes now) m)
    write_result :
        {now : Time} {m : JobMetadata} {docs : List Bytes} {result : Bytes}
        → (is_completed m.status && is_some s.dir.result_pdf) ≡ false
        → m.pdf_count ≢ 0
        → read_documents s.dir.documents 0 m.pdf_count ≡ ok docs
        → h.merge docs ≡ ok result
        → Access s
            (knows (completes now) m)
            (record s { dir = record s.dir { result_pdf = some result } })
            (drafting
              (completes now, merged (done place))
              (record m { status = completed; completed_at = some now }))
    write_draft :
        {e : Work × Answer} {m : JobMetadata}
        → Access s
            (drafting e m)
            (record s { dir = record s.dir { metadata_tmp = some (h.dump m) } })
            (drafted e m)
    -- The temporary file is put in place, and the call takes effect.
    replace :
        {e : Work × Answer} {m : JobMetadata}
        → Access s
            (drafted e m)
            (record {
              dir = record s.dir { metadata_json = s.dir.metadata_tmp; metadata_tmp = none };
              log = e ∷ s.log;
            })
            (answered e)

  abbrev pub bodies : Body
  bodies = record { Work = Work; Local = Place; Shared = Shelf; begin = begun; Act = Access }

-- The shelf of a job that was just created with its metadata.
abbrev pub new_shelf : Host → JobMetadata → Shelf
new_shelf h m = record {
  dir = record {
    metadata_json = some (h.dump m);
    metadata_tmp = none;
    documents = [];
    result_pdf = none;
    lock_file = false;
    debug = none;
  };
  log = [];
}
