-- ===== src/JobManager/Steps.antt =====
-- The parts of the operations under the lock, as equations: what each returns and leaves behind in
-- the directory of the job.
use bulk_processing_service.Base.{
  Bytes, List, Text, arith, false, nat_eq, none, some, text_eq, true, ◌&&◌, ◌+◌, ◌≡◌, ◌≢◌,
}
use bulk_processing_service.Base.Dict.{Dict}
use bulk_processing_service.JobManager.{
  add_locked, complete_locked, decode, has_result, is_completed, is_some, merge_documents,
  merge_locked, metadata_at, read_documents, read_metadata, record_locked, result_of,
  write_metadata,
}
use bulk_processing_service.Models.{JobMetadata, Time, active, completed}
use bulk_processing_service.Paths.{Host, job_dir, no_documents, not_active}
use bulk_processing_service.Storage.{
  Error, JobDir, Storage, dir_at, err, ok, raises, returns, set_dir, value_error,
}
use bulk_processing_service.Storage.Laws.{dir_in-set_dir_self, set_dir-set_dir}
use bulk_processing_service.Base.Dict

-- The directory with new metadata.
abbrev pub with_metadata : Host → JobDir → JobMetadata → JobDir
with_metadata h d m = record d { metadata_json = some (h.dump m); metadata_tmp = none }

abbrev pub in_dir : Storage → Text → JobDir → Storage
in_dir s path d = record s { nodes = set_dir s.nodes path d }

module _ (h : Host) (job_id : Text) {path : Text} (p : job_dir h job_id ≡ ok path) where
  pub write_metadata_lem :
      (s : Storage) (d : JobDir) (m : JobMetadata)
      → dir_at s path ≡ some d
      → write_metadata h job_id m s ≡ (returns tt, in_dir s path (with_metadata h d m))
  unfolding write_metadata
  write_metadata_lem s d m e = ground (
    arith,
    dir_in-set_dir_self s.nodes path (record d { metadata_tmp = some (h.dump m) }),
    set_dir-set_dir s.nodes path (record d { metadata_tmp = some (h.dump m) })
        (with_metadata h d m),
  )

  pub read_metadata_lem :
      (s : Storage) (d : JobDir) {m : JobMetadata}
      → dir_at s path ≡ some d
      → decode h d.metadata_json ≡ ok (some m)
      → read_metadata h job_id s ≡ (returns (some m), s)
  unfolding read_metadata metadata_at
  read_metadata_lem s d e f = ground arith

  -- A document is written under the next number, and counted.
  pub add_locked_lem :
      (s : Storage) (d : JobDir) (m : JobMetadata) (pdf : Bytes) (now : Time)
      → dir_at s path ≡ some d
      → decode h d.metadata_json ≡ ok (some m)
      → m.status ≡ active
      → let d' : JobDir = record d { documents = Dict.put d.documents m.pdf_count pdf } in
        add_locked h job_id path pdf now s ≡ (
          returns m.pdf_count,
          in_dir s path (
              with_metadata h d' (record m { pdf_count = m.pdf_count + 1; updated_at = some now })),
        )
  unfolding add_locked
  add_locked_lem s d m pdf now e f a =
      let d' : JobDir = record d { documents = Dict.put d.documents m.pdf_count pdf } in
      ground (
        arith,
        read_metadata_lem s d {m = m} e f,
        write_metadata_lem (in_dir s path d') d'
            (record m { pdf_count = m.pdf_count + 1; updated_at = some now })
            (dir_in-set_dir_self s.nodes path d'),
        set_dir-set_dir s.nodes path d'
            (with_metadata h d' (record m { pdf_count = m.pdf_count + 1; updated_at = some now })),
      )

  pub add_locked_refused :
      (s : Storage) (d : JobDir) (m : JobMetadata) (pdf : Bytes) (now : Time)
      → dir_at s path ≡ some d
      → decode h d.metadata_json ≡ ok (some m)
      → m.status ≡ completed
      → add_locked h job_id path pdf now s ≡ (raises (value_error (not_active job_id)), s)
  unfolding add_locked
  add_locked_refused s d m pdf now e f c = ground (arith, read_metadata_lem s d {m = m} e f)

  pub record_locked_lem :
      (s : Storage) (d : JobDir) (m : JobMetadata) (now : Time)
      → dir_at s path ≡ some d
      → decode h d.metadata_json ≡ ok (some m)
      → record_locked h job_id now s ≡ (
        returns tt,
        in_dir s path (
            with_metadata h d
              (record m { failed_count = m.failed_count + 1; updated_at = some now })),
      )
  unfolding record_locked
  record_locked_lem s d m now e f = ground (
    arith,
    read_metadata_lem s d {m = m} e f,
    write_metadata_lem s d (record m { failed_count = m.failed_count + 1; updated_at = some now })
        e,
  )

  -- The documents are merged in their order, and the job is completed.
  pub merge_locked_lem :
      (s : Storage) (d : JobDir) (m : JobMetadata) (now : Time) {docs : List Bytes} {merged : Bytes}
      → dir_at s path ≡ some d
      → read_documents d.documents 0 m.pdf_count ≡ ok docs
      → h.merge docs ≡ ok merged
      → m.pdf_count ≢ 0
      → merge_locked h job_id path m now s ≡ (
        returns (result_of path),
        in_dir s path (
            with_metadata h
              (record d { result_pdf = some merged })
              (record m { status = completed; completed_at = some now })),
      )
  unfolding merge_locked merge_documents
  merge_locked_lem s d m now {merged} e r g n =
      let d' : JobDir = record d { result_pdf = some merged } in
      let m' : JobMetadata = record m { status = completed; completed_at = some now } in
      ground (
        arith,
        write_metadata_lem (in_dir s path d') d' m' (dir_in-set_dir_self s.nodes path d'),
        set_dir-set_dir s.nodes path d' (with_metadata h d' m'),
      )

  pub merge_locked_failed :
      (s : Storage) (d : JobDir) (m : JobMetadata) (now : Time) {docs : List Bytes} {err_m : Error}
      → dir_at s path ≡ some d
      → read_documents d.documents 0 m.pdf_count ≡ ok docs
      → h.merge docs ≡ err err_m
      → m.pdf_count ≢ 0
      → merge_locked h job_id path m now s ≡ (raises err_m, s)
  unfolding merge_locked merge_documents
  merge_locked_failed s d m now e r g n = ground arith

  pub merge_locked_empty :
      (s : Storage) (m : JobMetadata) (now : Time)
      → m.pdf_count ≡ 0
      → merge_locked h job_id path m now s ≡ (raises (value_error no_documents), s)
  unfolding merge_locked
  merge_locked_empty s m now n = ground arith

  -- A completed job with a result is not merged again.
  pub complete_locked_again :
      (s : Storage) (d : JobDir) (m : JobMetadata) (now : Time)
      → dir_at s path ≡ some d
      → decode h d.metadata_json ≡ ok (some m)
      → (is_completed m.status && is_some d.result_pdf) ≡ true
      → complete_locked h job_id path now s ≡ (returns (result_of path), s)
  unfolding complete_locked has_result
  complete_locked_again s d m now e f c = ground (arith, read_metadata_lem s d {m = m} e f)

  pub complete_locked_first :
      (s : Storage) (d : JobDir) (m : JobMetadata) (now : Time)
      → dir_at s path ≡ some d
      → decode h d.metadata_json ≡ ok (some m)
      → (is_completed m.status && is_some d.result_pdf) ≡ false
      → complete_locked h job_id path now s ≡ merge_locked h job_id path m now s
  unfolding complete_locked has_result
  complete_locked_first s d m now e f c = ground (arith, read_metadata_lem s d {m = m} e f)
