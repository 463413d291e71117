-- ===== src/JobManager.antt =====
-- app/job_manager.py: the operations of `JobManager`. Logging is left out, and so is the `.stat()`
-- that only the log reads. `now` is what `datetime.now(UTC)` returns, `fresh` what
-- `uuid.uuid4().hex` does. A path that the source computes again is computed once.
pub mod Batch
pub mod Documents
pub mod Steps
pub mod Cases
pub mod Refinement
pub mod Calls
pub mod Frame
pub mod Concurrent
use bulk_processing_service.Base.{
  Bool, Bytes, List, Option, Text, [], codes, contains, eqb, false, if◌then◌else◌, nat_eq, none,
  some, suc, text_eq, true, zero, ℕ, ◌&&◌, ◌++◌, ◌+◌, ◌∷◌,
}
use bulk_processing_service.Base.Dict.{Dict}
use bulk_processing_service.Locks.{job_lock}
use bulk_processing_service.Models.{
  JobMetadata, JobStatus, MergeJobStartParams, Time, active, completed,
}
use bulk_processing_service.Paths.{
  Host, is_valid_job_id, job_dir, no_documents, not_active, not_found, sep, strip_prefix,
}
use bulk_processing_service.Storage.{
  Action, Error, JobDir, Node, None, Result, Storage, dir_at, directory, err, exists, file,
  find_dir, key_error, lift, make_dir, ok, or_raise, os_error, pure, raise_if, raises, remove_tree,
  returns, value_error, write_dir, ◌>>=◌, ◌>>◌,
}
use bulk_processing_service.Base.Dict

abbrev pub require_exists : Text → Error → Action None
require_exists path e s = (if exists s.nodes path then returns tt else raises e, s)

-- The path of the result of a job.
abbrev pub result_of : Text → Text
result_of path = path ++ codes "/result.pdf"

-- `read_bytes` of `n` documents, from number `i` on.
unfoldable pub read_documents : Dict ℕ Bytes → ℕ → ℕ → Result (List Bytes)
read_documents docs i zero = ok []
read_documents docs i (suc n) =
    let rest = read_documents docs (suc i) n in
    elim (Dict.get docs i) [
      | none ↦ err os_error
      | some data_i ↦ elim rest [ ok others ↦ ok (data_i ∷ others) | err e ↦ err e ]
    ]

abbrev pub is_completed : JobStatus → Bool
is_completed completed = true
is_completed active = false

abbrev pub is_some {ℓ} : {A : Type ℓ} → Option A → Bool
is_some (some a) = true
is_some none = false

unfoldable pub has_result : Text → Storage → Bool
has_result path s = elim (dir_at s path) [ some d ↦ is_some d.result_pdf | none ↦ false ]

-- `debug_path.mkdir(exist_ok=True)` in the directory of a job
abbrev pub make_debug : JobDir → JobDir
make_debug d = record d { debug = elim d.debug [ some files ↦ some files | none ↦ some [] ] }

-- `if job_dir.exists(): shutil.rmtree(job_dir)`
unfoldable pub remove_existing : Text → Action None
remove_existing path s = elim (exists s.nodes path) [
  | true ↦ remove_tree path s
  | false ↦ (returns tt, s)
]

unfoldable pub drop_lock : Text → Action None
drop_lock job_id s = (returns tt, record s { thread_locks = Dict.remove s.thread_locks job_id })

-- The names of the directories among the entries of the storage directory.
unfoldable pub directory_names : Text → Dict Text Node → List Text
directory_names base [] = []
directory_names base ((path, node) ∷ nodes) =
    let others = directory_names base nodes in
    elim (strip_prefix (base ++ sep) path) [
      | none ↦ others
      | some name ↦ elim node [
        | directory d ↦ if contains name b'/' then others else name ∷ others
        | file ↦ others
      ]
    ]

module _ (h : Host) where
  abbrev pub decode : Option Bytes → Result (Option JobMetadata)
  decode none = ok none
  decode (some content) = elim (h.load content) [ ok m ↦ ok (some m) | err e ↦ err e ]

  -- The metadata in the directory at a path, where it has any.
  unfoldable pub metadata_at : Storage → Text → Result (Option JobMetadata)
  metadata_at s path = elim (dir_at s path) [ some d ↦ decode d.metadata_json | none ↦ ok none ]

  abbrev pub load_metadata : Text → Action (Option JobMetadata)
  load_metadata path s = lift (metadata_at s path) s

  -- `_read_metadata`
  unfoldable pub read_metadata : Text → Action (Option JobMetadata)
  read_metadata job_id = do path ← lift (job_dir h job_id); load_metadata path

  -- `_write_metadata`: the temporary file is written, and then put in place.
  unfoldable pub write_metadata : Text → JobMetadata → Action None
  write_metadata job_id metadata = do
    path ← lift (job_dir h job_id)
    d ← find_dir path
    write_dir path (record d { metadata_tmp = some (h.dump metadata) })
    d' ← find_dir path
    write_dir path (record d' { metadata_json = d'.metadata_tmp; metadata_tmp = none })

  -- `create_job`
  unfoldable pub create_job : MergeJobStartParams → Option Text → Text → Time → Action Text
  create_job params initiator_hash fresh now = do
    path ← lift (job_dir h fresh)
    make_dir path
    write_metadata fresh (record {
      job_id = fresh;
      status = active;
      created_at = now;
      updated_at = none;
      completed_at = none;
      params = params;
      initiator_hash = initiator_hash;
      pdf_count = 0;
      failed_count = 0;
    })
    pure fresh

  -- `get_job_metadata`
  unfoldable pub get_job_metadata : Text → Action (Option JobMetadata)
  get_job_metadata = read_metadata

  -- The part of `add_pdf` under the lock.
  unfoldable pub add_locked : Text → Text → Bytes → Time → Action ℕ
  add_locked job_id path pdf_data now = do
    found ← read_metadata job_id
    metadata ← or_raise found (key_error (not_found job_id))
    raise_if (is_completed metadata.status) (value_error (not_active job_id))
    d ← find_dir path
    write_dir path (record d { documents = Dict.put d.documents metadata.pdf_count pdf_data })
    write_metadata job_id
        (record metadata { pdf_count = metadata.pdf_count + 1; updated_at = some now })
    pure metadata.pdf_count

  -- `add_pdf`
  unfoldable pub add_pdf : Text → Bytes → Time → Action ℕ
  add_pdf job_id pdf_data now = do
    path ← lift (job_dir h job_id)
    require_exists path (key_error (not_found job_id))
    job_lock h job_id (add_locked job_id path pdf_data now)

  unfoldable pub record_locked : Text → Time → Action None
  record_locked job_id now = do
    found ← read_metadata job_id
    metadata ← or_raise found (key_error (not_found job_id))
    write_metadata job_id
        (record metadata { failed_count = metadata.failed_count + 1; updated_at = some now })

  -- `record_failure`
  unfoldable pub record_failure : Text → Time → Action None
  record_failure job_id now = do
    path ← lift (job_dir h job_id)
    require_exists path (key_error (not_found job_id))
    job_lock h job_id (record_locked job_id now)

  -- `merge_pdf_files(pdf_paths, result_path)`: the documents are read, merged and written.
  unfoldable pub merge_documents : Text → ℕ → Action None
  merge_documents path n = do
    d ← find_dir path
    pdfs ← lift (read_documents d.documents 0 n)
    merged ← lift (h.merge pdfs)
    write_dir path (record d { result_pdf = some merged })

  -- The merge, where there is no result to return yet.
  unfoldable pub merge_locked : Text → Text → JobMetadata → Time → Action Text
  merge_locked job_id path metadata now = do
    raise_if (eqb metadata.pdf_count 0) (value_error no_documents)
    merge_documents path metadata.pdf_count
    write_metadata job_id (record metadata { status = completed; completed_at = some now })
    pure (result_of path)

  unfoldable pub complete_locked : Text → Text → Time → Action Text
  complete_locked job_id path now = do
    found ← read_metadata job_id
    metadata ← or_raise found (key_error (not_found job_id))
    λ s. elim (is_completed metadata.status && has_result path s) [
      | true ↦ (returns (result_of path), s)
      | false ↦ merge_locked job_id path metadata now s
    ]

  -- `complete_job`
  unfoldable pub complete_job : Text → Time → Action Text
  complete_job job_id now = do
    path ← lift (job_dir h job_id)
    require_exists path (key_error (not_found job_id))
    job_lock h job_id (complete_locked job_id path now)

  -- `get_result_path`
  unfoldable pub get_result_path : Text → Action (Option Text)
  get_result_path job_id = do
    path ← lift (job_dir h job_id)
    λ s. (returns (if has_result path s then some (result_of path) else none), s)

  -- The part of `get_debug_dir` where `DEBUG_DIR` is set.
  unfoldable pub make_debug_dir : Text → Action (Option Text)
  make_debug_dir job_id = do
    path ← lift (job_dir h job_id)
    d ← find_dir path
    write_dir path (make_debug d)
    pure (some path)

  -- `get_debug_dir`: the path of the job, whose `debug` directory it makes.
  unfoldable pub get_debug_dir : Text → Action (Option Text)
  get_debug_dir job_id s = elim h.debug_dir [
    | false ↦ (returns none, s)
    | true ↦ make_debug_dir job_id s
  ]

  -- `delete_job`
  unfoldable pub delete_job : Text → Action None
  delete_job job_id = do path ← lift (job_dir h job_id); remove_existing path; drop_lock job_id

  -- The loop of `list_jobs`.
  unfoldable pub list_names : List Text → Action (List JobMetadata)
  list_names [] = pure []
  list_names (name ∷ names) =
      let others = list_names names in
      elim (is_valid_job_id name) [
        | false ↦ others
        | true ↦ do
          found ← read_metadata name
          jobs ← others
          pure (elim found [ some m ↦ m ∷ jobs | none ↦ jobs ])
      ]

  -- `list_jobs`
  unfoldable pub list_jobs : Action (List JobMetadata)
  list_jobs s =
      if s.root
      then list_names (directory_names (h.realpath h.storage_dir) s.nodes ++ s.links) s
      else (returns [], s)
