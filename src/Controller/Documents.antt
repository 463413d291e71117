-- ===== src/Controller/Documents.antt =====
-- app/converter_controller.py, `_add_document`: the specification of the endpoints for documents, and
-- its parts behind the rendering.
use bulk_processing_service.Base.{
  Bool-cases, Bytes, Option, Text, [], arith, codes, false, if◌then◌else◌, inl, inr, none, refl,
  some, true, ℕ, ◌++◌, ◌+◌, ◌∷◌, ◌≡◌,
}
use bulk_processing_service.Base.Dict.{Dict}
use bulk_processing_service.Controller.{
  AddStatus, Answer, accept, accepted_document, after_add, after_failure, debug_name,
  failed_document, http_error, put_debug, reply, save_cover, save_debug_file, save_debug_files,
  write_debug,
}
use bulk_processing_service.JobManager.{get_debug_dir, is_completed, make_debug, make_debug_dir}
use bulk_processing_service.JobManager.Batch.{Answers, Batch, Holds, Reply, Represents}
use bulk_processing_service.JobManager.Steps.{in_dir}
use bulk_processing_service.Models.{AddDocumentRequest, JobMetadata}
use bulk_processing_service.Paths.{Host, job_dir, not_active}
use bulk_processing_service.Storage.{
  Action, JobDir, None, Outcome, Result, Storage, continue, dir_at, err, ok, raises, returns,
  value_error, waits,
}
use bulk_processing_service.Storage.Laws.{dir_in-set_dir_self}
use bulk_processing_service.WeasyprintClient.{truthy}

-- What the endpoints for documents promise: a document that cannot be rendered is counted as failed
-- and reported so, one for a completed job is refused with 409, and any other is stored behind the
-- others.
abbrev pub add_spec : Text → Result Bytes → Batch → Answer AddStatus × Batch
add_spec job_id (err e) b = (reply failed_document, record b { failed = b.failed + 1 })
add_spec job_id (ok pdf) b =
    if is_completed b.status
    then (http_error 409 (not_active job_id), b)
    else (reply accepted_document, record b { documents = b.documents ++ pdf ∷ [] })

-- A handler answered as specified, and the storage holds what the batch has become.
abbrev pub Meets : {A : Type 0} → Host → Text → Answer A × Batch → Answer A × Storage → Type 0
Meets h path (a, b) (r, s) = (r ≡ a) × Holds h path b s

-- An action that ended well and left the batch alone.
abbrev Quiet : Host → Text → Batch → Outcome None × Storage → Type 0
Quiet h path b (r, s) = (r ≡ returns tt) × Holds h path b s

module _ (h : Host) (job_id : Text) {path : Text} (p : job_dir h job_id ≡ ok path) where
  make_debug_dir_lem :
      (s : Storage) (d : JobDir)
      → dir_at s path ≡ some d
      → make_debug_dir h job_id s ≡ (returns (some path), in_dir s path (make_debug d))
  unfolding make_debug_dir
  make_debug_dir_lem s d e = ground arith

  write_debug_lem :
      (s : Storage) (d : JobDir) (name : Text) (payload : Bytes)
      → write_debug path name payload (in_dir s path d)
        ≡ in_dir (in_dir s path d) path (put_debug name payload d)
  unfolding write_debug
  write_debug_lem s d name payload = ground (arith, dir_in-set_dir_self s.nodes path d)

  debug_off :
      (i : ℕ) (suffix : Text) (payload : Bytes) (s : Storage)
      → h.debug_dir ≡ false
      → save_debug_file h job_id i suffix payload s ≡ (returns tt, s)
  unfolding save_debug_file get_debug_dir
  debug_off i suffix payload s off = ground arith

  debug_on :
      (i : ℕ) (suffix : Text) (payload : Bytes) (s : Storage) (d : JobDir)
      → h.debug_dir ≡ true
      → dir_at s path ≡ some d
      → save_debug_file h job_id i suffix payload s ≡ (
        returns tt,
        in_dir
            (in_dir s path (make_debug d))
            path
            (put_debug (debug_name i suffix) payload (make_debug d)),
      )
  unfolding save_debug_file get_debug_dir
  debug_on i suffix payload s d on e = ground (
    arith,
    make_debug_dir_lem s d e,
    write_debug_lem s (make_debug d) (debug_name i suffix) payload,
  )

module _ (h : Host) (job_id : Text) {path : Text} (p : job_dir h job_id ≡ ok path) {b : Batch} where
  -- A directory that differs in its debug files alone holds the same batch.
  Holds-debug :
      (s : Storage) (d : JobDir) (m : JobMetadata) (files : Option (Dict Text Bytes))
      → Represents h d m b
      → Holds h path b (in_dir s path (record d { debug = files }))
  Holds-debug s d m files rep = (
    record d { debug = files },
    m,
    dir_in-set_dir_self s.nodes path (record d { debug = files }),
    record {
      metadata = rep.metadata;
      documents = rep.documents;
      status = rep.status;
      failed = rep.failed;
      result = rep.result;
    },
  )

  save_debug_file-Quiet :
      (i : ℕ) (suffix : Text) (payload : Bytes) (s : Storage)
      → Holds h path b s
      → Quiet h path b (save_debug_file h job_id i suffix payload s)
  save_debug_file-Quiet i suffix payload s (d, m, e, rep) = elim (Bool-cases h.debug_dir) [
    | inr off ↦ rw (debug_off h job_id p i suffix payload s off) (refl, (d, m, e, rep))
    | inl on ↦
        rw (debug_on h job_id p i suffix payload s d on e)
          (refl, Holds-debug (in_dir s path (make_debug d)) d m _ rep)
  ]

  then-Quiet :
      (q : Outcome None × Storage) (k : Action None)
      → Quiet h path b q
      → ((s : Storage) → Holds h path b s → Quiet h path b (k s))
      → Quiet h path b (continue (λ _. k) q)
  then-Quiet (returns _, s) k (e, holds) next = next s holds
  then-Quiet (raises x, s) k (e, holds) next = absurd (ground arith)
  then-Quiet (waits, s) k (e, holds) next = absurd (ground arith)

  save_cover-Quiet :
      (i : ℕ) (cover : Option Text) (s : Storage)
      → Holds h path b s
      → Quiet h path b (save_cover h job_id i cover s)
  save_cover-Quiet i none s holds = (refl, holds)
  save_cover-Quiet i (some cover) s holds =
      save_debug_file-Quiet i (codes "_cover.html") cover s holds

  save_debug_files-Quiet :
      (body : AddDocumentRequest) (pdf : Bytes) (i : ℕ) (s : Storage)
      → Holds h path b s
      → Quiet h path b (save_debug_files h job_id body pdf i s)
  unfolding save_debug_files
  save_debug_files-Quiet body pdf i s holds =
      then-Quiet (save_debug_file h job_id i (codes ".html") body.html s) _
        (save_debug_file-Quiet i (codes ".html") body.html s holds)
        λ t holds_t.
          then-Quiet (save_cover h job_id i (truthy body.cover_page_html) t) _
            (save_cover-Quiet i (truthy body.cover_page_html) t holds_t)
            (save_debug_file-Quiet i (codes ".pdf") pdf)

  accept-Meets :
      (q : Outcome None × Storage)
      → Quiet h path b q
      → Meets h path (reply accepted_document, b) (accept q)
  accept-Meets (returns _, s) (e, holds) = (refl, holds)
  accept-Meets (raises x, s) (e, holds) = absurd (ground arith)
  accept-Meets (waits, s) (e, holds) = absurd (ground arith)

  pub after_failure-Meets :
      (q : Outcome None × Storage)
      → Quiet h path b q
      → Meets h path (reply failed_document, b) (after_failure q)
  after_failure-Meets (returns _, s) (e, holds) = (refl, holds)
  after_failure-Meets (raises x, s) (e, holds) = (refl, holds)
  after_failure-Meets (waits, s) (e, holds) = absurd (ground arith)

  pub after_add-refused :
      (next : ℕ → Storage → Answer AddStatus × Storage) (msg : Text) (q : Outcome ℕ × Storage)
      → Answers h path (Reply.refused (value_error msg), b) q
      → Meets h path (http_error 409 msg, b) (after_add job_id next q)
  after_add-refused next msg (r, s) (e, holds) = rw e (refl, holds)

  pub after_add-stored :
      (body : AddDocumentRequest) (pdf : Bytes) (i : ℕ) (q : Outcome ℕ × Storage)
      → Answers h path (Reply.done i, b) q
      → Meets h path
          (reply accepted_document, b)
          (after_add job_id (λ i t. accept (save_debug_files h job_id body pdf i t)) q)
  after_add-stored body pdf i (r, s) (e, holds) =
      rw e (accept-Meets _ (save_debug_files-Quiet body pdf i s holds))
