-- ===== src/Controller.antt =====
-- app/converter_controller.py: the handlers of the merge endpoints. A handler ends with a reply, an
-- `HTTPException`, an exception that nobody handles, or it waits for a lock.
pub mod Access
pub mod Documents
pub mod Endpoints
pub mod Finish
pub mod Forms
use bulk_processing_service.Base.{
  Bytes, List, Option, Text, [], codes, eqb, if◌then◌else◌, ltb, nat_eq, none, some, suc, text_eq,
  zero, ℕ, ◌&&◌, ◌++◌, ◌∷◌,
}
use bulk_processing_service.Base.Dict.{Dict}
use bulk_processing_service.CoverPage.{resolve_cover_page_placeholders}
use bulk_processing_service.Disposition.{disposition, quote, safe_name}
use bulk_processing_service.JobManager.{
  add_pdf, complete_job, create_job, delete_job, get_debug_dir, get_job_metadata, record_failure,
}
use bulk_processing_service.JobManager.Calls.{debug}
use bulk_processing_service.Models.{AddDocumentRequest, JobMetadata, MergeJobStartParams, Time}
use bulk_processing_service.Paths.{Host, not_found}
use bulk_processing_service.PolarionAuth.{Principal, may_use_job}
use bulk_processing_service.Storage.{
  Action, Error, JobDir, None, Outcome, Result, Storage, dir_at, err, key_error, ok, pure, raises,
  returns, set_dir, value_error, waits, ◌>>=◌, ◌>>◌,
}
use bulk_processing_service.Strings.Decimal.{decimal}
use bulk_processing_service.WeasyprintClient.{
  Attachment, HttpRequest, WeasyprintClient, convert_html_to_pdf, make_client, truthy,
}
use bulk_processing_service.Base.Dict

pub data Answer (A : Type 0) : Type 0 where
  reply : A → Answer A
  http_error : ℕ → Text → Answer A
  crashes : Error → Answer A
  hangs : Answer A

abbrev pub Handler : Type 0 → Type 0
Handler A = Storage → Answer A × Storage

-- The settings for WeasyPrint, and what is called for a document: `post` sends a request,
-- `count_pages` is `count_pdf_pages`, `replace_cover` is `replace_first_page_with_cover`.
pub record Renderer : Type 0 where
  pub service_url : Option Text
  pub api_key : Text
  pub post : HttpRequest → Result Bytes
  pub count_pages : Bytes → Result ℕ
  pub replace_cover : Bytes → Bytes → Result Bytes

-- `{"status": …}`
pub data AddStatus : Type 0 where
  accepted_document failed_document : AddStatus

-- The response of `finish`: the file, and the headers of the result.
pub record Download : Type 0 where
  pub path : Text
  pub content_disposition : Text
  pub documents_merged : Text
  pub documents_failed : Option Text

abbrev pub url_or_default : Option Text → Text
url_or_default none = codes "http://localhost:9080"
url_or_default (some url) = url

-- `get_weasyprint_client`
unfoldable pub get_weasyprint_client : Renderer → WeasyprintClient
get_weasyprint_client w =
    make_client (url_or_default (truthy w.service_url)) (truthy (some w.api_key))

abbrev pub job_missing : {A : Type 0} → Text → Answer A
job_missing job_id = http_error 404 (not_found job_id)

-- The job that was found, where the token may be used for it.
abbrev pub authorize : Option Principal → Text → Outcome (Option JobMetadata) → Answer JobMetadata
authorize principal job_id (returns none) = job_missing job_id
authorize principal job_id (returns (some m)) =
    if may_use_job principal job_id m then reply m else job_missing job_id
authorize principal job_id (raises (key_error _)) = job_missing job_id
authorize principal job_id (raises e) = crashes e
authorize principal job_id waits = hangs

abbrev pub bind : {A B : Type 0} → Result A → (A → Result B) → Result B
bind (ok a) f = f a
bind (err e) f = err e

-- The `try` block of `_add_document`: the document is rendered, and its cover page put in place.
unfoldable pub render_document : Renderer → AddDocumentRequest → List Attachment → Result Bytes
render_document w body attachments =
    let client = get_weasyprint_client w in
    bind (convert_html_to_pdf w.post client body.html body.params attachments) λ content_pdf.
      elim (truthy body.cover_page_html) [
        | none ↦ ok content_pdf
        | some cover ↦ bind (w.count_pages content_pdf) λ page_count.
            bind
              (convert_html_to_pdf w.post client (resolve_cover_page_placeholders cover page_count)
                body.params [])
              λ cover_pdf. w.replace_cover content_pdf cover_pdf
      ]

-- `contextlib.suppress(Exception)`, and the reply of a document that failed.
abbrev pub after_failure : {A : Type 0} → Outcome A × Storage → Answer AddStatus × Storage
after_failure (returns _, s) = (reply failed_document, s)
after_failure (raises _, s) = (reply failed_document, s)
after_failure (waits, s) = (hangs, s)

-- How `add_pdf` ended, with what follows it.
abbrev pub after_add :
    Text
    → (ℕ → Storage → Answer AddStatus × Storage)
    → Outcome ℕ × Storage
    → Answer AddStatus × Storage
after_add job_id next (returns doc_index, s) = next doc_index s
after_add job_id next (raises (key_error _), s) = (job_missing job_id, s)
after_add job_id next (raises (value_error msg), s) = (http_error 409 msg, s)
after_add job_id next (raises e, s) = (crashes e, s)
after_add job_id next (waits, s) = (hangs, s)

abbrev pub pad3 : Text → Text
pad3 (a ∷ []) = b'0' ∷ b'0' ∷ a ∷ []
pad3 (a ∷ b ∷ []) = b'0' ∷ a ∷ b ∷ []
pad3 t = t

abbrev pub debug_name : ℕ → Text → Text
debug_name doc_index suffix = pad3 (decimal doc_index) ++ suffix

abbrev pub put_debug : Text → Bytes → JobDir → JobDir
put_debug name payload d = record d {
  debug = elim d.debug [ some files ↦ some (Dict.put files name payload) | none ↦ none ];
}

-- The write of `_save_debug_file`, whose `OSError` is only logged.
unfoldable pub write_debug : Text → Text → Bytes → Storage → Storage
write_debug path name payload s = elim (dir_at s path) [
  | some d ↦ record s { nodes = set_dir s.nodes path (put_debug name payload d) }
  | none ↦ s
]

abbrev pub save_in : Text → Text → Outcome (Option Text) × Storage → Outcome None × Storage
save_in name payload (returns (some path), s) = (returns tt, write_debug path name payload s)
save_in name payload (returns none, s) = (returns tt, s)
save_in name payload (raises e, s) = (raises e, s)
save_in name payload (waits, s) = (waits, s)

abbrev pub accept : Outcome None × Storage → Answer AddStatus × Storage
accept (returns _, s) = (reply accepted_document, s)
accept (raises e, s) = (crashes e, s)
accept (waits, s) = (hangs, s)

-- A handler behind `_get_authorized_job`.
abbrev pub for_authorized :
    {A : Type 0} → (JobMetadata → Handler A) → Answer JobMetadata × Storage → Answer A × Storage
for_authorized next (reply m, s) = next m s
for_authorized next (http_error code detail, s) = (http_error code detail, s)
for_authorized next (crashes e, s) = (crashes e, s)
for_authorized next (hangs, s) = (hangs, s)

-- `start_merge_job`
abbrev pub started_job : Outcome Text × Storage → Answer Text × Storage
started_job (returns job_id, s) = (reply job_id, s)
started_job (raises e, s) = (crashes e, s)
started_job (waits, s) = (hangs, s)

abbrev pub user_of : Option Principal → Option Text
user_of none = none
user_of (some p) = some p.user_hash

abbrev pub after_complete :
    {A : Type 0} → Text → (Text → Handler A) → Outcome Text × Storage → Answer A × Storage
after_complete job_id next (returns path, s) = next path s
after_complete job_id next (raises (key_error _), s) = (job_missing job_id, s)
after_complete job_id next (raises (value_error msg), s) = (http_error 400 msg, s)
after_complete job_id next (raises e, s) = (crashes e, s)
after_complete job_id next (waits, s) = (hangs, s)

abbrev pub failures : ℕ → Option Text
failures zero = none
failures (suc n) = some (decimal (suc n))

-- The response for the metadata that was read again.
unfoldable pub download : Text → Option JobMetadata → Answer Download
download path found =
    let name : Text = elim found [
      | some m ↦ m.params.file_name
      | none ↦ codes "merged-document.pdf"
    ] in
    elim (quote name) [
      | err e ↦ crashes e
      | ok encoded_name ↦ reply (record {
        path = path;
        content_disposition = disposition (safe_name name) encoded_name;
        documents_merged = elim found [ some m ↦ decimal m.pdf_count | none ↦ codes "0" ];
        documents_failed = elim found [ some m ↦ failures m.failed_count | none ↦ none ];
      })
    ]

abbrev pub respond : Text → Outcome (Option JobMetadata) × Storage → Answer Download × Storage
respond path (returns found, s) = (download path found, s)
respond path (raises e, s) = (crashes e, s)
respond path (waits, s) = (hangs, s)

abbrev pub all_failed : ℕ → Text
all_failed n = codes "All " ++ (decimal n ++ codes " documents failed to convert")

abbrev pub deleted : Outcome None × Storage → Answer None × Storage
deleted (returns _, s) = (reply tt, s)
deleted (raises e, s) = (crashes e, s)
deleted (waits, s) = (hangs, s)

module _ (h : Host) where
  -- `_save_debug_file`
  unfoldable pub save_debug_file : Text → ℕ → Text → Bytes → Action None
  save_debug_file job_id doc_index suffix payload s =
      save_in (debug_name doc_index suffix) payload (get_debug_dir h job_id s)

  abbrev pub save_cover : Text → ℕ → Option Text → Action None
  save_cover job_id i none = pure tt
  save_cover job_id i (some cover) = save_debug_file job_id i (codes "_cover.html") cover

  -- The debug files of a document. A text is kept as its code points.
  unfoldable pub save_debug_files : Text → AddDocumentRequest → Bytes → ℕ → Action None
  save_debug_files job_id body pdf i = do
    save_debug_file job_id i (codes ".html") body.html
    save_cover job_id i (truthy body.cover_page_html)
    save_debug_file job_id i (codes ".pdf") pdf

  -- `_get_authorized_job`
  unfoldable pub get_authorized_job : Option Principal → Text → Handler JobMetadata
  get_authorized_job principal job_id s =
      let (r, s') = get_job_metadata h job_id s in (authorize principal job_id r, s')

  unfoldable pub start_merge_job :
      MergeJobStartParams → Option Principal → Text → Time → Handler Text
  start_merge_job params principal fresh now s =
      started_job (create_job h params (user_of principal) fresh now s)

  -- The rest of `_add_document`, where the document was rendered or was not.
  unfoldable pub store_document :
      Text → AddDocumentRequest → Time → Result Bytes → Handler AddStatus
  store_document job_id body now (err _) s = after_failure (record_failure h job_id now s)
  store_document job_id body now (ok pdf) s =
      after_add job_id (λ i t. accept (save_debug_files job_id body pdf i t))
        (add_pdf h job_id pdf now s)

  -- `_add_document`, which both endpoints for documents call
  unfoldable pub add_document :
      Renderer
      → Option Principal
      → Text
      → AddDocumentRequest
      → List Attachment
      → Time
      → Handler AddStatus
  add_document w principal job_id body attachments now s =
      for_authorized (λ _. store_document job_id body now (render_document w body attachments))
        (get_authorized_job principal job_id s)

  -- `finish_merge_job`
  unfoldable pub finish_authorized : Text → Time → JobMetadata → Handler Download
  finish_authorized job_id now before s =
      if eqb before.pdf_count 0 && ltb 0 before.failed_count
      then (http_error 400 (all_failed before.failed_count), s)
      else after_complete job_id (λ path t. respond path (get_job_metadata h job_id t))
          (complete_job h job_id now s)

  unfoldable pub finish_merge_job : Option Principal → Text → Time → Handler Download
  finish_merge_job principal job_id now s =
      for_authorized (finish_authorized job_id now) (get_authorized_job principal job_id s)

  -- `delete_merge_job`
  unfoldable pub delete_merge_job : Option Principal → Text → Handler None
  delete_merge_job principal job_id s =
      for_authorized (λ _ t. deleted (delete_job h job_id t))
        (get_authorized_job principal job_id s)
