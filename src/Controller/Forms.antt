-- ===== src/Controller/Forms.antt =====
-- app/converter_controller.py: `add_document_with_attachments_to_job`, whose request is a form. The
-- form is what Starlette has parsed of the body.
use bulk_processing_service.Base.{
  Bytes, List, Option, Text, [], ap, codes, false, inl, inr, none, refl, some, ◌++◌, ◌∙◌, ◌∷◌, ◌≡◌,
  ◌⊎◌,
}
use bulk_processing_service.Controller.{
  AddStatus, Answer, Handler, Renderer, add_document, authorize, crashes, for_authorized,
  get_authorized_job, hangs, http_error, job_missing, reply,
}
use bulk_processing_service.Controller.Access.{Hidden, get_authorized_job-Hidden}
use bulk_processing_service.JobManager.{get_job_metadata, metadata_at, read_metadata}
use bulk_processing_service.Models.{AddDocumentRequest, DocumentConversionParams, JobMetadata, Time}
use bulk_processing_service.Paths.{Host, job_dir}
use bulk_processing_service.PolarionAuth.{Principal}
use bulk_processing_service.Storage.{Result, Storage, continue, err, lift, ok}
use bulk_processing_service.WeasyprintClient.{Attachment}

-- A field of a form: a text, or a file with its name.
pub data FormValue : Type 0 where
  text_value : Text → FormValue
  upload : Option Text → Bytes → FormValue

-- `form.get` and `form.getlist`
pub record Form : Type 0 where
  pub get : Text → Option FormValue
  pub getlist : Text → List FormValue

-- `file.filename or "attachment"`
abbrev pub attachment_name : Option Text → Text
attachment_name none = codes "attachment"
attachment_name (some []) = codes "attachment"
attachment_name (some (c ∷ t)) = c ∷ t

-- The fields that are files, as attachments.
unfoldable pub attachments_of : List FormValue → List Attachment
attachments_of [] = []
attachments_of (text_value t ∷ fields) = attachments_of fields
attachments_of (upload name content ∷ fields) =
    record { file_name = attachment_name name; content = content } ∷ attachments_of fields

abbrev pub text_field : Option FormValue → Option Text
text_field (some (text_value t)) = some t
text_field _ = none

abbrev pub default_params : DocumentConversionParams
default_params = record {
  encoding = codes "utf-8";
  media_type = codes "print";
  presentational_hints = false;
  base_url = none;
  scale_factor = none;
  pdf_variant = none;
  custom_metadata = false;
  full_fonts = false;
}

-- `model_validate_json` gives the parameters, or the text of its `ValidationError`.
abbrev pub Loader : Type 0
Loader = Text → Text ⊎ DocumentConversionParams

unfoldable pub read_params : Loader → Option Text → Answer DocumentConversionParams
read_params load_params none = reply default_params
read_params load_params (some params_json) = elim (load_params params_json) [
  | inr params ↦ reply params
  | inl e ↦ http_error 422 (codes "Form field 'params' is not valid: " ++ e)
]

-- What the form asks for, or why it is refused.
unfoldable pub read_form : Loader → Form → Answer (AddDocumentRequest × List Attachment)
read_form load_params fields = elim (text_field (fields.get (codes "html"))) [
  | none ↦ http_error 422 (codes "Required form field \"html\" is missing")
  | some html ↦ elim (read_params load_params (text_field (fields.get (codes "params")))) [
    | reply params ↦ reply (
      (record {
        html = html;
        cover_page_html = text_field (fields.get (codes "coverPageHtml"));
        params = params;
      }),
      attachments_of (fields.getlist (codes "files")),
    )
    | http_error status detail ↦ http_error status detail
    | crashes e ↦ crashes e
    | hangs ↦ hangs
  ]
]

module _ (h : Host) (w : Renderer) (principal : Option Principal) (job_id : Text) (now : Time) where
  unfoldable pub add_from_form : Answer (AddDocumentRequest × List Attachment) → Handler AddStatus
  add_from_form (reply (body, attachments)) s =
      add_document h w principal job_id body attachments now s
  add_from_form (http_error status detail) s = (http_error status detail, s)
  add_from_form (crashes e) s = (crashes e, s)
  add_from_form hangs s = (hangs, s)

  -- `add_document_with_attachments_to_job`: the form is looked at only for a job of the caller.
  unfoldable pub add_document_with_attachments : Loader → Form → Handler AddStatus
  add_document_with_attachments load_params fields s =
      for_authorized (λ _. add_from_form (read_form load_params fields))
        (get_authorized_job h principal job_id s)

  lift-keeps : {A : Type 0} (r : Result A) (s : Storage) → (lift r s).1 ≡ s
  lift-keeps (ok a) s = refl
  lift-keeps (err e) s = refl

  load-keeps :
      (found : Result Text) (s : Storage)
      → (continue (λ path t. lift (metadata_at h t path) t) (lift found s)).1 ≡ s
  load-keeps (ok path) s = lift-keeps (metadata_at h s path) s
  load-keeps (err e) s = refl

  read_metadata-keeps : (s : Storage) → (read_metadata h job_id s).1 ≡ s
  unfolding read_metadata
  read_metadata-keeps s = load-keeps (job_dir h job_id) s

  get_authorized_job-keeps :
      (s : Storage) → (r : Answer JobMetadata) × (get_authorized_job h principal job_id s ≡ (r, s))
  unfolding get_authorized_job get_job_metadata
  get_authorized_job-keeps s = (
    authorize principal job_id (read_metadata h job_id s).0,
    ap (λ t. (authorize principal job_id (read_metadata h job_id s).0, t)) (read_metadata-keeps s),
  )

  same_answer :
      (load_params : Loader) (fields : Form) (body : AddDocumentRequest)
      (attachments : List Attachment) (s : Storage) (r : Answer JobMetadata)
      → read_form load_params fields ≡ reply (body, attachments)
      → get_authorized_job h principal job_id s ≡ (r, s)
      → add_document_with_attachments load_params fields s
        ≡ add_document h w principal job_id body attachments now s
  unfolding add_document_with_attachments add_from_form add_document
  same_answer load_params fields body attachments s (reply m) e f =
      ap (for_authorized (λ _. add_from_form (read_form load_params fields))) f
      ∙ ap (λ asked. add_from_form asked s) e
  same_answer load_params fields body attachments s (http_error status detail) e f = rw f refl
  same_answer load_params fields body attachments s (crashes x) e f = rw f refl
  same_answer load_params fields body attachments s hangs e f = rw f refl

  -- A form with a document, and with parameters that are valid or none, is answered exactly as the
  -- other endpoint answers the same document, cover page and parameters, with the files of the form
  -- as attachments, whoever asks and whatever the storage.
  add_document_with_attachments-eq :
      (load_params : Loader) (fields : Form) (body : AddDocumentRequest)
      (attachments : List Attachment) (s : Storage)
      → read_form load_params fields ≡ reply (body, attachments)
      → add_document_with_attachments load_params fields s
        ≡ add_document h w principal job_id body attachments now s
  add_document_with_attachments-eq load_params fields body attachments s e =
      let (r, f) = get_authorized_job-keeps s in
      same_answer load_params fields body attachments s r e f

  -- A job that the principal may not see is answered like one that does not exist, whatever the
  -- form holds, and the storage stays as it was.
  add_document_with_attachments-Hidden :
      (load_params : Loader) (fields : Form) (s : Storage)
      → Hidden h principal job_id s
      → add_document_with_attachments load_params fields s ≡ (job_missing job_id, s)
  unfolding add_document_with_attachments
  add_document_with_attachments-Hidden load_params fields s hidden =
      ap (for_authorized (λ _. add_from_form (read_form load_params fields)))
        (get_authorized_job-Hidden h principal job_id s hidden)
