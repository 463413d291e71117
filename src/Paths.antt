-- ===== src/Paths.antt =====
-- app/job_manager.py: the settings of the service, and the path of a job (`_job_dir`).
use bulk_processing_service.Base.{
  Bool, Bytes, List, Option, Text, [], codes, eqb, false, if◌then◌else◌, leb, length, nat_eq, none,
  not, some, text_eq, true, ℕ, ◌&&◌, ◌++◌, ◌==◌, ◌||◌, ◌∷◌,
}
use bulk_processing_service.Models.{JobMetadata}
use bulk_processing_service.Storage.{Result, err, key_error, ok}

-- The settings of the service, and what it calls: `os.path.realpath`, Pydantic's `model_dump_json`
-- and `model_validate_json`, and `merge_pdf_files` from the bytes of the files to those of the result.
pub record Host : Type 0 where
  pub storage_dir : Text
  pub debug_dir : Bool
  pub realpath : Text → Text
  pub dump : JobMetadata → Bytes
  pub load : Bytes → Result JobMetadata
  pub merge : List Bytes → Result Bytes

-- `[a-f0-9]`
abbrev pub is_job_digit : ℕ → Bool
is_job_digit c = (leb b'a' c && leb c b'f') || (leb b'0' c && leb c b'9')

unfoldable pub all_job_digits : Text → Bool
all_job_digits [] = true
all_job_digits (c ∷ t) = is_job_digit c && all_job_digits t

-- `_VALID_JOB_ID.fullmatch`
unfoldable pub is_valid_job_id : Text → Bool
is_valid_job_id t = eqb (length t) 32 && all_job_digits t

unfoldable pub strip_prefix : Text → Text → Option Text
strip_prefix [] t = some t
strip_prefix (c ∷ p) [] = none
strip_prefix (c ∷ p) (d ∷ t) = elim (c == d) [ true ↦ strip_prefix p t | false ↦ none ]

-- `text.startswith(prefix)`
abbrev pub starts_with : Text → Text → Bool
starts_with text prefix = elim (strip_prefix prefix text) [ some _ ↦ true | none ↦ false ]

abbrev pub sep : Text
sep = codes "/"

abbrev pub not_found : Text → Text
not_found job_id = codes "Job '" ++ job_id ++ codes "' not found"

abbrev pub invalid_id : Text → Text
invalid_id job_id = codes "Invalid job ID: '" ++ job_id ++ codes "'"

abbrev pub not_active : Text → Text
not_active job_id = codes "Job '" ++ job_id ++ codes "' is not active"

abbrev pub no_documents : Text
no_documents = codes "No documents were added to the job"

module _ (h : Host) where
  -- `_job_dir`
  unfoldable pub job_dir : Text → Result Text
  job_dir job_id =
      let base = h.realpath h.storage_dir in
      let path = h.realpath (base ++ sep ++ job_id) in
      if not (is_valid_job_id job_id)
      then err (key_error (invalid_id job_id))
      else if not (starts_with path (base ++ sep))
      then err (key_error (invalid_id job_id))
      else ok path
