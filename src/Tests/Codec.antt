-- ===== src/Tests/Codec.antt =====
-- A host for the tests: a codec that writes metadata as a list of numbers and reads it back, a
-- merge that joins the documents, and a file system without symbolic links.
use bulk_processing_service.Base.{
  Bytes, List, Option, Text, [], arith, codes, length, none, refl, some, suc, true, zero, ℕ, ◌++◌,
  ◌∷◌, ◌≡◌,
}
use bulk_processing_service.JobManager.Batch.{IsLawful}
use bulk_processing_service.Models.{JobMetadata, JobStatus, Time, active, completed}
use bulk_processing_service.Paths.{Host}
use bulk_processing_service.Storage.{Result, err, ok, value_error}

-- A text behind its length; an option behind a flag.
unfoldable pub put_text : Text → Bytes → Bytes
put_text t out = length t ∷ (t ++ out)

unfoldable pub put_option : Option Text → Bytes → Bytes
unfolding put_text
put_option none out = 0 ∷ out
put_option (some t) out = 1 ∷ put_text t out

unfoldable pub put_time : Option Time → Bytes → Bytes
put_time none out = 0 ∷ out
put_time (some t) out = 1 ∷ t ∷ out

unfoldable pub put_status : JobStatus → ℕ
put_status active = 0
put_status completed = 1

unfoldable pub encode : JobMetadata → Bytes
encode m = put_text m.job_id (
    put_status m.status
    ∷ m.created_at
    ∷ put_time m.updated_at (
        put_time m.completed_at (
          put_text m.params.file_name (
            put_option m.params.pdf_variant
              (put_option m.initiator_hash (m.pdf_count ∷ m.failed_count ∷ []))))))

split : ℕ → Bytes → Option (Text × Bytes)
split zero s = some ([], s)
split (suc n) [] = none
split (suc n) (c ∷ s) = elim (split n s) [ none ↦ none | some (t, r) ↦ some (c ∷ t, r) ]

split-append : (t s : Bytes) → split (length t) (t ++ s) ≡ some (t, s)
unfolding split
split-append [] s = refl
split-append (c ∷ t) s = ground (arith, split-append t s)

take_text : Bytes → Option (Text × Bytes)
unfolding split
take_text [] = none
take_text (n ∷ s) = split n s

take_option : Bytes → Option (Option Text × Bytes)
unfolding take_text
take_option [] = none
take_option (zero ∷ s) = some (none, s)
take_option (suc n ∷ s) = elim (take_text s) [ none ↦ none | some (t, r) ↦ some (some t, r) ]

take_time : Bytes → Option (Option Time × Bytes)
take_time (zero ∷ s) = some (none, s)
take_time (suc n ∷ t ∷ s) = some (some t, s)
take_time _ = none

take_number : Bytes → Option (ℕ × Bytes)
take_number [] = none
take_number (n ∷ s) = some (n, s)

status_of : ℕ → JobStatus
status_of zero = active
status_of (suc n) = completed

infixl 5 ◌>>=◌
abbrev ◌>>=◌ : {A B : Type 0} → Option A → (A → Option B) → Option B
none >>= f = none
some a >>= f = f a

parse : Bytes → Option JobMetadata
parse s = do
  (job_id, s1) ← take_text s
  (st, s2) ← take_number s1
  (created_at, s3) ← take_number s2
  (updated_at, s4) ← take_time s3
  (completed_at, s5) ← take_time s4
  (file_name, s6) ← take_text s5
  (pdf_variant, s7) ← take_option s6
  (initiator_hash, s8) ← take_option s7
  (pdf_count, s9) ← take_number s8
  (failed_count, s10) ← take_number s9
  some (record {
    job_id = job_id;
    status = status_of st;
    created_at = created_at;
    updated_at = updated_at;
    completed_at = completed_at;
    params = record { file_name = file_name; pdf_variant = pdf_variant };
    initiator_hash = initiator_hash;
    pdf_count = pdf_count;
    failed_count = failed_count;
  })

take_text-put : (t s : Bytes) → take_text (put_text t s) ≡ some (t, s)
unfolding take_text put_text
take_text-put t s = split-append t s

take_option-put : (o : Option Text) (s : Bytes) → take_option (put_option o s) ≡ some (o, s)
unfolding take_option put_option
take_option-put none s = refl
take_option-put (some t) s = ground (arith, split-append t s)

take_time-put : (o : Option Time) (s : Bytes) → take_time (put_time o s) ≡ some (o, s)
unfolding take_time put_time
take_time-put none s = refl
take_time-put (some t) s = refl

status_of-put : (st : JobStatus) → status_of (put_status st) ≡ st
unfolding status_of put_status
status_of-put active = refl
status_of-put completed = refl

parse-encode : (m : JobMetadata) → parse (encode m) ≡ some m
unfolding parse encode take_number
parse-encode m =
    let s9 : Bytes = m.pdf_count ∷ m.failed_count ∷ [] in
    let s8 = put_option m.initiator_hash s9 in
    let s7 = put_option m.params.pdf_variant s8 in
    let s6 = put_text m.params.file_name s7 in
    let s5 = put_time m.completed_at s6 in
    let s4 = put_time m.updated_at s5 in
    ground (
      arith,
      take_text-put m.job_id (put_status m.status ∷ m.created_at ∷ s4),
      take_time-put m.updated_at s5,
      take_time-put m.completed_at s6,
      take_text-put m.params.file_name s7,
      take_option-put m.params.pdf_variant s8,
      take_option-put m.initiator_hash s9,
      status_of-put m.status,
    )

unfoldable pub load : Bytes → Result JobMetadata
unfolding parse take_text take_number take_time take_option status_of
load s = elim (parse s) [ some m ↦ ok m | none ↦ err (value_error []) ]

unfoldable pub joined : List Bytes → Bytes
joined [] = []
joined (x ∷ xs) = x ++ joined xs

abbrev pub host : Host
host = record {
  storage_dir = codes "/jobs";
  debug_dir = true;
  realpath = λ p. p;
  dump = encode;
  load = load;
  merge = λ docs. ok (joined docs);
}

pub host-IsLawful : IsLawful host
host-IsLawful = record { load-dump = λ m. unfold load in rw (load, parse-encode m) }
