-- ===== src/JobManager/Documents.antt =====
-- Reading the documents of a job in order.
use bulk_processing_service.Base.{
  Bytes, List, [], arith, length, nat_eq, refl, some, suc, text_eq, zero, ℕ, ◌++◌, ◌+◌, ◌∷◌, ◌≡◌,
  ◌≤◌,
}
use bulk_processing_service.Base.Dict.{Dict, get-put}
use bulk_processing_service.JobManager.{read_documents}
use bulk_processing_service.Storage.{ok}
use native.Mathlib.Nat.{add-zero}
use native.Mathlib.Numerals.{add-one}
use bulk_processing_service.Base.Dict

pub length-read_documents :
    (docs : Dict ℕ Bytes) (i n : ℕ) (xs : List Bytes)
    → read_documents docs i n ≡ ok xs
    → length xs ≡ n
unfolding read_documents
length-read_documents docs i zero xs e = ground arith
length-read_documents docs i (suc n) [] e = ground arith
length-read_documents docs i (suc n) (x ∷ xs) e =
    ground (arith, length-read_documents docs (suc i) n xs)

-- A document with a later number is not among those that are read.
pub read_documents-put_later :
    (docs : Dict ℕ Bytes) (i n k : ℕ) (v : Bytes)
    → i + n ≤ k
    → read_documents (Dict.put docs k v) i n ≡ read_documents docs i n
unfolding read_documents
read_documents-put_later docs i zero k v h = refl
read_documents-put_later docs i (suc n) k v h =
    ground (arith, get-put docs k i v, read_documents-put_later docs (suc i) n k v)

read_documents-next :
    (docs : Dict ℕ Bytes) (i n : ℕ) (xs : List Bytes) (v : Bytes)
    → read_documents docs i n ≡ ok xs
    → Dict.get docs (i + n) ≡ some v
    → read_documents docs i (suc n) ≡ ok (xs ++ v ∷ [])
unfolding read_documents
read_documents-next docs i zero [] v e f =
    let f' : Dict.get docs i ≡ some v = rw add-zero at f in ground arith
read_documents-next docs i zero (x ∷ xs) v e f = ground arith
read_documents-next docs i (suc n) [] v e f = ground arith
read_documents-next docs i (suc n) (x ∷ xs) v e f =
    ground (arith, read_documents-next docs (suc i) n xs v)

-- Writing the next document puts it behind those that are there.
pub read_documents-put_next :
    (docs : Dict ℕ Bytes) (n : ℕ) (xs : List Bytes) (v : Bytes)
    → read_documents docs 0 n ≡ ok xs
    → read_documents (Dict.put docs n v) 0 (n + 1) ≡ ok (xs ++ v ∷ [])
read_documents-put_next docs n xs v e = rw add-one (
    read_documents-next (Dict.put docs n v) 0 n xs v
      (rw (read_documents-put_later docs 0 n n v (omega arith)) e)
      (ground (arith, get-put docs n (0 + n) v)))
