-- ===== src/Storage.antt =====
-- What the service keeps on disk and in memory for its jobs: the storage directory, the locks of
-- its threads and the file locks; and the actions on it (file operations of app/job_manager.py).
-- An action may raise, and what was written before a raise stays written.
pub mod Laws
pub mod Keeps
use bulk_processing_service.Base.{
  Bool, Bytes, List, Option, Text, [], false, if◌then◌else◌, nat_eq, none, some, text_eq, true, ℕ,
}
use bulk_processing_service.Base.Dict.{Dict}
use bulk_processing_service.Base.Dict

-- The exceptions, by what the handlers tell apart: `KeyError`, `ValueError` with its message,
-- `OSError`, and any other.
pub data Error : Type 0 where
  key_error value_error : Text → Error
  os_error other_error : Error

pub data Result (A : Type 0) : Type 0 where
  ok : A → Result A
  err : Error → Result A

-- The directory of a job. `documents` are its files `000.pdf`, `001.pdf`, … by their number.
pub record JobDir : Type 0 where
  pub metadata_json : Option Bytes
  pub metadata_tmp : Option Bytes
  pub documents : Dict ℕ Bytes
  pub result_pdf : Option Bytes
  pub lock_file : Bool
  pub debug : Option (Dict Text Bytes)

pub data Node : Type 0 where
  directory : JobDir → Node
  file : Node

-- `nodes` is keyed by real path. `links` names the entries of the storage directory that are
-- symbolic links to a directory. `thread_locks` is `JobManager._thread_locks`, `true` while the
-- lock is held; `file_locks` are the lock files that this process holds, `foreign_locks` those
-- that other replicas hold, each by the path of its job.
pub record Storage : Type 0 where
  pub root : Bool
  pub nodes : Dict Text Node
  pub links : List Text
  pub thread_locks : Dict Text Bool
  pub file_locks : Dict Text Bool
  pub foreign_locks : List Text

-- How a call ends: it returns, it raises, or it waits for a lock that another holds.
pub data Outcome (A : Type 0) : Type 0 where
  returns : A → Outcome A
  raises : Error → Outcome A
  waits : Outcome A

abbrev pub Action : Type 0 → Type 0
Action A = Storage → Outcome A × Storage

abbrev pub None : Type 0
None = Unit

module _ {A : Type 0} where
  abbrev pub pure : A → Action A
  pure a s = (returns a, s)

  abbrev pub raise : Error → Action A
  raise e s = (raises e, s)

  abbrev pub lift : Result A → Action A
  lift (ok a) = pure a
  lift (err e) = raise e

  abbrev pub or_raise : Option A → Error → Action A
  or_raise (some a) e = pure a
  or_raise none e = raise e

  -- `try: … finally: …`, where the cleanup cannot raise. A call that waits has not ended.
  abbrev pub clean : (Storage → Storage) → Outcome A × Storage → Outcome A × Storage
  clean cleanup (returns a, s) = (returns a, cleanup s)
  clean cleanup (raises e, s) = (raises e, cleanup s)
  clean cleanup (waits, s) = (waits, s)

  abbrev pub finally : Action A → (Storage → Storage) → Action A
  finally m cleanup s = clean cleanup (m s)

-- The rest of a block, after its first action.
abbrev pub continue : {A B : Type 0} → (A → Action B) → Outcome A × Storage → Outcome B × Storage
continue f (returns a, s) = f a s
continue f (raises e, s) = (raises e, s)
continue f (waits, s) = (waits, s)

infixl 5 ◌>>=◌ ◌>>◌
abbrev pub ◌>>=◌ : {A B : Type 0} → Action A → (A → Action B) → Action B
◌>>=◌ m f s = continue f (m s)

abbrev pub ◌>>◌ : {A B : Type 0} → Action A → Action B → Action B
m >> k = m >>= λ _. k

abbrev pub raise_if : Bool → Error → Action None
raise_if test e s = (if test then raises e else returns tt, s)

-- The directory at a path, where there is one.
unfoldable pub dir_in : Dict Text Node → Text → Option JobDir
dir_in nodes path = elim (Dict.get nodes path) [ some (directory d) ↦ some d | _ ↦ none ]

unfoldable pub set_dir : Dict Text Node → Text → JobDir → Dict Text Node
set_dir nodes path d = Dict.put nodes path (directory d)

-- `path.exists()`
unfoldable pub exists : Dict Text Node → Text → Bool
exists nodes path = elim (Dict.get nodes path) [ some _ ↦ true | none ↦ false ]

abbrev pub dir_at : Storage → Text → Option JobDir
dir_at s path = dir_in s.nodes path

abbrev pub find_dir : Text → Action JobDir
find_dir path s = or_raise (dir_at s path) os_error s

abbrev pub write_dir : Text → JobDir → Action None
write_dir path d s = (returns tt, record s { nodes = set_dir s.nodes path d })

abbrev pub empty_dir : JobDir
empty_dir = record {
  metadata_json = none;
  metadata_tmp = none;
  documents = [];
  result_pdf = none;
  lock_file = false;
  debug = none;
}

-- `mkdir(parents=True)`: an existing path is an error.
abbrev pub make_dir : Text → Action None
make_dir path s =
    if exists s.nodes path
    then (raises os_error, s)
    else (returns tt, record s { root = true; nodes = set_dir s.nodes path empty_dir })

-- `shutil.rmtree`
abbrev pub remove_tree : Text → Action None
remove_tree path s = elim (dir_at s path) [
  | some _ ↦ (returns tt, record s { nodes = Dict.remove s.nodes path })
  | none ↦ (raises os_error, s)
]
