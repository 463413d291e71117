-- ===== src/Settings/Logging.antt =====
-- app/constants.py: `setup_logging`. `attribute` gives the levels of the logging module by their
-- names, `open_log` makes the directory and opens a log file in it.
use bulk_processing_service.Base.{
  List, Option, Text, [], codes, inl, inr, none, refl, some, ℕ, ◌++◌, ◌∷◌, ◌≡◌, ◌⊎◌,
}
use bulk_processing_service.Results.{◌>>=◌}
use bulk_processing_service.Storage.{None, Result, err, ok, os_error}

pub data Handler : Type 0 where
  console : Handler
  log_file : (path : Text) → Handler
  foreign : ℕ → Handler  -- one that something else has added

-- The root logger. `closed_handlers` are those that were closed and taken off.
pub record Logger : Type 0 where
  pub handlers : List Handler
  pub closed_handlers : List Handler
  pub level : ℕ

abbrev pub info_level : ℕ
info_level = 20

abbrev pub level_of : Option ℕ → ℕ
level_of none = info_level
level_of (some n) = n

-- Every handler is closed and taken off.
abbrev pub close_all : Logger → Logger
close_all r = record r { handlers = []; closed_handlers = r.closed_handlers ++ r.handlers }

abbrev pub add_handler : Handler → Logger → Logger
add_handler x r = record r { handlers = r.handlers ++ x ∷ [] }

-- `except OSError: pass`
abbrev pub with_file : Text → Result None → Logger → Result Logger
with_file path (ok _) r = ok (add_handler (log_file path) r)
with_file path (err os_error) r = ok r
with_file path (err e) r = err e

abbrev pub file_in : Text → Text → Text
file_in log_dir current_time =
    log_dir ++ (codes "/bulk-processing-service_" ++ (current_time ++ codes ".log"))

module _ (attribute : Text → Option ℕ) (open_log : Text → Result None) where
  -- `setup_logging`, with the time as it stands in the name of the file
  unfoldable pub setup_logging : Text → Text → Text → Logger → Result Logger
  setup_logging log_level log_dir current_time root =
      let path = file_in log_dir current_time in
      with_file path (open_log path) (add_handler console (close_all root)) >>= λ logger.
      ok (record logger { level = level_of (attribute log_level) })

  -- A log file that cannot be made does not keep the service from starting: whatever the logger was
  -- like, it then writes to the console first, and to a file at most, and everything it had is
  -- closed.
  setup_logging-tolerates :
      (log_level log_dir current_time : Text) (root : Logger)
      → ((open_log (file_in log_dir current_time) ≡ ok tt)
          ⊎ (open_log (file_in log_dir current_time) ≡ err os_error))
      → (logger : Logger) × (setup_logging log_level log_dir current_time root ≡ ok logger)
        × ((logger.handlers ≡ console ∷ [])
            ⊎ (logger.handlers ≡ console ∷ log_file (file_in log_dir current_time) ∷ []))
        × (logger.closed_handlers ≡ root.closed_handlers ++ root.handlers)
        × (logger.level ≡ level_of (attribute log_level))
  unfolding setup_logging
  setup_logging-tolerates log_level log_dir current_time root (inl e) =
      (_, rw e refl, inr refl, refl, refl)
  setup_logging-tolerates log_level log_dir current_time root (inr e) =
      (_, rw e refl, inl refl, refl, refl)
