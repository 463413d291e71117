-- ===== src/Settings.antt =====
-- app/constants.py: `get_request_body_limit_bytes`, of the value of `REQUEST_BODY_LIMIT_MB` where it
-- is set. Among the decimal digits of a value, those of ASCII are taken.
pub mod Constants
pub mod Logging
use bulk_processing_service.Base.{Option, Text, arith, none, some, suc, zero, ℕ, ◌*◌, ◌≡◌, ◌≤◌}
use bulk_processing_service.Strings.Decimal.{decimal}
use bulk_processing_service.Strings.Integer.{negsuc, parse_int, pos, ℤ}

abbrev pub default_mb : ℕ
default_mb = 500

-- A value that is not positive or no number stands for the default.
abbrev pub or_default_mb : Option ℤ → ℕ
or_default_mb none = default_mb
or_default_mb (some (negsuc n)) = default_mb
or_default_mb (some (pos zero)) = default_mb
or_default_mb (some (pos (suc n))) = suc n

abbrev pub setting_or : Text → Option Text → Text
setting_or default_text none = default_text
setting_or default_text (some t) = t

-- `get_request_body_limit_bytes`
unfoldable pub get_request_body_limit_bytes : Option Text → ℕ
get_request_body_limit_bytes setting =
    or_default_mb (parse_int (setting_or (decimal default_mb) setting)) * 1024 * 1024

-- The limit is a number of whole megabytes, at least one, whatever the environment says.
get_request_body_limit_bytes_positive :
    (setting : Option Text)
    → (n : ℕ) × (1 ≤ n) × (get_request_body_limit_bytes setting ≡ n * 1048576)
unfolding get_request_body_limit_bytes
get_request_body_limit_bytes_positive setting =
    whole (parse_int (setting_or (decimal default_mb) setting))
  where
    whole : (o : Option ℤ) → (n : ℕ) × (1 ≤ n) × (or_default_mb o * 1024 * 1024 ≡ n * 1048576)
    whole none = (500, omega arith, omega arith)
    whole (some (negsuc k)) = (500, omega arith, omega arith)
    whole (some (pos zero)) = (500, omega arith, omega arith)
    whole (some (pos (suc k))) = (suc k, omega arith, omega arith)
