-- ===== src/Startup.antt =====
-- app/application.py: how the server is started. uvicorn takes what `start_server` hands to it.
pub mod Laws
pub mod Lifespan
use bulk_processing_service.Base.{List, Option, Text, [], codes, length, suc, ◌++◌, ◌∷◌}
use bulk_processing_service.Auth.{get_api_keys}
use bulk_processing_service.Results.{◌>>=◌}
use bulk_processing_service.Storage.{Result, err, ok}
use bulk_processing_service.Strings.Decimal.{decimal}
use bulk_processing_service.Strings.Integer.{negsuc, pos, ℤ}
use bulk_processing_service.Tls.{Environment, TlsOptions, get_scheme, get_tls_options}
use bulk_processing_service.Tls.Material.{ChainLoader, load_tls_options}

-- What `uvicorn.run` is called with, apart from the application and the empty host.
pub record ServerCall : Type 0 where
  pub port : ℤ
  pub options : Option TlsOptions

-- `TLS_PREFIX`
abbrev pub tls_prefix : Text
tls_prefix = codes "TLS_"

-- `start_server`
unfoldable pub start_server : Environment → ChainLoader → ℤ → Result ServerCall
start_server env load port = load_tls_options env load tls_prefix >>= λ options.
    ok (record { port = port; options = options })

abbrev pub decimal_of : ℤ → Text
decimal_of (pos n) = decimal n
decimal_of (negsuc n) = b'-' ∷ decimal (suc n)

abbrev pub keys_line : List Text → Text
keys_line [] = codes "API key authentication disabled"
keys_line (k ∷ keys) =
    codes "API key authentication enabled ("
    ++ (decimal (length (k ∷ keys)) ++ codes " key(s) configured)")

-- What `main` has logged, and how it has ended.
abbrev pub Started : Type 0
Started = List Text × Result ServerCall

abbrev pub port_line : ℤ → Text
port_line port = codes "Bulk processing service listening port: " ++ decimal_of port

abbrev pub scheme_line : Option TlsOptions → Text
scheme_line options = codes "Bulk processing service scheme: " ++ get_scheme options

-- What follows the reading of the TLS options.
abbrev pub announced : ℤ → Text → Result ServerCall → Result (Option TlsOptions) → Started
announced port api_key call (err e) = (port_line port ∷ [], err e)
announced port api_key call (ok options) =
    (port_line port ∷ scheme_line options ∷ keys_line (get_api_keys api_key) ∷ [], call)

-- `main` after `setup_logging`. `api_key` is the value of `API_KEY`, empty where it is not set.
unfoldable pub main : Environment → ChainLoader → ℤ → Text → Started
main env load port api_key =
    announced port api_key (start_server env load port) (get_tls_options env tls_prefix)
