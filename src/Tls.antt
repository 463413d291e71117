-- ===== src/Tls.antt =====
-- app/tls.py: `get_tls_options`, whether the server speaks TLS. The environment, and what the file
-- system says of a path, are parameters. `TlsConfigurationError` is a `ValueError`.
pub mod Laws
pub mod Material
use bulk_processing_service.Base.{
  Bool, Option, Text, [], codes, if◌then◌else◌, none, not, some, ◌++◌, ◌∷◌,
}
use bulk_processing_service.Storage.{Result, err, ok, value_error}
use bulk_processing_service.Strings.{strip}
use bulk_processing_service.WeasyprintClient.{truthy}

pub record Environment : Type 0 where
  pub value_of : Text → Option Text
  pub is_file : Text → Bool
  pub is_readable : Text → Bool

-- The keyword arguments for uvicorn, where there are any.
pub record TlsOptions : Type 0 where
  pub ssl_certfile : Text
  pub ssl_keyfile : Text
  pub ssl_keyfile_password : Option Text

abbrev pub or_empty : Option Text → Text
or_empty none = []
or_empty (some t) = t

-- `_read`
unfoldable pub read_env : Environment → Text → Text
read_env env name = strip (or_empty (env.value_of name))

abbrev pub points_to : Text → Text → Text → Text
points_to name path why = name ++ (codes " points to '" ++ (path ++ (codes "', which " ++ why)))

-- `_readable_file`
unfoldable pub readable_file : Environment → Text → Text → Result Text
readable_file env path name =
    if not (env.is_file path)
    then err (value_error (points_to name path (codes "is not a file")))
    else if not (env.is_readable path)
    then err (value_error (points_to name path (codes "cannot be read")))
    else ok path

abbrev pub missing_message : Text → Text
missing_message name = name ++ codes " is missing, a certificate and its key are both required"

-- The part of `get_tls_options` where a certificate and a key are named.
unfoldable pub both_files : Environment → Text → Text → Text → Result (Option TlsOptions)
both_files env prefix cert key_path = elim (readable_file env cert (prefix ++ codes "CERT_FILE")) [
  | err e ↦ err e
  | ok cert_file ↦ elim (readable_file env key_path (prefix ++ codes "KEY_FILE")) [
    | err e ↦ err e
    | ok key_file ↦ ok (
        some (record {
          ssl_certfile = cert_file;
          ssl_keyfile = key_file;
          ssl_keyfile_password = truthy (env.value_of (prefix ++ codes "KEY_PASSWORD"));
        }))
  ]
]

unfoldable pub tls_options_of : Environment → Text → Text → Text → Result (Option TlsOptions)
tls_options_of env prefix [] [] = ok none
tls_options_of env prefix [] (k ∷ ks) =
    err (value_error (missing_message (prefix ++ codes "CERT_FILE")))
tls_options_of env prefix (c ∷ cs) [] =
    err (value_error (missing_message (prefix ++ codes "KEY_FILE")))
tls_options_of env prefix (c ∷ cs) (k ∷ ks) = both_files env prefix (c ∷ cs) (k ∷ ks)

-- `get_tls_options`: none for plain HTTP
unfoldable pub get_tls_options : Environment → Text → Result (Option TlsOptions)
get_tls_options env prefix =
    tls_options_of env prefix (read_env env (prefix ++ codes "CERT_FILE"))
      (read_env env (prefix ++ codes "KEY_FILE"))

-- `get_scheme`
unfoldable pub get_scheme : Option TlsOptions → Text
get_scheme none = codes "http"
get_scheme (some options) = codes "https"
