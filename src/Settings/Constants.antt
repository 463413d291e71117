-- ===== src/Settings/Constants.antt =====
-- app/constants.py: the settings that are read from the environment when the service is loaded.
-- `str.upper` and `float` are parameters, and so is the storage directory below the home
-- directory. Among the decimal digits of a number, those of ASCII are taken.
use bulk_processing_service.Base.{
  Option, Text, [], ap, arith, codes, none, refl, some, sym, ℕ, ◌∙◌, ◌∷◌, ◌≡◌, ◌≢◌,
}
use bulk_processing_service.Results.{>>=-eq-ok, ok_injective, ◌>>=◌}
use bulk_processing_service.Settings.{get_request_body_limit_bytes, setting_or}
use bulk_processing_service.Storage.{Result, err, ok, value_error}
use bulk_processing_service.Strings.{strip}
use bulk_processing_service.Strings.Integer.{parse_int, ℤ}
use bulk_processing_service.WeasyprintClient.{truthy}

pub record Libraries : Type 1 where
  pub Float : Type 0
  pub float : Text → Option Float
  pub upper : Text → Text
  pub default_storage_dir : Text

-- The file `.build_timestamp`: not there, or what reading it gives.
abbrev pub TimestampFile : Type 0
TimestampFile = Option (Result Text)

pub record Constants (l : Libraries) : Type 0 where
  pub log_level : Text
  pub log_dir : Text
  pub weasyprint_service_url : Option Text
  pub weasyprint_timeout : l.Float
  pub weasyprint_api_key : Text
  pub job_storage_dir : Text
  pub job_ttl : Text
  pub polarion_jwks_url : Option Text
  pub polarion_jwks_host : Option Text
  pub polarion_token_max_age : ℤ
  pub debug_dir : Option Text
  pub port : ℤ
  pub service_version : Text
  pub build_timestamp : Text
  pub request_body_limit : ℕ

-- `os.environ.get(name, "").strip() or None`
abbrev pub stripped_or_none : Option Text → Option Text
stripped_or_none setting = truthy (some (strip (setting_or [] setting)))

-- `os.environ.get(name) or default_text`
abbrev pub or_default : Text → Option Text → Text
or_default default_text setting = setting_or default_text (truthy setting)

-- `float` and `int`, which raise `ValueError`
abbrev pub number_of : {A : Type 0} → Option A → Result A
number_of none = err (value_error (codes "not a number"))
number_of (some n) = ok n

-- `_read_build_timestamp`
unfoldable pub read_build_timestamp : TimestampFile → Result Text
read_build_timestamp none = ok []
read_build_timestamp (some (err e)) = err e
read_build_timestamp (some (ok content)) = ok (strip content)

number_of-ok : {A : Type 0} (o : Option A) {n : A} → number_of o ≡ ok n → o ≡ some n
number_of-ok none e = absurd (ground arith)
number_of-ok (some n) e = ap some (ok_injective e)

truthy_text : (t : Text) → t ≢ [] → truthy (some t) ≡ some t
truthy_text [] n = absurd (n refl)
truthy_text (c ∷ t) n = refl

module _ (l : Libraries) where
  -- The assignments of the module, in their order. What cannot be read stops the service.
  unfoldable pub read_constants : (Text → Option Text) → TimestampFile → Result (Constants l)
  read_constants value_of file =
      number_of (l.float (setting_or (codes "300") (value_of (codes "WEASYPRINT_TIMEOUT"))))
      >>= λ timeout.
          number_of
            (parse_int (setting_or (codes "900") (value_of (codes "POLARION_TOKEN_MAX_AGE"))))
          >>= λ max_age.
              number_of (parse_int (setting_or (codes "9070") (value_of (codes "PORT"))))
              >>= λ port. read_build_timestamp file >>= λ timestamp. ok (record {
                log_level = l.upper (setting_or (codes "INFO") (value_of (codes "LOG_LEVEL")));
                log_dir =
                    setting_or (codes "/opt/bulk-processing-service/logs")
                      (value_of (codes "LOG_DIR"));
                weasyprint_service_url = value_of (codes "WEASYPRINT_SERVICE_URL");
                weasyprint_timeout = timeout;
                weasyprint_api_key = strip (setting_or [] (value_of (codes "WEASYPRINT_API_KEY")));
                job_storage_dir =
                    or_default l.default_storage_dir (value_of (codes "JOB_STORAGE_DIR"));
                job_ttl = setting_or (codes "24h") (value_of (codes "JOB_TTL"));
                polarion_jwks_url = stripped_or_none (value_of (codes "POLARION_JWKS_URL"));
                polarion_jwks_host = stripped_or_none (value_of (codes "POLARION_JWKS_HOST"));
                polarion_token_max_age = max_age;
                debug_dir = value_of (codes "DEBUG_DIR");
                port = port;
                service_version =
                    setting_or (codes "dev") (value_of (codes "BULK_PROCESSING_SERVICE_VERSION"));
                build_timestamp = timestamp;
                request_body_limit =
                    get_request_body_limit_bytes (value_of (codes "REQUEST_BODY_LIMIT_MB"));
              })

  -- A setting of spaces is none; any other is there without the spaces around it.
  pub url-read_constants :
      (value_of : Text → Option Text) (file : TimestampFile) {c : Constants l} {url : Text}
      → read_constants value_of file ≡ ok c
      → value_of (codes "POLARION_JWKS_URL") ≡ some url
      → strip url ≢ []
      → c.polarion_jwks_url ≡ some (strip url)
  unfolding read_constants
  url-read_constants value_of file {url} e f n =
      let (timeout, e1, k1) =
        >>=-eq-ok
          (number_of (l.float (setting_or (codes "300") (value_of (codes "WEASYPRINT_TIMEOUT"))))) _
          e in
      let (max_age, e2, k2) =
        >>=-eq-ok
          (number_of
            (parse_int (setting_or (codes "900") (value_of (codes "POLARION_TOKEN_MAX_AGE")))))
          _ k1 in
      let (port, e3, k3) =
        >>=-eq-ok (number_of (parse_int (setting_or (codes "9070") (value_of (codes "PORT"))))) _
          k2 in
      let (timestamp, e4, k4) = >>=-eq-ok (read_build_timestamp file) _ k3 in
      ap (λ (c : Constants l). c.polarion_jwks_url) (sym (ok_injective k4))
      ∙ ap stripped_or_none f
      ∙ truthy_text (strip url) n

  -- The lifetime of tokens is the number of its setting, 900 where that is not set.
  pub max_age-read_constants :
      (value_of : Text → Option Text) (file : TimestampFile) {c : Constants l}
      → read_constants value_of file ≡ ok c
      → parse_int (setting_or (codes "900") (value_of (codes "POLARION_TOKEN_MAX_AGE")))
        ≡ some c.polarion_token_max_age
  unfolding read_constants
  max_age-read_constants value_of file e =
      let (timeout, e1, k1) =
        >>=-eq-ok
          (number_of (l.float (setting_or (codes "300") (value_of (codes "WEASYPRINT_TIMEOUT"))))) _
          e in
      let (max_age, e2, k2) =
        >>=-eq-ok
          (number_of
            (parse_int (setting_or (codes "900") (value_of (codes "POLARION_TOKEN_MAX_AGE")))))
          _ k1 in
      let (port, e3, k3) =
        >>=-eq-ok (number_of (parse_int (setting_or (codes "9070") (value_of (codes "PORT"))))) _
          k2 in
      let (timestamp, e4, k4) = >>=-eq-ok (read_build_timestamp file) _ k3 in
      number_of-ok _ e2 ∙ ap (λ (c : Constants l). some c.polarion_token_max_age) (ok_injective k4)
