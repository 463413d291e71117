-- ===== src/Tests/Start.antt =====
-- A start of the service from an environment.
use bulk_processing_service.Base.{
  Option, Text, [], codes, if◌then◌else◌, leb, nat_eq, none, refl, some, text_eq, true, ℕ, ◌&&◌,
  ◌-◌, ◌==◌, ◌∷◌, ◌≡◌,
}
use bulk_processing_service.Auth.{get_api_keys}
use bulk_processing_service.Cleanup.Ttl.{duration, parse_ttl, take_digits, ttl_of, unit_seconds}
use bulk_processing_service.PolarionAuth.{Verifier}
use bulk_processing_service.PolarionAuth.HostHeader.{jwks_headers}
use bulk_processing_service.PolarionAuth.Setup.{build_verifier, verifier_for}
use bulk_processing_service.Settings.{get_request_body_limit_bytes}
use bulk_processing_service.Settings.Constants.{
  Constants, Libraries, read_build_timestamp, read_constants,
}
use bulk_processing_service.Startup.{keys_line, main, port_line, scheme_line, start_server}
use bulk_processing_service.Startup.Laws.{Offers, main-Offers}
use bulk_processing_service.Startup.Lifespan.{AppState, lifespan, lifespan-verifies, new_manager}
use bulk_processing_service.Storage.{ok, returns}
use bulk_processing_service.Strings.{is_space, lstrip, strip}
use bulk_processing_service.Strings.Decimal.{decimal}
use bulk_processing_service.Strings.Integer.{
  ℤ, digits_from, parse_digits, parse_int, parse_signed, pos,
}
use bulk_processing_service.Tests.Auth.{toy}
use bulk_processing_service.Tests.Jobs.{empty_storage}
use bulk_processing_service.Tests.Limits.{environment, options}
use bulk_processing_service.Tls.{
  both_files, get_tls_options, read_env, readable_file, tls_options_of,
}
use bulk_processing_service.Tls.Material.{load_tls_options, loaded, verify_tls_material}

abbrev libraries : Libraries
libraries = record {
  Float = ℕ;
  float = λ t. some 300;
  upper = λ t. t;
  default_storage_dir = codes "/root/jobs";
}

-- The address of the key set is set, with a space before it, and all else is not.
abbrev settings : Text → Option Text
settings name =
    if name == codes "POLARION_JWKS_URL" then some (codes " http://p/jwks.json") else none

abbrev constants : Constants libraries
constants = record {
  log_level = codes "INFO";
  log_dir = codes "/opt/bulk-processing-service/logs";
  weasyprint_service_url = none;
  weasyprint_timeout = 300;
  weasyprint_api_key = [];
  job_storage_dir = codes "/root/jobs";
  job_ttl = codes "24h";
  polarion_jwks_url = some (codes "http://p/jwks.json");
  polarion_jwks_host = none;
  polarion_token_max_age = pos 900;
  debug_dir = none;
  port = pos 9070;
  service_version = codes "dev";
  build_timestamp = [];
  request_body_limit = 524288000;
}

constants_run : read_constants libraries settings none ≡ ok constants
unfolding read_constants text_eq parse_int parse_signed parse_digits digits_from strip lstrip
    is_space get_request_body_limit_bytes decimal read_build_timestamp
constants_run = refl

abbrev digit : ℕ → Option ℕ
digit c = if leb b'0' c && leb c b'9' then some (c - b'0') else none

abbrev state : AppState toy
state = record {
  polarion_verifier = some (record { client = 0; max_age = pos 900; last_forced_refresh = none });
  ttl = 86400000000;
}

lifespan_run :
    lifespan {libs = libraries} toy (λ settings. 0) digit constants (ok tt) empty_storage
    ≡ (returns state, empty_storage)
unfolding lifespan new_manager build_verifier verifier_for jwks_headers parse_ttl take_digits ttl_of
    unit_seconds duration strip lstrip is_space
lifespan_run = refl

stripped : ¬ (strip (codes " http://p/jwks.json") ≡ [])
unfolding strip lstrip is_space
stripped e = cc

lifespan-verifies_example :
    ((v : Verifier toy) × (state.polarion_verifier ≡ some v)
      × (◌≡◌ {A = Option ℤ} (some (pos 900)) (some v.max_age))
      × (v.last_forced_refresh ≡ none))
    × (empty_storage ≡ record empty_storage { root = true; thread_locks = [] })
unfolding text_eq parse_int parse_signed strip lstrip is_space parse_digits digits_from
lifespan-verifies_example =
    lifespan-verifies toy (λ settings. 0) digit settings none (ok tt) empty_storage constants_run
      refl stripped lifespan_run

served :
    (main environment (λ c k p. loaded) (pos 9070) []).1
    ≡ ok (record { port = pos 9070; options = some options })
unfolding main start_server load_tls_options verify_tls_material get_tls_options tls_options_of
    both_files readable_file read_env strip lstrip is_space
served = refl

main-Offers_example :
    (pos 9070 ≡ pos 9070)
    × Offers environment (λ c k p. loaded) (some options)
    × ((main environment (λ c k p. loaded) (pos 9070) []).0
        ≡ port_line (pos 9070) ∷ scheme_line (some options) ∷ keys_line (get_api_keys []) ∷ [])
main-Offers_example = main-Offers environment (λ c k p. loaded) (pos 9070) [] served
