-- ===== src/Tests/Limits.antt =====
-- The body limit and the TLS options at concrete inputs.
use bulk_processing_service.Base.{
  Bytes, List, [], codes, false, if◌then◌else◌, length, ltb, none, refl, some, true, ◌++◌, ◌∷◌, ◌≡◌,
  ◌≤◌,
}
use bulk_processing_service.BodyLimit.{
  Message, forwarded, handle, read_body, request, too_large, with_length,
}
use bulk_processing_service.BodyLimit.Laws.{handle-IsBounded, handle-IsComplete, joined}
use bulk_processing_service.Storage.{ok}
use bulk_processing_service.Strings.{is_space, lstrip, strip}
use bulk_processing_service.Strings.Integer.{digits_from, parse_digits, parse_int, parse_signed}
use bulk_processing_service.Tls.{
  Environment, TlsOptions, both_files, get_tls_options, read_env, readable_file, tls_options_of,
}

abbrev two_chunks : List Message
two_chunks = request (1 ∷ 2 ∷ []) true ∷ request (3 ∷ []) false ∷ []

abbrev whole : Bytes
whole = 1 ∷ 2 ∷ 3 ∷ []

whole_run : handle 3 true (some (codes "3")) two_chunks ≡ forwarded whole []
unfolding handle with_length read_body parse_int parse_signed parse_digits digits_from strip lstrip
    is_space
whole_run = refl

handle-IsBounded_example :
    (length whole ≤ 3)
    × ((front : List Message) × (two_chunks ≡ front ++ []) × (whole ≡ joined front))
handle-IsBounded_example = handle-IsBounded 3 (some (codes "3")) two_chunks whole [] whole_run

handle-IsComplete_example :
    handle 2 true none two_chunks
    ≡ (if ltb 2 (length (joined two_chunks)) then too_large 2 else forwarded (joined two_chunks) [])
handle-IsComplete_example = handle-IsComplete 2 two_chunks refl

abbrev pub environment : Environment
environment = record {
  value_of = λ name. some (codes "/tls/" ++ name);
  is_file = λ path. true;
  is_readable = λ path. true;
}

abbrev pub options : TlsOptions
options = record {
  ssl_certfile = codes "/tls/TLS_CERT_FILE";
  ssl_keyfile = codes "/tls/TLS_KEY_FILE";
  ssl_keyfile_password = some (codes "/tls/TLS_KEY_PASSWORD");
}

tls_run : get_tls_options environment (codes "TLS_") ≡ ok (some options)
unfolding get_tls_options tls_options_of both_files readable_file read_env strip lstrip is_space
tls_run = refl
