-- ===== src/Tls/Material.antt =====
-- app/tls.py: `verify_tls_material` and `load_tls_options`, which the server start uses.
use bulk_processing_service.Base.{Option, Text, ap, codes, none, refl, some, sym, ◌++◌, ◌∙◌, ◌≡◌}
use bulk_processing_service.Results.{>>=-eq-ok, ok_injective, ◌>>=◌}
use bulk_processing_service.Storage.{None, Result, err, ok, other_error, value_error}
use bulk_processing_service.Tls.{Environment, TlsOptions, get_tls_options}

-- What `load_cert_chain` of a new context does with the certificate, the key and the password: it
-- returns, or raises an `OSError` with its text, or anything else.
pub data Loading : Type 0 where
  loaded : Loading
  os_failure : Text → Loading
  other_failure : Loading

abbrev pub ChainLoader : Type 0
ChainLoader = Text → Text → Option Text → Loading

abbrev pub mismatch_message : Text → Text → Text
mismatch_message prefix why =
    prefix
    ++ (codes "CERT_FILE and " ++ (prefix ++ (codes "KEY_FILE do not load together: " ++ why)))

abbrev pub checked_loading : Text → Loading → Result None
checked_loading prefix loaded = ok tt
checked_loading prefix (os_failure why) = err (value_error (mismatch_message prefix why))
checked_loading prefix other_failure = err other_error

-- `verify_tls_material`
unfoldable pub verify_tls_material : ChainLoader → Option TlsOptions → Text → Result None
verify_tls_material load none prefix = ok tt
verify_tls_material load (some options) prefix =
    checked_loading prefix
      (load options.ssl_certfile options.ssl_keyfile options.ssl_keyfile_password)

-- `load_tls_options`
unfoldable pub load_tls_options : Environment → ChainLoader → Text → Result (Option TlsOptions)
load_tls_options env load prefix = get_tls_options env prefix >>= λ options.
    verify_tls_material load options prefix >>= λ _. ok options

checked_loading-loaded :
    (prefix : Text) (l : Loading) → checked_loading prefix l ≡ ok tt → l ≡ loaded
checked_loading-loaded prefix loaded e = refl
checked_loading-loaded prefix (os_failure why) e = cc
checked_loading-loaded prefix other_failure e = cc

-- Options that the server starts with are those of the configuration, and their certificate and
-- key did load together.
pub load_tls_options_sound :
    (env : Environment) (load : ChainLoader) (prefix : Text) (options : TlsOptions)
    → load_tls_options env load prefix ≡ ok (some options)
    → (get_tls_options env prefix ≡ ok (some options))
      × (load options.ssl_certfile options.ssl_keyfile options.ssl_keyfile_password ≡ loaded)
unfolding load_tls_options verify_tls_material
load_tls_options_sound env load prefix options e =
    let (found, e1, e2) = >>=-eq-ok (get_tls_options env prefix) _ e in
    let (_, e3, e4) = >>=-eq-ok (verify_tls_material load found prefix) _ e2 in
    let same = ok_injective e4 in
    (
      e1 ∙ ap ok same,
      checked_loading-loaded prefix _ (sym (ap (λ o. verify_tls_material load o prefix) same) ∙ e3),
    )
