-- ===== src/Tls/Laws.antt =====
-- app/tls.py: which configurations `get_tls_options` accepts.
use bulk_processing_service.Base.{
  Bool-cases, Option, Text, [], arith, codes, inl, inr, none, refl, some, sym, true, ◌++◌, ◌∷◌, ◌≡◌,
  ◌⊎◌,
}
use bulk_processing_service.Storage.{Error, Result, err, ok, value_error}
use bulk_processing_service.Tls.{
  Environment, TlsOptions, both_files, get_tls_options, points_to, read_env, readable_file,
  tls_options_of,
}
use bulk_processing_service.WeasyprintClient.{truthy}
use mathlib.Core.Path.{subst}

abbrev pub cert_of : Environment → Text → Text
cert_of env prefix = read_env env (prefix ++ codes "CERT_FILE")

abbrev pub key_of : Environment → Text → Text
key_of env prefix = read_env env (prefix ++ codes "KEY_FILE")

-- What both files need to be.
abbrev pub IsUsable : Environment → Text → Type 0
IsUsable env path = (env.is_file path ≡ true) × (env.is_readable path ≡ true)

readable_file_cases :
    (env : Environment) (path name : Text)
    → ((x : Error) × (readable_file env path name ≡ err x))
      ⊎ ((readable_file env path name ≡ ok path) × IsUsable env path)
unfolding readable_file
readable_file_cases env path name = elim (Bool-cases (env.is_file path)) [
  | inr absent ↦ inl (value_error (points_to name path (codes "is not a file")), ground arith)
  | inl there ↦ elim (Bool-cases (env.is_readable path)) [
    | inr shut ↦ inl (value_error (points_to name path (codes "cannot be read")), ground arith)
    | inl free ↦ inr (ground arith, (there, free))
  ]
]

-- The options name these two files, and both can be used.
abbrev pub Serves : Environment → Text → Text → TlsOptions → Type 0
Serves env cert key_path o =
    (o.ssl_certfile ≡ cert) × (o.ssl_keyfile ≡ key_path) × IsUsable env cert × IsUsable env key_path

-- What `get_tls_options` may return: nothing, where neither is named, or options that serve both.
abbrev Fits : Environment → Text → Text → Result (Option TlsOptions) → Type 0
Fits env cert key_path (ok none) = (cert ≡ []) × (key_path ≡ [])
Fits env cert key_path (ok (some o)) = Serves env cert key_path o
Fits env cert key_path (err e) = Unit

Fits-along :
    (env : Environment) (cert key_path : Text) {r r' : Result (Option TlsOptions)}
    → r' ≡ r
    → Fits env cert key_path r'
    → Fits env cert key_path r
Fits-along env cert key_path e x = subst (λ r. Fits env cert key_path r) e x

module _ (env : Environment) (prefix cert key_path : Text) where
  abbrev both : Result (Option TlsOptions)
  both = both_files env prefix cert key_path

  bad_cert :
      (x : Error) → readable_file env cert (prefix ++ codes "CERT_FILE") ≡ err x → both ≡ err x
  unfolding both_files
  bad_cert x e = ground arith

  bad_key :
      (x : Error)
      → readable_file env cert (prefix ++ codes "CERT_FILE") ≡ ok cert
      → readable_file env key_path (prefix ++ codes "KEY_FILE") ≡ err x
      → both ≡ err x
  unfolding both_files
  bad_key x e f = ground arith

  good_files :
      readable_file env cert (prefix ++ codes "CERT_FILE") ≡ ok cert
      → readable_file env key_path (prefix ++ codes "KEY_FILE") ≡ ok key_path
      → both
        ≡ ok (
            some (record {
              ssl_certfile = cert;
              ssl_keyfile = key_path;
              ssl_keyfile_password = truthy (env.value_of (prefix ++ codes "KEY_PASSWORD"));
            }))
  unfolding both_files
  good_files e f = ground arith

  both_files-Fits : Fits env cert key_path both
  both_files-Fits = elim (readable_file_cases env cert (prefix ++ codes "CERT_FILE")) [
    | inl (x, e) ↦ Fits-along env cert key_path (sym (bad_cert x e)) tt
    | inr (e, good) ↦ elim (readable_file_cases env key_path (prefix ++ codes "KEY_FILE")) [
      | inl (x, f) ↦ Fits-along env cert key_path (sym (bad_key x e f)) tt
      | inr (f, fine) ↦ Fits-along env cert key_path (sym (good_files e f)) (refl, refl, good, fine)
    ]
  ]

tls_options_of-Fits :
    (env : Environment) (prefix cert key_path : Text)
    → Fits env cert key_path (tls_options_of env prefix cert key_path)
unfolding tls_options_of
tls_options_of-Fits env prefix [] [] = (refl, refl)
tls_options_of-Fits env prefix [] (k ∷ ks) = tt
tls_options_of-Fits env prefix (c ∷ cs) [] = tt
tls_options_of-Fits env prefix (c ∷ cs) (k ∷ ks) = both_files-Fits env prefix (c ∷ cs) (k ∷ ks)

-- The configuration is accepted for plain HTTP only where neither a certificate nor a key is named;
-- where it is accepted for TLS, both are the named ones, and both are files that can be read.
pub get_tls_options_safe :
    (env : Environment) (prefix : Text) (o : Option TlsOptions)
    → get_tls_options env prefix ≡ ok o
    → ((o ≡ none) × (cert_of env prefix ≡ []) × (key_of env prefix ≡ []))
      ⊎ ((t : TlsOptions) × (o ≡ some t) × Serves env (cert_of env prefix) (key_of env prefix) t)
unfolding get_tls_options
get_tls_options_safe env prefix none e =
    let (no_cert, no_key) =
      Fits-along env (cert_of env prefix) (key_of env prefix) e
        (tls_options_of-Fits env prefix (cert_of env prefix) (key_of env prefix)) in
    inl (refl, no_cert, no_key)
get_tls_options_safe env prefix (some t) e = inr (
  t,
  refl,
  Fits-along env (cert_of env prefix) (key_of env prefix) e
      (tls_options_of-Fits env prefix (cert_of env prefix) (key_of env prefix)),
)
