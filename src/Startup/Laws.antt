-- ===== src/Startup/Laws.antt =====
-- app/application.py: what a server that is started serves.
use bulk_processing_service.Base.{
  Option, Text, [], ap, inl, inr, none, refl, some, sym, ◌∙◌, ◌∷◌, ◌≡◌, ◌⊎◌,
}
use bulk_processing_service.Auth.{get_api_keys}
use bulk_processing_service.Results.{>>=-eq-ok, ok_injective}
use bulk_processing_service.Startup.{
  ServerCall, announced, keys_line, main, port_line, scheme_line, start_server, tls_prefix,
}
use bulk_processing_service.Storage.{Result, err, ok}
use bulk_processing_service.Strings.Integer.{ℤ}
use bulk_processing_service.Tls.{Environment, TlsOptions, get_tls_options}
use bulk_processing_service.Tls.Laws.{Serves, cert_of, get_tls_options_safe, key_of}
use bulk_processing_service.Tls.Material.{
  ChainLoader, load_tls_options, load_tls_options_sound, loaded, verify_tls_material,
}

-- A successful load has the options of the configuration.
loaded_options :
    (env : Environment) (load : ChainLoader) (o : Option TlsOptions)
    → load_tls_options env load tls_prefix ≡ ok o
    → get_tls_options env tls_prefix ≡ ok o
unfolding load_tls_options
loaded_options env load o e =
    let (found, e1, e2) = >>=-eq-ok (get_tls_options env tls_prefix) _ e in
    let (_, e3, e4) = >>=-eq-ok (verify_tls_material load found tls_prefix) _ e2 in e1 ∙ e4

-- What a server is started with.
abbrev pub Offers : Environment → ChainLoader → Option TlsOptions → Type 0
Offers env load o =
    ((o ≡ none) × (cert_of env tls_prefix ≡ []) × (key_of env tls_prefix ≡ []))
    ⊎ ((t : TlsOptions) × (o ≡ some t)
        × Serves env (cert_of env tls_prefix) (key_of env tls_prefix) t
        × (load t.ssl_certfile t.ssl_keyfile t.ssl_keyfile_password ≡ loaded))

start_server-Offers :
    (env : Environment) (load : ChainLoader) (port : ℤ) {call : ServerCall}
    → start_server env load port ≡ ok call
    → (call.port ≡ port)
      × (get_tls_options env tls_prefix ≡ ok call.options)
      × Offers env load call.options
unfolding start_server
start_server-Offers env load port {call} e =
    let (o, e1, e2) = >>=-eq-ok (load_tls_options env load tls_prefix) _ e in
    let same = ok_injective e2 in
    let e3 = e1 ∙ ap (λ (c : ServerCall). ok c.options) same in
    let e4 = loaded_options env load call.options e3 in
    (
      ap (λ (c : ServerCall). c.port) (sym same),
      e4,
      elim (get_tls_options_safe env tls_prefix call.options e4) [
        | inl plain ↦ inl plain
        | inr (t, k, serves) ↦
            inr (t, k, serves, (load_tls_options_sound env load tls_prefix t (e3 ∙ ap ok k)).1)
      ],
    )

-- A server that is started listens on the configured port. It speaks plain HTTP only where neither a
-- certificate nor a key is configured, and else TLS with the configured files, which can be read
-- and were loaded together. The log says before which of the two it is, and whether a key is asked
-- for.
pub main-Offers :
    (env : Environment) (load : ChainLoader) (port : ℤ) (api_key : Text) {call : ServerCall}
    → (main env load port api_key).1 ≡ ok call
    → (call.port ≡ port)
      × Offers env load call.options
      × ((main env load port api_key).0
          ≡ port_line port ∷ scheme_line call.options ∷ keys_line (get_api_keys api_key) ∷ [])
unfolding main
main-Offers env load port api_key {call} e =
    go (get_tls_options env tls_prefix) refl (announced_ok (get_tls_options env tls_prefix) e)
  where
    announced_ok :
        (r : Result (Option TlsOptions))
        → (announced port api_key (start_server env load port) r).1 ≡ ok call
        → start_server env load port ≡ ok call
    announced_ok (err x) k = absurd cc
    announced_ok (ok o) k = k

    go :
        (r : Result (Option TlsOptions))
        → get_tls_options env tls_prefix ≡ r
        → start_server env load port ≡ ok call
        → (call.port ≡ port)
          × Offers env load call.options
          × ((announced port api_key (start_server env load port) r).0
              ≡ port_line port ∷ scheme_line call.options ∷ keys_line (get_api_keys api_key) ∷ [])
    go r k started =
        let (same_port, chosen, offers) = start_server-Offers env load port started in
        (
          same_port,
          offers,
          ap (λ q. (announced port api_key (start_server env load port) q).0) (sym k ∙ chosen),
        )
