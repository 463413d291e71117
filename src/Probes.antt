-- ===== src/Probes.antt =====
-- app/app.py: the probes `/health` and `/ready`. `time.monotonic` counts microseconds. The file
-- operations on the storage directory and the request to WeasyPrint are parameters.
pub mod Laws
use bulk_processing_service.Base.{
  Bool, Option, Text, codes, eqb, if◌then◌else◌, ltb, nat_eq, none, not, some, text_eq, ℕ, ◌&&◌,
  ◌++◌, ◌+◌, ◌==◌,
}
use bulk_processing_service.Controller.{url_or_default}
use bulk_processing_service.Results.{◌>>=◌}
use bulk_processing_service.Storage.{
  None, Result, err, key_error, ok, os_error, other_error, value_error,
}
use bulk_processing_service.WeasyprintClient.{truthy}

-- How the operations on the file of the probe end.
pub record FileProbe : Type 0 where
  pub mkdir : Result None
  pub write_text : Result None
  pub unlink : Result None

abbrev pub written : Result None → Result Text
written (ok _) = ok (codes "writable")
written (err os_error) = ok (codes "unwritable")
written (err e) = err e

-- `finally`, with `contextlib.suppress(OSError)`
abbrev pub after_unlink : Result None → Result Text → Result Text
after_unlink (err (key_error k)) r = err (key_error k)
after_unlink (err (value_error k)) r = err (value_error k)
after_unlink (err other_error) r = err other_error
after_unlink _ r = r

-- `_check_storage_writable`
unfoldable pub check_storage_writable : FileProbe → Result Text
check_storage_writable probe =
    after_unlink probe.unlink (written (probe.mkdir >>= λ _. probe.write_text))

-- `_weasyprint_status`
pub record WeasyprintStatus : Type 0 where
  pub checked_at : ℕ
  pub cached : Text

abbrev pub cache_ttl : ℕ
cache_ttl = 5000000

-- The result of a request, by the status code of its response.
unfoldable pub reachable : Result ℕ → Text
reachable (ok code) = if code == 200 then codes "available" else codes "unavailable"
reachable (err e) = codes "unavailable"

-- `checked_at and now - checked_at < _WEASYPRINT_HEALTH_CACHE_TTL`
abbrev pub is_fresh : ℕ → WeasyprintStatus → Bool
is_fresh now status = not (eqb status.checked_at 0) && ltb now (status.checked_at + cache_ttl)

-- `_check_weasyprint_reachable`, with the response that a request gets now.
unfoldable pub check_weasyprint_reachable :
    ℕ → Result ℕ → WeasyprintStatus → Text × WeasyprintStatus
check_weasyprint_reachable now response status =
    let found = reachable response in
    if is_fresh now status
    then (status.cached, status)
    else (found, record { checked_at = now; cached = found })

-- The address that is asked.
unfoldable pub version_url : Option Text → Text
version_url service_url = url_or_default (truthy service_url) ++ codes "/version"

-- The response of a probe: its status code and the fields of its body.
pub record ProbeResponse : Type 0 where
  pub status_code : ℕ
  pub status : Text
  pub storage : Text
  pub weasyprint : Option Text

abbrev pub is_writable : Text → Bool
is_writable storage = storage == codes "writable"

-- `health`
unfoldable pub health : FileProbe → Result ProbeResponse
health probe = check_storage_writable probe >>= λ storage. ok (record {
  status_code = if is_writable storage then 200 else 503;
  status = if is_writable storage then codes "healthy" else codes "unhealthy";
  storage = storage;
  weasyprint = none;
})

abbrev pub is_ready : Text → Text → Bool
is_ready storage weasyprint = is_writable storage && weasyprint == codes "available"

abbrev pub readiness : Text → Text → ProbeResponse
readiness storage weasyprint = record {
  status_code = if is_ready storage weasyprint then 200 else 503;
  status = if is_ready storage weasyprint then codes "ready" else codes "not ready";
  storage = storage;
  weasyprint = some weasyprint;
}

-- `ready`: where the storage cannot be checked, WeasyPrint is not asked.
unfoldable pub ready :
    FileProbe → ℕ → Result ℕ → WeasyprintStatus → Result ProbeResponse × WeasyprintStatus
ready probe now response status = elim (check_storage_writable probe) [
  | err e ↦ (err e, status)
  | ok storage ↦
      let (weasyprint, status') = check_weasyprint_reachable now response status in
      (ok (readiness storage weasyprint), status')
]
