-- ===== src/Tests/Ingress.antt =====
-- apps/gateway/src/modules/events/ingest-auth.ts: a signed request, and one whose time is old.
use opencode_notify_hub.Shared.{◌≡◌, refl, ap, ◌∙◌, ◌↔◌, ◌⊎◌, some, [], ◌∷◌, ◌++◌, arith}
use opencode_notify_hub.Gateway.Limiter.{VerifiedKeyRateLimiter}
use opencode_notify_hub.Gateway.Ingress.{
  VerifiedIngestKey, IngestAuthInput, one, several, known, store_fails, Keys, bearer,
  authenticate_ingest_request, pre_validation, unauthorized, service_unavailable,
  first_header_value, credential_of, after_prefix, secret_of, timestamp_ms, timestamp_ok,
  signature_ok, expected_ingest_signature, lookup_of,
}
use opencode_notify_hub.Gateway.Ingress.Format.{says_time}
use opencode_notify_hub.Gateway.Ingress.Signed.{
  Signed, Unavailable, authenticate_ingest_request-Signed, pre_validation_unsigned,
}

abbrev a_key : VerifiedIngestKey
a_key = record { key_id = "k"; user_id = "u" }

abbrev keys : Keys
keys = record { hmac = λ secret s. secret ++ s; verify = λ credential. known a_key }

-- "k.s" at "5", whose signature is that of the secret "s" and of "5.b".
abbrev request : IngestAuthInput
request = record {
  authorization = several ((bearer ++ 107 ∷ 46 ∷ 115 ∷ []) ∷ []);
  timestamp = one (53 ∷ []);
  signature = one (115 ∷ 53 ∷ 46 ∷ 98 ∷ []);
  raw_body = 98 ∷ [];
}

is_accepted : authenticate_ingest_request keys 9 request ≡ known a_key
unfolding authenticate_ingest_request first_header_value credential_of after_prefix secret_of
    timestamp_ms timestamp_ok signature_ok expected_ingest_signature lookup_of
is_accepted = refl

authenticate_ingest_request-Signed_example :
    (authenticate_ingest_request keys 9 request ≡ known a_key) ↔ Signed keys 9 request a_key
authenticate_ingest_request-Signed_example = authenticate_ingest_request-Signed keys 9 request a_key

abbrev limiter : VerifiedKeyRateLimiter
limiter = record { buckets = []; max_count = 240; window_ms = 60000 }

is_old : (key : VerifiedIngestKey) → ¬ (Signed keys 400000 request key)
unfolding timestamp_ms
is_old key h =
    let read = says_time h.timestamp h.at h.reads in
    let shown : timestamp_ms (some (53 ∷ [])) ≡ some h.at =
      ap (λ s. timestamp_ms (some s)) h.timed ∙ read in
    let not_old = h.not_old in ground arith

pre_validation_unsigned_example :
    ((pre_validation keys 400000 request limiter).0 ≡ limiter)
    × ((Unavailable keys request
          × ((pre_validation keys 400000 request limiter).1 ≡ service_unavailable))
        ⊎ (¬ (Unavailable keys request)
            × ((pre_validation keys 400000 request limiter).1 ≡ unauthorized)))
pre_validation_unsigned_example = pre_validation_unsigned keys 400000 request limiter is_old

abbrev no_store : Keys
no_store = record { hmac = keys.hmac; verify = λ credential. store_fails }

is_down : (pre_validation no_store 9 request limiter).1 ≡ service_unavailable
unfolding pre_validation authenticate_ingest_request first_header_value credential_of after_prefix
    lookup_of
is_down = refl
