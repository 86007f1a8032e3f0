-- ===== src/Gateway/Ingress.antt =====
-- apps/gateway/src/modules/events/ingest-auth.ts and the hooks of events.routes.ts: who may post an
-- event. A text is its code points; the HMAC and the store of keys are parameters. A header is absent,
-- one value or several.
pub mod Format
pub mod Checks
pub mod Signed
use opencode_notify_hub.Shared.{
  ℕ, ◌+◌, ◌-◌, ◌*◌, String, Bool, true, false, not, ◌&&◌, ◌||◌, Option, none, some, List, [], ◌∷◌,
  ◌++◌, leb, ◌==◌, if◌then◌else◌, or_else,
}
use opencode_notify_hub.Gateway.Payload.Texts.{Text}
use opencode_notify_hub.Gateway.Limiter.{VerifiedKeyRateLimiter, Verdict, consume}

abbrev pub ingest_timestamp_tolerance_ms : ℕ
ingest_timestamp_tolerance_ms = 5 * 60 * 1000

abbrev pub max_safe_integer : ℕ
max_safe_integer = 9007199254740991

pub record VerifiedIngestKey : Type 0 where
  pub key_id : String
  pub user_id : String

pub data Header : Type 0 where
  absent : Header
  one : Text → Header
  several : List Text → Header

pub record IngestAuthInput : Type 0 where
  pub authorization : Header
  pub timestamp : Header
  pub signature : Header
  pub raw_body : Text

pub data Lookup : Type 0 where
  store_fails unknown : Lookup
  known : VerifiedIngestKey → Lookup

pub record Keys : Type 0 where
  -- The hex HMAC-SHA256 of a text under a secret.
  pub hmac : Text → Text → Text
  pub verify : Text → Lookup

unfoldable pub first_header_value : Header → Option Text
first_header_value absent = none
first_header_value (one s) = some s
first_header_value (several []) = none
first_header_value (several (s ∷ ss)) = some s

abbrev pub same_text : Text → Text → Bool
same_text [] [] = true
same_text (a ∷ s) (b ∷ t) = (a == b) && same_text s t
same_text _ _ = false

-- "Bearer "
abbrev pub bearer : Text
bearer = 66 ∷ 101 ∷ 97 ∷ 114 ∷ 101 ∷ 114 ∷ 32 ∷ []

-- `startsWith` and the `slice` after it.
unfoldable pub after_prefix : Text → Text → Option Text
after_prefix [] s = some s
after_prefix (a ∷ p) [] = none
after_prefix (a ∷ p) (b ∷ s) = let rest = after_prefix p s in if a == b then rest else none

unfoldable pub credential_of : Option Text → Option Text
unfolding after_prefix
credential_of none = none
credential_of (some authorization) = after_prefix bearer authorization

-- `slice(indexOf(".") + 1)`: all of it when there is no dot.
abbrev pub after_dot : Text → Option Text
after_dot [] = none
after_dot (c ∷ cs) = let rest = after_dot cs in if c == 46 then some cs else rest

unfoldable pub secret_of : Option Text → Text
secret_of none = []
secret_of (some credential) = or_else (after_dot credential) credential

abbrev pub is_digit : ℕ → Bool
is_digit c = leb 48 c && leb c 57

abbrev pub all_digits : Text → Bool
all_digits [] = true
all_digits (c ∷ cs) = is_digit c && all_digits cs

abbrev pub number_from : ℕ → Text → ℕ
number_from n [] = n
number_from n (c ∷ cs) = number_from (n * 10 + (c - 48)) cs

-- `/^\d+$/` and `Number`.
unfoldable pub timestamp_ms : Option Text → Option ℕ
timestamp_ms none = none
timestamp_ms (some []) = none
timestamp_ms (some (c ∷ cs)) = if all_digits (c ∷ cs) then some (number_from 0 (c ∷ cs)) else none

unfoldable pub timestamp_ok : ℕ → Option ℕ → Bool
timestamp_ok now none = false
timestamp_ok now (some at) =
    leb at max_safe_integer && leb ((now - at) + (at - now)) ingest_timestamp_tolerance_ms

module _ (k : Keys) where
  unfoldable pub expected_ingest_signature : Text → Text → Text → Text
  expected_ingest_signature secret timestamp raw_body = k.hmac secret (timestamp ++ 46 ∷ raw_body)

  unfoldable pub signature_ok : IngestAuthInput → Bool
  unfolding first_header_value credential_of secret_of expected_ingest_signature
  signature_ok input = elim (first_header_value input.signature) [
    | none ↦ false
    | some signature ↦
        same_text
          (expected_ingest_signature
            (secret_of (credential_of (first_header_value input.authorization)))
            (or_else (first_header_value input.timestamp) []) input.raw_body)
          signature
  ]

  unfoldable pub lookup_of : IngestAuthInput → Lookup
  unfolding first_header_value credential_of
  lookup_of input = elim (credential_of (first_header_value input.authorization)) [
    | none ↦ unknown
    | some credential ↦ k.verify credential
  ]

  -- `authenticateIngestRequest`: the store is asked whatever the other checks say.
  unfoldable pub authenticate_ingest_request : ℕ → IngestAuthInput → Lookup
  unfolding lookup_of signature_ok timestamp_ok timestamp_ms first_header_value
  authenticate_ingest_request now input = elim (lookup_of input) [
    | store_fails ↦ store_fails
    | unknown ↦ unknown
    | known key ↦
        if not (timestamp_ok now (timestamp_ms (first_header_value input.timestamp)))
          || not (signature_ok input)
        then unknown
        else known key
  ]

pub data Admission : Type 0 where
  service_unavailable unauthorized : Admission
  rate_limited : ℕ → Admission
  admitted : VerifiedIngestKey → Admission

-- The `preValidation` hook.
unfoldable pub pre_validation :
    Keys → ℕ → IngestAuthInput → VerifiedKeyRateLimiter → VerifiedKeyRateLimiter × Admission
unfolding authenticate_ingest_request consume
pre_validation k now input l = elim (authenticate_ingest_request k now input) [
  | store_fails ↦ (l, service_unavailable)
  | unknown ↦ (l, unauthorized)
  | known key ↦
      let counted = consume now key.key_id l in
      (
        counted.0,
        if not counted.1.allowed then rate_limited counted.1.retry_after_seconds else admitted key,
      )
]
