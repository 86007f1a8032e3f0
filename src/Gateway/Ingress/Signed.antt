-- ===== src/Gateway/Ingress/Signed.antt =====
-- Which requests ingest-auth.ts accepts, and that the others leave no trace in the limiter.
use opencode_notify_hub.Shared.{
  ℕ, ◌+◌, ◌≤◌, ◌≡◌, refl, ap, ◌∙◌, ◌↔◌, ◌⊎◌, inl, inr, some, ◌∷◌, ◌++◌, arith, Option-cases,
}
use opencode_notify_hub.Gateway.Payload.Texts.{Text}
use opencode_notify_hub.Gateway.Limiter.{VerifiedKeyRateLimiter}
use opencode_notify_hub.Gateway.Ingress.{
  VerifiedIngestKey, IngestAuthInput, Lookup, store_fails, unknown, known, Keys, first_header_value,
  credential_of, secret_of, timestamp_ms, lookup_of, authenticate_ingest_request,
  service_unavailable, unauthorized, pre_validation,
}
use opencode_notify_hub.Gateway.Ingress.Format.{
  Presents, Secret, Decimal, Bearer, first_says, says_first, bearer_says, says_bearer,
  secret_of-Secret, Secret-unique, time_says, says_time,
}
use opencode_notify_hub.Gateway.Ingress.Checks.{Checked, accepts, accepted, fails}

-- A request whose first values are a bearer credential of a known key, a decimal time at most five
-- minutes from the clock, and the HMAC of that time, a dot and the body under the credential's secret.
pub record Signed (k : Keys) (now : ℕ) (input : IngestAuthInput) (key : VerifiedIngestKey)
    : Type 0 where
  pub credential : Text
  pub secret : Text
  pub timestamp : Text
  pub at : ℕ
  pub presented : Presents input.authorization (Bearer credential)
  pub is_known : k.verify credential ≡ known key
  pub has_secret : Secret credential secret
  pub timed : Presents input.timestamp timestamp
  pub reads : Decimal timestamp at
  pub exact : at ≤ 9007199254740991
  pub not_old : now ≤ at + 300000
  pub not_ahead : at ≤ now + 300000
  pub signed : Presents input.signature (k.hmac secret (timestamp ++ 46 ∷ input.raw_body))

-- The store of keys is asked for the bearer credential of the request, and fails.
abbrev pub Unavailable : Keys → IngestAuthInput → Type 0
Unavailable k input =
    (credential : Text) × Presents input.authorization (Bearer credential)
    × (k.verify credential ≡ store_fails)

Lookup-cases :
    (l : Lookup) → (l ≡ store_fails) ⊎ (l ≡ unknown) ⊎ ((key : VerifiedIngestKey) × (l ≡ known key))
Lookup-cases store_fails = inl refl
Lookup-cases unknown = inr (inl refl)
Lookup-cases (known key) = inr (inr (key, refl))

module _ (k : Keys) (now : ℕ) (input : IngestAuthInput) where
  authorized_by :
      (credential : Text)
      → credential_of (first_header_value input.authorization) ≡ some credential
      → Presents input.authorization (Bearer credential)
  authorized_by credential h = first_says input.authorization _ (bearer_says _ credential h)

  by_bearer :
      (credential : Text)
      → Presents input.authorization (Bearer credential)
      → credential_of (first_header_value input.authorization) ≡ some credential
  by_bearer credential h =
      ap credential_of (says_first input.authorization _ h) ∙ says_bearer credential

  signs : (key : VerifiedIngestKey) → Checked k now input key → Signed k now input key
  signs key h =
      let (timestamp, shown, reads) = time_says _ h.at h.timed in
      record {
        credential = h.credential;
        secret = secret_of (some h.credential);
        timestamp = timestamp;
        at = h.at;
        presented = authorized_by h.credential h.presented;
        is_known = h.is_known;
        has_secret = secret_of-Secret h.credential;
        timed = first_says input.timestamp timestamp shown;
        reads = reads;
        exact = h.exact;
        not_old = h.not_old;
        not_ahead = h.not_ahead;
        signed = first_says input.signature _ (rw shown at h.signed);
      }

  checks : (key : VerifiedIngestKey) → Signed k now input key → Checked k now input key
  checks key h =
      let shown = says_first input.timestamp h.timestamp h.timed in
      record {
        credential = h.credential;
        at = h.at;
        presented = by_bearer h.credential h.presented;
        is_known = h.is_known;
        timed = ap timestamp_ms shown ∙ says_time h.timestamp h.at h.reads;
        exact = h.exact;
        not_old = h.not_old;
        not_ahead = h.not_ahead;
        signed =
            rw (shown, Secret-unique h.credential h.secret h.has_secret)
              (says_first input.signature _ h.signed);
      }

  -- Authentication gives a key exactly if the first authorization value is "Bearer " and a
  -- credential that the store knows as that key, the first timestamp value is one or more decimal
  -- digits whose number is a safe integer and at most five minutes from the clock, and the first
  -- signature value is the HMAC of the timestamp, a dot and the body under the credential's secret:
  -- what follows the credential's first dot, or all of it when it has none.
  pub authenticate_ingest_request-Signed :
      (key : VerifiedIngestKey)
      → (authenticate_ingest_request k now input ≡ known key) ↔ Signed k now input key
  authenticate_ingest_request-Signed key =
      (λ h. signs key (accepts k now input key h), λ h. accepted k now input key (checks key h))

  asked : lookup_of k input ≡ store_fails → Unavailable k input
  unfolding lookup_of
  asked h = elim (Option-cases (credential_of (first_header_value input.authorization))) [
    | inl missing ↦
        let no = (rw (missing, lookup_of) at h) in let f : ⊥ = ground arith in elim f [ ]
    | inr (credential, is) ↦ (credential, authorized_by credential is, rw (is, lookup_of) at h)
  ]

  answered : Unavailable k input → lookup_of k input ≡ store_fails
  unfolding lookup_of
  answered (credential, presented, no_answer) =
      rw (by_bearer credential presented, lookup_of) no_answer

  -- A request that is signed for no key leaves the limiter as it is. It is answered as unavailable
  -- if it presents a bearer credential for which the store of keys fails, and as unauthorized if
  -- not.
  pub pre_validation_unsigned :
      (l : VerifiedKeyRateLimiter)
      → ((key : VerifiedIngestKey) → ¬ (Signed k now input key))
      → ((pre_validation k now input l).0 ≡ l)
        × ((Unavailable k input × ((pre_validation k now input l).1 ≡ service_unavailable))
            ⊎ (¬ (Unavailable k input) × ((pre_validation k now input l).1 ≡ unauthorized)))
  unfolding pre_validation
  pre_validation_unsigned l none_signed =
      elim (Lookup-cases (authenticate_ingest_request k now input)) [
        | inl fails_now ↦
            rw (fails_now, pre_validation)
              (refl, inl (asked ((fails k now input).0 fails_now), refl))
        | inr (inl strange) ↦
            rw (strange, pre_validation)
              (
                refl,
                inr (λ down. let no = (fails k now input).1 (answered down) in ground arith, refl),
              )
        | inr (inr (key, is)) ↦ elim (none_signed key (signs key (accepts k now input key is))) [ ]
      ]
