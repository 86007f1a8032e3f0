-- ===== src/Gateway/Ingress/Checks.antt =====
-- When the checks of ingest-auth.ts let a request pass, and when its lookup of the key fails.
use opencode_notify_hub.Shared.{
  ℕ, ◌+◌, ◌≤◌, ◌≡◌, refl, sym, ap, ◌∙◌, ◌↔◌, inl, inr, true, not, ◌||◌, Option, none, some, [], ◌∷◌,
  ◌++◌, arith, if◌then◌else◌, or_else, Bool-cases, Option-cases,
}
use opencode_notify_hub.Gateway.Payload.Texts.{Text}
use opencode_notify_hub.Gateway.Ingress.{
  VerifiedIngestKey, IngestAuthInput, Lookup, store_fails, unknown, known, Keys, first_header_value,
  same_text, credential_of, secret_of, timestamp_ms, timestamp_ok, expected_ingest_signature,
  signature_ok, lookup_of, authenticate_ingest_request, ingest_timestamp_tolerance_ms,
  max_safe_integer,
}

pub same_text_eq : (s t : Text) → same_text s t ≡ true → s ≡ t
same_text_eq [] [] h = refl
same_text_eq [] (b ∷ t) h = ground arith
same_text_eq (a ∷ s) [] h = ground arith
same_text_eq (a ∷ s) (b ∷ t) h = ground (arith, same_text_eq s t)

same_text_refl : (s : Text) → same_text s s ≡ true
same_text_refl [] = refl
same_text_refl (a ∷ s) = ground (arith, same_text_refl s)

-- A request that passes every check, in the code's own terms.
pub record Checked (k : Keys) (now : ℕ) (input : IngestAuthInput) (key : VerifiedIngestKey)
    : Type 0 where
  pub credential : Text
  pub at : ℕ
  pub presented : credential_of (first_header_value input.authorization) ≡ some credential
  pub is_known : k.verify credential ≡ known key
  pub timed : timestamp_ms (first_header_value input.timestamp) ≡ some at
  pub exact : at ≤ max_safe_integer
  pub not_old : now ≤ at + ingest_timestamp_tolerance_ms
  pub not_ahead : at ≤ now + ingest_timestamp_tolerance_ms
  pub signed :
      first_header_value input.signature
      ≡ some (
          k.hmac
            (secret_of (some credential))
            (or_else (first_header_value input.timestamp) [] ++ 46 ∷ input.raw_body))

module _ (k : Keys) (now : ℕ) (input : IngestAuthInput) where
  from_time :
      (t : Option ℕ)
      → timestamp_ok now t ≡ true
      → (at : ℕ) × (t ≡ some at)
        × (at ≤ max_safe_integer)
        × (now ≤ at + ingest_timestamp_tolerance_ms)
        × (at ≤ now + ingest_timestamp_tolerance_ms)
  unfolding timestamp_ok
  from_time none h = let no : ⊥ = ground arith in elim no [ ]
  from_time (some at) h = (at, refl, ground arith, ground arith, ground arith)

  to_time :
      (at : ℕ)
      → at ≤ max_safe_integer
      → now ≤ at + ingest_timestamp_tolerance_ms
      → at ≤ now + ingest_timestamp_tolerance_ms
      → timestamp_ok now (some at) ≡ true
  unfolding timestamp_ok
  to_time at exact not_old not_ahead = ground arith

  unfoldable gate : Lookup → Lookup
  gate store_fails = store_fails
  gate unknown = unknown
  gate (known key) =
      if not (timestamp_ok now (timestamp_ms (first_header_value input.timestamp)))
        || not (signature_ok k input)
      then unknown
      else known key

  gate_is : authenticate_ingest_request k now input ≡ gate (lookup_of k input)
  unfolding authenticate_ingest_request gate
  gate_is =
      elim (lookup_of k input)
        as (λ l.
          (elim l [
            | store_fails ↦ store_fails
            | unknown ↦ unknown
            | known key ↦
                if not (timestamp_ok now (timestamp_ms (first_header_value input.timestamp)))
                  || not (signature_ok k input)
                then unknown
                else known key
          ])
          ≡ gate l) [ store_fails ↦ refl | unknown ↦ refl | known key ↦ refl ]

  passes_gate :
      (l : Lookup) (key : VerifiedIngestKey)
      → gate l ≡ known key
      → (l ≡ known key)
        × (timestamp_ok now (timestamp_ms (first_header_value input.timestamp)) ≡ true)
        × (signature_ok k input ≡ true)
  unfolding gate
  passes_gate store_fails key h = let no : ⊥ = ground arith in elim no [ ]
  passes_gate unknown key h = let no : ⊥ = ground arith in elim no [ ]
  passes_gate (known other) key h =
      elim (Bool-cases (timestamp_ok now (timestamp_ms (first_header_value input.timestamp)))) [
        | inr late ↦ let no = (rw late at h) in let f : ⊥ = ground arith in elim f [ ]
        | inl timely ↦ elim (Bool-cases (signature_ok k input)) [
          | inr forged ↦
              let no = (rw (timely, forged) at h) in let f : ⊥ = ground arith in elim f [ ]
          | inl signs ↦ (rw (timely, signs) at h, timely, signs)
        ]
      ]

  closed : gate store_fails ≡ store_fails
  unfolding gate
  closed = refl

  fails_gate : (l : Lookup) → gate l ≡ store_fails → l ≡ store_fails
  unfolding gate
  fails_gate store_fails h = refl
  fails_gate unknown h = h
  fails_gate (known key) h =
      elim (Bool-cases (
        not (timestamp_ok now (timestamp_ms (first_header_value input.timestamp)))
        || not (signature_ok k input))) [
          | inl refuses ↦ let no = (rw refuses at h) in let f : ⊥ = ground arith in elim f [ ]
          | inr lets ↦ let no = (rw lets at h) in let f : ⊥ = ground arith in elim f [ ]
        ]

  passing :
      (key : VerifiedIngestKey)
      → lookup_of k input ≡ known key
      → timestamp_ok now (timestamp_ms (first_header_value input.timestamp)) ≡ true
      → signature_ok k input ≡ true
      → gate (lookup_of k input) ≡ known key
  unfolding gate
  passing key looked timely signs = rw (looked, gate) (rw (timely, signs) refl)

  signed_of :
      signature_ok k input ≡ true
      → first_header_value input.signature
        ≡ some (
            k.hmac
              (secret_of (credential_of (first_header_value input.authorization)))
              (or_else (first_header_value input.timestamp) [] ++ 46 ∷ input.raw_body))
  unfolding signature_ok expected_ingest_signature
  signed_of h = elim (Option-cases (first_header_value input.signature)) [
    | inl missing ↦
        let no = (rw (missing, signature_ok) at h) in let f : ⊥ = ground arith in elim f [ ]
    | inr (signature, there) ↦
        there ∙ ap some (sym (same_text_eq _ signature (rw (there, signature_ok) at h)))
  ]

  pub accepts :
      (key : VerifiedIngestKey)
      → authenticate_ingest_request k now input ≡ known key
      → Checked k now input key
  unfolding authenticate_ingest_request lookup_of signature_ok expected_ingest_signature
  accepts key h =
      let (looked, timely, signs) = passes_gate (lookup_of k input) key (sym gate_is ∙ h) in
      let (at, timed, exact, not_old, not_ahead) =
        from_time (timestamp_ms (first_header_value input.timestamp)) timely in
      elim (Option-cases (credential_of (first_header_value input.authorization))) [
        | inl missing ↦
            let no = (rw (missing, lookup_of) at looked) in let f : ⊥ = ground arith in elim f [ ]
        | inr (credential, presented) ↦ record {
          credential = credential;
          at = at;
          presented = presented;
          is_known = rw (presented, lookup_of) at looked;
          timed = timed;
          exact = exact;
          not_old = not_old;
          not_ahead = not_ahead;
          signed = rw presented at (signed_of signs);
        }
      ]

  pub accepted :
      (key : VerifiedIngestKey)
      → Checked k now input key
      → authenticate_ingest_request k now input ≡ known key
  unfolding authenticate_ingest_request lookup_of signature_ok expected_ingest_signature
  accepted key h =
      let looked : lookup_of k input ≡ known key = rw (h.presented, lookup_of) h.is_known in
      let timely : timestamp_ok now (timestamp_ms (first_header_value input.timestamp)) ≡ true =
        rw h.timed (to_time h.at h.exact h.not_old h.not_ahead) in
      let signs : signature_ok k input ≡ true =
        rw (h.signed, signature_ok)
          (rw h.presented (
            same_text_refl (
              k.hmac (secret_of (some h.credential))
                (or_else (first_header_value input.timestamp) [] ++ 46 ∷ input.raw_body)))) in
      gate_is ∙ passing key looked timely signs

  pub fails :
      (authenticate_ingest_request k now input ≡ store_fails) ↔ (lookup_of k input ≡ store_fails)
  fails = (λ h. fails_gate (lookup_of k input) (sym gate_is ∙ h), λ h. gate_is ∙ ap gate h ∙ closed)
