-- ===== src/Plugin/Sender/Retries.antt =====
-- When sender.ts stops, and how often and long it waits before.
use opencode_notify_hub.Shared.{
  ℕ, zero, suc, ◌+◌, ◌≤◌, ◌<◌, ◌≡◌, refl, ap, ◌⊎◌, inl, inr, Option, none, some, List, ◌++◌, arith,
}
use opencode_notify_hub.Plugin.Sender.{
  GatewaySender, Detail, AttemptOutcome, ok, retryable, permanent, try_once, Ending, delivered,
  rejected, failed_after, sleeps_before, send_from, send_event, no_attempt,
}

-- The end that an attempt brings, if it brings one.
abbrev pub final : AttemptOutcome → Option Ending
final ok = some delivered
final (permanent detail) = some (rejected detail)
final (retryable detail) = none

-- The bounds of the sleeps before the attempts from `attempt` to `attempt + n`.
abbrev pub waits : GatewaySender → ℕ → ℕ → List ℕ
waits g attempt zero = sleeps_before g attempt
waits g attempt (suc n) = sleeps_before g attempt ++ waits g (attempt + 1) n

outcome-cases :
    (o : AttemptOutcome)
    → (o ≡ ok) ⊎ ((d : Detail) × (o ≡ permanent d)) ⊎ ((d : Detail) × (o ≡ retryable d))
outcome-cases ok = inl refl
outcome-cases (permanent d) = inr (inl (d, refl))
outcome-cases (retryable d) = inr (inr (d, refl))

zero_on_right : (a : ℕ) → a + 0 ≡ a
zero_on_right a = omega arith

zero_on_left : (a : ℕ) → 0 + a ≡ a
zero_on_left a = omega arith

one_over_suc : (a n : ℕ) → a + 1 + n ≡ a + suc n
one_over_suc a n = omega arith

one_over : (a i : ℕ) → a + 1 + i ≡ a + (i + 1)
one_over a i = omega arith

module _ (fetch : ℕ → Option ℕ) (g : GatewaySender) where
  send_from-final :
      (n left attempt : ℕ) (detail : Detail) (e : Ending)
      → n < left
      → ((i : ℕ) → i < n → final (try_once (fetch (attempt + i))) ≡ none)
      → final (try_once (fetch (attempt + n))) ≡ some e
      → send_from fetch g left attempt detail
        ≡ record { attempts = n + 1; sleeps = waits g attempt n; ending = e }
  unfolding send_from
  send_from-final n zero attempt detail e lt before now = ground arith
  send_from-final zero (suc left) attempt detail e lt before now =
      let here : final (try_once (fetch attempt)) ≡ some e =
        rw (ap fetch (zero_on_right attempt)) at now in
      elim (outcome-cases (try_once (fetch attempt))) [
        | inl good ↦ rw (good, send_from) (ground arith)
        | inr (inl (d, bad)) ↦ rw (bad, send_from) (ground arith)
        | inr (inr (d, again)) ↦ ground arith
      ]
  send_from-final (suc n) (suc left) attempt detail e lt before now =
      let here : final (try_once (fetch attempt)) ≡ none =
        let first = before 0 (omega arith) in rw (ap fetch (zero_on_right attempt)) at first in
      elim (outcome-cases (try_once (fetch attempt))) [
        | inl good ↦ ground arith
        | inr (inl (d, bad)) ↦ ground arith
        | inr (inr (d, again)) ↦
            rw (again, send_from)
              (rw
                (send_from-final n left (attempt + 1) d e (omega arith)
                  (λ i h. rw (ap fetch (one_over attempt i)) (before (i + 1) (omega arith)))
                  (rw (ap fetch (one_over_suc attempt n)) now))
                (ground arith))
      ]

  -- If the first attempt that is not retryable has a number n up to the maximum of retries, counted
  -- from 0, send makes n + 1 requests, ends as that attempt says (resolved, or rejected for good),
  -- and has slept once before each attempt but the first, the bounds of its sleeps being those of
  -- the backoff in their order.
  pub send_event-final :
      (n : ℕ) (e : Ending)
      → n ≤ g.max_retries
      → ((i : ℕ) → i < n → final (try_once (fetch i)) ≡ none)
      → final (try_once (fetch n)) ≡ some e
      → send_event fetch g ≡ record { attempts = n + 1; sleeps = waits g 0 n; ending = e }
  unfolding send_event
  send_event-final n e le before now =
      send_from-final n (g.max_retries + 1) 0 no_attempt e (omega arith)
        (λ i h. rw (ap fetch (zero_on_left i)) (before i h)) (rw (ap fetch (zero_on_left n)) now)

  send_from-never :
      (left attempt : ℕ) (detail : Detail)
      → ((i : ℕ) → i < left → final (try_once (fetch (attempt + i))) ≡ none)
      → ((send_from fetch g left attempt detail).attempts ≡ left)
        × ((d : Detail) × ((send_from fetch g left attempt detail).ending
              ≡ failed_after (g.max_retries + 1) d))
  unfolding send_from
  send_from-never zero attempt detail never = (refl, (detail, refl))
  send_from-never (suc left) attempt detail never =
      let first = never 0 (omega arith) in
      let here : final (try_once (fetch attempt)) ≡ none =
        rw (ap fetch (zero_on_right attempt)) at first in
      let rest = λ (d : Detail).
        send_from-never left (attempt + 1) d
          (λ i h. rw (ap fetch (one_over attempt i)) (never (i + 1) (omega arith))) in
      elim (outcome-cases (try_once (fetch attempt))) [
        | inl good ↦ ground arith
        | inr (inl (d, bad)) ↦ ground arith
        | inr (inr (d, again)) ↦
            rw (again, send_from) (omega (arith, (rest d).0), ((rest d).1.0, (rest d).1.1))
      ]

  -- If every attempt up to the maximum of retries is retryable, send makes one request more than
  -- that maximum and fails with the error that names their number.
  pub send_event-exhausted :
      ((i : ℕ) → i ≤ g.max_retries → final (try_once (fetch i)) ≡ none)
      → ((send_event fetch g).attempts ≡ g.max_retries + 1)
        × ((d : Detail) × ((send_event fetch g).ending ≡ failed_after (g.max_retries + 1) d))
  unfolding send_event
  send_event-exhausted never =
      send_from-never (g.max_retries + 1) 0 no_attempt
        (λ i h. rw (ap fetch (zero_on_left i)) (never i (omega arith)))
