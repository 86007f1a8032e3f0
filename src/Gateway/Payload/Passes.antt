-- ===== src/Gateway/Payload/Passes.antt =====
-- The passes of payload.ts in order, and which one its loop returns.
use opencode_notify_hub.Shared.{
  ℕ, zero, suc, ◌+◌, ◌-◌, ◌≤◌, ◌≡◌, refl, ap, ◌∙◌, inl, inr, Bool, true, false, List, [], ◌∷◌, map,
  arith, leb, Bool-cases, keep,
}
use opencode_notify_hub.Gateway.Payload.Event.{
  NotifyEvent, PushContent, CompactionCaps, Host, initial_caps, compact_event,
}
use opencode_notify_hub.Gateway.Payload.Loop.{
  halve, is_floor, fcm_message_budget_bytes, Built, fits, too_large, passes,
}
use opencode_notify_hub.Gateway.Payload.Display.{content_of, measure_message}

abbrev pub caps_at : ℕ → CompactionCaps
caps_at zero = initial_caps
caps_at (suc n) = halve (caps_at n)

-- The event as the pass sends it: whole at first, compacted afterwards.
abbrev pub candidate_at : NotifyEvent → ℕ → NotifyEvent
candidate_at e zero = e
candidate_at e (suc n) = compact_event e (caps_at (suc n))

abbrev pub content_at : Host → NotifyEvent → ℕ → PushContent
content_at h e n = content_of h (candidate_at e n) (caps_at n)

abbrev pub within_budget : Host → PushContent → Bool
within_budget h c = leb (measure_message h c) fcm_message_budget_bytes

-- The first content of those that are within the budget.
abbrev pub first_of : List PushContent → Built
first_of [] = too_large
first_of (c ∷ cs) = fits c

-- As many numbers from `n` on, and one more.
abbrev pub from : ℕ → ℕ → List ℕ
from n zero = n ∷ []
from n (suc left) = n ∷ from (suc n) left

abbrev pub nine : List ℕ
nine = from 0 8

abbrev more : ℕ → ℕ → ℕ
more zero k = k
more (suc n) k = suc (more n k)

more_is : (n k : ℕ) → more n k ≡ n + k
more_is zero k = omega arith
more_is (suc n) k = omega (arith, more_is n k)

module _ (h : Host) (e : NotifyEvent) where
  abbrev pub best : List ℕ → Built
  best ns = first_of (keep (within_budget h) (map (content_at h e) ns))

  goes_on :
      (fuel n : ℕ) (ns : List ℕ)
      → is_floor (caps_at n) ≡ false
      → passes h fuel e (caps_at (suc n)) (candidate_at e (suc n)) ≡ best ns
      → passes h (suc fuel) e (caps_at n) (candidate_at e n) ≡ best (n ∷ ns)
  unfolding passes
  goes_on fuel n ns above rest = elim (Bool-cases (within_budget h (content_at h e n))) [
    | inl small ↦ rw small refl
    | inr large ↦ rw (large, above) rest
  ]

  ends :
      (fuel n : ℕ)
      → is_floor (caps_at n) ≡ true
      → passes h (suc fuel) e (caps_at n) (candidate_at e n) ≡ best (n ∷ [])
  unfolding passes
  ends fuel n floor = elim (Bool-cases (within_budget h (content_at h e n))) [
    | inl small ↦ rw small refl
    | inr large ↦ rw (large, floor) refl
  ]

  chain : (k : ℕ) → passes h (more 9 k) e initial_caps e ≡ best nine
  chain k = goes_on (more 8 k) 0 (from 1 7) refl (
      goes_on (more 7 k) 1 (from 2 6) refl (
        goes_on (more 6 k) 2 (from 3 5) refl (
          goes_on (more 5 k) 3 (from 4 4) refl (
            goes_on (more 4 k) 4 (from 5 3) refl (
              goes_on (more 3 k) 5 (from 6 2) refl (
                goes_on (more 2 k) 6 (from 7 1) refl
                  (goes_on (more 1 k) 7 (from 8 0) refl (ends k 8 refl))))))))

  -- With fuel for nine passes or more, the loop of buildPushContent never runs out: it returns the
  -- first of the nine passes' contents that is within the budget, and too large if none is.
  pub passes-best :
      (fuel : ℕ)
      → 9 ≤ fuel
      → passes h fuel e initial_caps e
        ≡ first_of (keep (within_budget h) (map (content_at h e) nine))
  passes-best fuel enough =
      let same : fuel ≡ more 9 (fuel - 9) = omega (arith, more_is 9 (fuel - 9)) in
      ap (λ (f : ℕ). passes h f e initial_caps e) same ∙ chain (fuel - 9)
