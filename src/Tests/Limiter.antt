-- ===== src/Tests/Limiter.antt =====
-- apps/gateway/src/modules/events/events.routes.ts: a limit of two requests in a window of 1000.
use opencode_notify_hub.Shared.{ℕ, String, ◌≡◌, refl, true, List, [], ◌∷◌, arith, String-discrete}
use opencode_notify_hub.Shared.OrdMap.{get, set}
use opencode_notify_hub.Gateway.Limiter.{
  Bucket, VerifiedKeyRateLimiter, consume, current, retry_after,
}
use opencode_notify_hub.Gateway.Limiter.Windows.{allowed_count, allowed_count-open, consume-retry}

abbrev bucket : Bucket
bucket = record { window_start_ms = 500; count = 1 }

abbrev limiter : VerifiedKeyRateLimiter
limiter = record { buckets = ("a", bucket) ∷ []; max_count = 2; window_ms = 1000 }

second_key : (consume 600 "b" limiter).1 ≡ record { allowed = true; retry_after_seconds = 1 }
unfolding consume current retry_after get set String-discrete
second_key = refl

abbrev burst : List (ℕ × String)
burst = (600, "a") ∷ (650, "b") ∷ (700, "a") ∷ []

allowed_count-open_example : allowed_count "a" burst limiter ≡ 1
unfolding get String-discrete
allowed_count-open_example =
    allowed_count-open "a" bucket burst limiter refl (omega arith, (omega arith, (omega arith, tt)))

consume-retry_example : (consume 1600 "a" (consume 600 "a" limiter).0).1.allowed ≡ true
unfolding consume current retry_after get String-discrete
consume-retry_example = consume-retry 600 1600 "a" limiter (omega arith) (omega arith)
