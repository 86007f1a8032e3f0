-- ===== src/Gateway/Limiter.antt =====
-- apps/gateway/src/modules/events/events.routes.ts: the fixed-window limit of a verified key.
pub mod Windows
use opencode_notify_hub.Shared.{
  ℕ, ◌+◌, ◌-◌, ◌/◌, max, String, Bool, Option, none, some, leb, if◌then◌else◌,
}
use opencode_notify_hub.Shared.OrdMap.{OrdMap, get, set}

abbrev pub verified_limit_window_ms : ℕ
verified_limit_window_ms = 60000

pub record Bucket : Type 0 where
  pub window_start_ms : ℕ
  pub count : ℕ

pub record VerifiedKeyRateLimiter : Type 0 where
  pub buckets : OrdMap Bucket
  pub max_count : ℕ
  pub window_ms : ℕ

pub record Verdict : Type 0 where
  pub allowed : Bool
  pub retry_after_seconds : ℕ

-- The bucket that counts a request: a missing or old one is made anew.
unfoldable pub current : ℕ → ℕ → Option Bucket → Bucket
current window_ms now none = record { window_start_ms = now; count = 0 }
current window_ms now (some b) =
    if leb (b.window_start_ms + window_ms) now
    then record { window_start_ms = now; count = 0 }
    else b

-- `Math.ceil` of a thousandth, and at least one.
unfoldable pub retry_after : ℕ → ℕ → Bucket → ℕ
retry_after window_ms now b = max 1 ((b.window_start_ms + window_ms - now + 999) / 1000)

unfoldable pub consume : ℕ → String → VerifiedKeyRateLimiter → VerifiedKeyRateLimiter × Verdict
unfolding current retry_after
consume now key l =
    let bucket = current l.window_ms now (get key l.buckets) in
    let counted = record bucket { count = bucket.count + 1 } in
    (
      record l { buckets = set key counted l.buckets },
      record {
        allowed = leb counted.count l.max_count;
        retry_after_seconds = retry_after l.window_ms now counted;
      },
    )
