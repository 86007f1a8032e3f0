-- ===== src/Gateway/Limiter/Windows.antt =====
-- How many requests of a key the limit of events.routes.ts lets through in a window.
use opencode_notify_hub.Shared.{
  ℕ, ◌+◌, ◌-◌, ◌*◌, ◌≤◌, ◌<◌, min, String, ◌≡◌, refl, ite, true, some, List, [], ◌∷◌, arith, leb,
  if◌then◌else◌, String-discrete, All,
}
use opencode_notify_hub.Shared.OrdMap.{get, get-set}
use opencode_notify_hub.Gateway.Limiter.{
  Bucket, VerifiedKeyRateLimiter, current, retry_after, consume,
}

-- The requests of the key among those of all keys, and those that are allowed.
abbrev pub requests : String → List (ℕ × String) → ℕ
requests key [] = 0
requests key ((now, k) ∷ rs) = ite (String-discrete k key) 1 0 + requests key rs

unfoldable pub allowed_count : String → List (ℕ × String) → VerifiedKeyRateLimiter → ℕ
allowed_count key [] l = 0
allowed_count key ((now, k) ∷ rs) l =
    let (next, verdict) = consume now k l in
    ite (String-discrete k key) (if verdict.allowed then 1 else 0) 0 + allowed_count key rs next

bucket-consume :
    (now : ℕ) (k j : String) (l : VerifiedKeyRateLimiter)
    → get j (consume now k l).0.buckets
      ≡ ite
          (String-discrete k j)
          (some (record {
            window_start_ms = (current l.window_ms now (get k l.buckets)).window_start_ms;
            count = (current l.window_ms now (get k l.buckets)).count + 1;
          }))
          (get j l.buckets)
unfolding consume
bucket-consume now k j l = get-set j k _ l.buckets

allowed-consume :
    (now : ℕ) (k : String) (l : VerifiedKeyRateLimiter)
    → (consume now k l).1.allowed
      ≡ leb ((current l.window_ms now (get k l.buckets)).count + 1) l.max_count
unfolding consume
allowed-consume now k l = refl

current_open :
    (window_ms now : ℕ) (b : Bucket)
    → now < b.window_start_ms + window_ms
    → current window_ms now (some b) ≡ b
unfolding current
current_open window_ms now b h = ground arith

bounds-consume :
    (now : ℕ) (k : String) (l : VerifiedKeyRateLimiter)
    → ((consume now k l).0.max_count ≡ l.max_count) × ((consume now k l).0.window_ms ≡ l.window_ms)
unfolding consume
bounds-consume now k l = (refl, refl)

counted-consume :
    (now : ℕ) (k key : String) (b : Bucket) (l : VerifiedKeyRateLimiter)
    → k ≡ key
    → get key l.buckets ≡ some b
    → now < b.window_start_ms + l.window_ms
    → (get key (consume now k l).0.buckets ≡ some (record b { count = b.count + 1 }))
      × ((consume now k l).1.allowed ≡ leb (b.count + 1) l.max_count)
counted-consume now k key b l same e h =
    let found : get k l.buckets ≡ some b = rw same e in
    let used : current l.window_ms now (get k l.buckets) ≡ b =
      rw found (current_open l.window_ms now b h) in
    (
      ground (arith, used, bucket-consume now k key l),
      ground (arith, used, allowed-consume now k l),
    )

-- Of any requests of any keys that come before the window of a key's bucket ends, exactly the first
-- of the key's are allowed, as many as the maximum leaves after the bucket's count; requests of
-- other keys make no difference to it.
pub allowed_count-open :
    (key : String) (b : Bucket) (rs : List (ℕ × String)) (l : VerifiedKeyRateLimiter)
    → get key l.buckets ≡ some b
    → All (λ r. r.0 < b.window_start_ms + l.window_ms) rs
    → allowed_count key rs l ≡ min (requests key rs) (l.max_count - b.count)
unfolding allowed_count
allowed_count-open key b [] l e h = omega arith
allowed_count-open key b ((now, k) ∷ rs) l e h = elim (String-discrete k key) [
  | yes same ↦
      let bucket = counted-consume now k key b l same e h.0 in
      ground (
        arith,
        bucket,
        bounds-consume now k l,
        allowed_count-open key (record b { count = b.count + 1 }) rs (consume now k l).0 bucket.0
            (rw ((bounds-consume now k l).1) h.1),
      )
  | no other ↦
      let kept : get key (consume now k l).0.buckets ≡ some b =
        ground (arith, bucket-consume now k key l) in
      ground (
        arith,
        bounds-consume now k l,
        allowed_count-open key b rs (consume now k l).0 kept (rw ((bounds-consume now k l).1) h.1),
      )
]

current_over :
    (window_ms now : ℕ) (b : Bucket)
    → b.window_start_ms + window_ms ≤ now
    → (current window_ms now (some b)).count ≡ 0
unfolding current
current_over window_ms now b h = ground arith

retry_long :
    (window_ms now : ℕ) (b : Bucket)
    → b.window_start_ms + window_ms ≤ now + 1000 * retry_after window_ms now b
unfolding retry_after
retry_long window_ms now b = omega arith

retry-consume :
    (now : ℕ) (key : String) (l : VerifiedKeyRateLimiter)
    → (consume now key l).1.retry_after_seconds
      ≡ retry_after l.window_ms now (record {
        window_start_ms = (current l.window_ms now (get key l.buckets)).window_start_ms;
        count = (current l.window_ms now (get key l.buckets)).count + 1;
      })
unfolding consume
retry-consume now key l = refl

-- With a positive maximum, a client that waits the retryAfterSeconds of an answer is allowed by its
-- next request, if no other request of the key comes between.
pub consume-retry :
    (now later : ℕ) (key : String) (l : VerifiedKeyRateLimiter)
    → 0 < l.max_count
    → now + 1000 * (consume now key l).1.retry_after_seconds ≤ later
    → (consume later key (consume now key l).0).1.allowed ≡ true
consume-retry now later key l room h =
    let b = current l.window_ms now (get key l.buckets) in
    let found : get key (consume now key l).0.buckets
        ≡ some (record { window_start_ms = b.window_start_ms; count = b.count + 1 }) =
      ground (arith, bucket-consume now key key l) in
    rw (allowed-consume later key (consume now key l).0) (
      rw (found, current)
        (ground (
          arith,
          bounds-consume now key l,
          current_over l.window_ms later
              (record { window_start_ms = b.window_start_ms; count = b.count + 1 })
              (omega (
                arith,
                h,
                retry_long l.window_ms now
                    (record { window_start_ms = b.window_start_ms; count = b.count + 1 }),
                retry-consume now key l,
              )),
        )))
