-- ===== src/Gateway/Dedupe.antt =====
-- apps/gateway/src/lib/dedupe.ts: the event dedupe with single-flight dispatch. `dispatchOnce` runs
-- in pieces between its awaits: `begin` up to the first await, then `succeed` or `fail` for the
-- owner when its dispatch settles. `Step` says which pieces may run. A key is the text that the
-- source builds from user and event; the clock is an argument of each piece.
pub mod Maps
pub mod Committed
pub mod Flights
use Prim.Native.String
use opencode_notify_hub.Shared.{
  ℕ, ◌+◌, ◌*◌, String, Bool, false, not, Option, none, some, [], ◌∷◌, ◌++◌, ltb, leb, if◌then◌else◌,
  keep,
}
use opencode_notify_hub.Shared.OrdMap.{OrdMap, get, set, delete, size}

abbrev pub dedupe_ttl_ms : ℕ
dedupe_ttl_ms = 10 * 60 * 1000

abbrev pub dedupe_max_size : ℕ
dedupe_max_size = 100000

pub record EventDedupe : Type 0 where
  pub ttl_ms : ℕ
  pub max_size : ℕ
  -- The expiry stamp of each committed key, oldest first.
  pub committed : OrdMap ℕ
  -- The keys with a dispatch under way.
  pub in_flight : OrdMap (Unit {0})

-- How the synchronous part of a call ends: `true` at once, waiting for another call's dispatch, or
-- owning a dispatch of its own.
pub data Begun : Type 0 where
  duplicate waits owns : Begun

unfoldable pub dedupe_key : String → String → String
dedupe_key user_id event_id = String.◌++◌ user_id (String.◌++◌ " " event_id)

-- `expiresAt !== undefined && expiresAt > now`
abbrev pub is_live : ℕ → Option ℕ → Bool
is_live now none = false
is_live now (some expires_at) = ltb now expires_at

unfoldable pub begin : ℕ → String → EventDedupe → EventDedupe × Begun
begin now key d =
    if is_live now (get key d.committed) then (d, duplicate) else elim (get key d.in_flight) [
      | some _ ↦ (d, waits)
      | none ↦ (record d { in_flight = set key tt d.in_flight }, owns)
    ]

unfoldable pub evict_expired : ℕ → OrdMap ℕ → OrdMap ℕ
evict_expired now = keep (λ entry. not (leb entry.1 now))

-- The `while` loop of `commit`: it deletes the oldest entry until the size fits. The list is the
-- fuel, since each round takes one entry.
unfoldable pub evict_oldest : ℕ → OrdMap ℕ → OrdMap ℕ
evict_oldest max_size [] = []
evict_oldest max_size (entry ∷ m) =
    if ltb max_size (size (entry ∷ m)) then evict_oldest max_size m else entry ∷ m

unfoldable pub commit : ℕ → String → EventDedupe → EventDedupe
unfolding evict_expired evict_oldest
commit now key d =
    let inserted = set key (now + d.ttl_ms) (delete key d.committed) in
    let swept = if ltb d.max_size (size inserted) then evict_expired now inserted else inserted in
    record d { committed = evict_oldest d.max_size swept }

-- The owner's dispatch has resolved: the call returns `false`.
unfoldable pub succeed : ℕ → String → EventDedupe → EventDedupe
succeed now key d = commit now key (record d { in_flight = delete key d.in_flight })

-- The owner's dispatch has thrown: the call throws the same error.
unfoldable pub fail : String → EventDedupe → EventDedupe
fail key d = record d { in_flight = delete key d.in_flight }
