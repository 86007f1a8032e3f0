-- ===== src/Plugin/Queue.antt =====
-- packages/plugin/src/queue.ts: the bounded priority queue of outgoing events. An array is a list,
-- index 0 at the head; the index -1 of the source is `none`.
pub mod Scans
pub mod Lanes
pub mod Totals
pub mod Order
use opencode_notify_hub.Shared.{
  ℕ, zero, suc, ◌+◌, Bool, true, false, not, ◌&&◌, Option, none, some, List, [], ◌∷◌, ◌++◌, ltb,
  leb, ◌==◌, if◌then◌else◌, length,
}

-- The `type` of a `NotifyEvent` (packages/contracts/src/schemas/events.ts).
pub data EventType : Type 0 where
  heartbeat action_resolved action_required terminal : EventType

unfoldable pub notify_event_priority : EventType → ℕ
notify_event_priority heartbeat = 0
notify_event_priority action_resolved = 1
notify_event_priority action_required = 2
notify_event_priority terminal = 2

pub record Entry {ℓ} (T : Type ℓ) : Type ℓ where
  pub item : T
  pub priority : ℕ
  pub seq : ℕ

pub record EnqueueResult {ℓ} (T : Type ℓ) : Type ℓ where
  pub accepted : Bool
  pub evicted : Option T

pub record BoundedQueue {ℓ} (T : Type ℓ) : Type ℓ where
  pub capacity : ℕ
  pub entries : List (Entry T)
  pub next_seq : ℕ

abbrev pub default_queue_capacity : ℕ
default_queue_capacity = 100

module _ {ℓ} {T : Type ℓ} where
  -- The constructor; `none` is the `RangeError` of a capacity that is not positive.
  unfoldable pub create : ℕ → Option (BoundedQueue T)
  create capacity =
      if leb capacity 0
      then none
      else some (record { capacity = capacity; entries = []; next_seq = 0 })

  unfoldable pub size : BoundedQueue T → ℕ
  size q = length q.entries

  unfoldable pub push : BoundedQueue T → T → ℕ → BoundedQueue T
  push q item priority = record q {
    entries = q.entries ++ (record { item = item; priority = priority; seq = q.next_seq }) ∷ [];
    next_seq = q.next_seq + 1;
  }

  -- `entries[i]`, and `entries.splice(i, 1)` as the array that it leaves.
  unfoldable pub get_elem? : List (Entry T) → ℕ → Option (Entry T)
  get_elem? [] i = none
  get_elem? (e ∷ es) zero = some e
  get_elem? (e ∷ es) (suc i) = get_elem? es i

  unfoldable pub erase_idx : List (Entry T) → ℕ → List (Entry T)
  erase_idx [] i = []
  erase_idx (e ∷ es) zero = es
  erase_idx (e ∷ es) (suc i) = e ∷ erase_idx es i

  -- A newcomer of priority 0 looks at entries of priority 0 only.
  abbrev pub is_skipped : ℕ → Entry T → Bool
  is_skipped priority e = priority == 0 && not (e.priority == 0)

  -- The loop of `evictionIndex` from index `i` on; `lowest` is `lowestIndex` with the entry there.
  unfoldable pub lower : ℕ → ℕ → Entry T → Option (ℕ × Entry T) → Option (ℕ × Entry T)
  lower priority i e none = if is_skipped priority e then none else some (i, e)
  lower priority i e (some (j, low)) =
      if is_skipped priority e
      then some (j, low)
      else if ltb e.priority low.priority
      then some (i, e)
      else some (j, low)

  unfoldable pub lowest_from : ℕ → ℕ → Option (ℕ × Entry T) → List (Entry T) → Option (ℕ × Entry T)
  unfolding lower
  lowest_from priority i lowest [] = lowest
  lowest_from priority i lowest (e ∷ es) =
      lowest_from priority (i + 1) (lower priority i e lowest) es

  unfoldable pub eviction_index : List (Entry T) → ℕ → Option ℕ
  unfolding lowest_from
  eviction_index entries priority = elim (lowest_from priority 0 none entries) [
    | none ↦ none
    | some (j, low) ↦ if leb low.priority priority then some j else none
  ]

  -- The loop of `dequeue` from index `i` on; `top` is `entries[best]`.
  unfoldable pub best_from : ℕ → ℕ → Entry T → List (Entry T) → ℕ
  best_from i best top [] = best
  best_from i best top (e ∷ es) =
      let higher = ltb top.priority e.priority in
      best_from (i + 1) (if higher then i else best) (if higher then e else top) es

  unfoldable pub best_index : List (Entry T) → Option ℕ
  best_index [] = none
  best_index (e ∷ es) = some (best_from 1 0 e es)

  abbrev pub item_at : List (Entry T) → ℕ → Option T
  item_at entries i = elim (get_elem? entries i) [ none ↦ none | some e ↦ some e.item ]

  -- `undefined` when empty; else the item at the best index, and the queue without it.
  unfoldable pub dequeue : BoundedQueue T → Option T × BoundedQueue T
  dequeue q = elim (best_index q.entries) [
    | none ↦ (none, q)
    | some best ↦ (item_at q.entries best, record q { entries = erase_idx q.entries best })
  ]

  module _ (priority_of : T → ℕ) where
    unfoldable pub enqueue : BoundedQueue T → T → BoundedQueue T × EnqueueResult T
    unfolding push
    enqueue q item =
        let priority = priority_of item in
        if ltb (length q.entries) q.capacity
        then (push q item priority, record { accepted = true; evicted = none })
        else elim (eviction_index q.entries priority) [
          | none ↦ (q, record { accepted = false; evicted = none })
          | some victim ↦ (
            push (record q { entries = erase_idx q.entries victim }) item priority,
            record { accepted = true; evicted = item_at q.entries victim },
          )
        ]
