-- ===== src/Tests/Queue.antt =====
-- packages/plugin/src/queue.ts on a full queue of capacity 2.
use opencode_notify_hub.Shared.{◌≡◌, refl, true, some, [], ◌∷◌, arith, All}
use opencode_notify_hub.Plugin.Queue.{
  EventType, heartbeat, terminal, action_resolved, notify_event_priority, Entry, BoundedQueue,
  enqueue, dequeue, eviction_index, best_index, best_from, get_elem?, erase_idx,
}
use opencode_notify_hub.Plugin.Queue.Lanes.{Offer, Take, lane, enqueue-Offer, dequeue-Take}
use opencode_notify_hub.Plugin.Queue.Order.{IsValid, Precedes, operations-IsValid, dequeue-Precedes}
use mathlib.Core.List.{Perm}

abbrev beat : Entry EventType
beat = record { item = heartbeat; priority = 0; seq = 3 }

abbrev end : Entry EventType
end = record { item = terminal; priority = 2; seq = 4 }

abbrev full_queue : BoundedQueue EventType
full_queue = record { capacity = 2; entries = beat ∷ end ∷ []; next_seq = 5 }

-- The heartbeat goes, the terminal event stays.
enqueue_resolved :
    (enqueue notify_event_priority full_queue action_resolved).1
    ≡ record { accepted = true; evicted = some heartbeat }
unfolding enqueue eviction_index notify_event_priority get_elem? erase_idx
enqueue_resolved = refl

dequeue-terminal : (dequeue full_queue).0 ≡ some terminal
unfolding dequeue best_index get_elem? best_from
dequeue-terminal = refl

full_queue-IsValid : IsValid notify_event_priority full_queue
unfolding notify_event_priority
full_queue-IsValid = record {
  positive = omega arith;
  bounded = omega arith;
  rising = omega arith;
  tagged = omega arith;
}

enqueue-Offer_example :
    Offer true
      (notify_event_priority terminal)
      terminal
      (λ p. lane p full_queue)
      (λ p. lane p (enqueue notify_event_priority full_queue terminal).0)
      (enqueue notify_event_priority full_queue terminal).1
enqueue-Offer_example = enqueue-Offer notify_event_priority full_queue terminal

dequeue-Take_example :
    Take (λ p. lane p full_queue) (λ p. lane p (dequeue full_queue).1) (dequeue full_queue).0
dequeue-Take_example = dequeue-Take full_queue

operations-IsValid_example :
    IsValid notify_event_priority (enqueue notify_event_priority full_queue terminal).0
    × IsValid notify_event_priority (dequeue full_queue).1
operations-IsValid_example =
    operations-IsValid notify_event_priority full_queue terminal full_queue-IsValid

dequeue-Precedes_example :
    (e : Entry EventType) × ((dequeue full_queue).0 ≡ some e.item)
    × Perm full_queue.entries (e ∷ (dequeue full_queue).1.entries)
    × All (Precedes e) (dequeue full_queue).1.entries
dequeue-Precedes_example = dequeue-Precedes notify_event_priority full_queue full_queue-IsValid cc
