-- ===== src/Plugin/Pump/Invariant.antt =====
-- The phases of pump.ts: what holds of the two drain loops, the stop flag and the queue between
-- any two steps of the event loop.
use opencode_notify_hub.Shared.{
  ℕ, ◌≡◌, ap, inl, inr, Bool, true, false, Option, none, some, List, [], arith, or_else, Bool-cases,
  Option-cases, length,
}
use opencode_notify_hub.Plugin.Pump.Steps.{
  QuietStep, kicks, stops, sends, settles, finishes, final_sends, closes, Reach, here, quiet,
  offered,
}
use opencode_notify_hub.Plugin.Queue
use opencode_notify_hub.Plugin.Queue.Order.{create-IsValid, length-create}
use opencode_notify_hub.Plugin.Queue.{BoundedQueue, dequeue, size}
use opencode_notify_hub.Plugin.Queue.Scans.{best_index-Best}
use opencode_notify_hub.Plugin.Queue.Order.{IsValid, dequeue-IsValid, enqueue-IsValid}
use opencode_notify_hub.Plugin.Pump.{
  NotifyEvent, event_priority, idle, sending, returned, Stopping, not_stopping, awaiting, closing,
  closed, QueuePump, next_run, kick, sent, finish, final_sent, stop, settle, close, offer, log_loss,
  LogLine, create, enqueue,
}

abbrev pub IsEmpty : QueuePump → Type 0
IsEmpty p = length p.queue.entries ≡ 0

-- Before a stop no queued event waits without a loop; after it at most one loop runs, and a stop is
-- complete only over an empty queue.
abbrev pub Phase : QueuePump → Bool → Stopping → Type 0
Phase p false not_stopping = p.draining ≡ idle → IsEmpty p
Phase p true awaiting = Unit
Phase p true (closing idle) = ⊥
Phase p true (closing (sending e)) = p.draining ≡ idle
Phase p true (closing returned) = (p.draining ≡ idle) × IsEmpty p
Phase p true closed = (p.draining ≡ idle) × IsEmpty p
Phase p _ _ = ⊥

pub record Inv (p : QueuePump) : Type 0 where
  pub valid : IsValid event_priority p.queue
  pub phase : Phase p p.stopped p.stopping

dequeue-none :
    (q : BoundedQueue NotifyEvent) → (dequeue q).0 ≡ none → length (dequeue q).1.entries ≡ 0
unfolding dequeue
dequeue-none q h = elim (best_index-Best q.entries) [
  | inl (nothing, e) ↦ rw (e, dequeue) (ap length nothing)
  | inr (i, e, b) ↦ absurd (ground (arith, b.splits.found))
]

kick-Inv :
    (p : QueuePump)
    → IsValid event_priority p.queue
    → (p.stopped ≡ false → p.stopping ≡ not_stopping)
    → (p.stopped ≡ true → Phase p true p.stopping)
    → Inv (kick p)
unfolding kick next_run
kick-Inv p v h k = record {
  valid = ground (arith, dequeue-IsValid event_priority p.queue v);
  phase = ground (arith, dequeue-none p.queue);
}

sent-Inv :
    (ok : Bool) (e : NotifyEvent) (p : QueuePump)
    → p.draining ≡ sending e
    → Inv p
    → Inv (sent ok e p)
unfolding sent
sent-Inv ok e p d v = record {
  valid = dequeue-IsValid event_priority p.queue v.valid;
  phase = ground (arith, dequeue-none p.queue, v.phase);
}

finish-Inv :
    (p : QueuePump)
    → IsValid event_priority p.queue
    → p.stopped ≡ true
    → p.draining ≡ idle
    → Inv (finish p)
unfolding finish size
finish-Inv p v s d = record {
  valid = ground (arith, dequeue-IsValid event_priority p.queue v);
  phase = ground (arith, dequeue-none p.queue);
}

final_sent-Inv :
    (ok : Bool) (e : NotifyEvent) (p : QueuePump)
    → p.stopping ≡ closing (sending e)
    → Inv p
    → Inv (final_sent ok e p)
unfolding final_sent
final_sent-Inv ok e p d v = record {
  valid = dequeue-IsValid event_priority p.queue v.valid;
  phase = ground (arith, dequeue-none p.queue, v.phase);
}

settle-Inv : (p : QueuePump) → p.draining ≡ returned → Inv p → Inv (settle p)
unfolding settle size next_run
settle-Inv p d v = record {
  valid = ground (arith, dequeue-IsValid event_priority p.queue v.valid);
  phase = ground (arith, dequeue-none p.queue, v.phase);
}

stop-Inv : (p : QueuePump) → Inv p → Inv (stop p)
unfolding stop size next_run
stop-Inv p v = record {
  valid = ground (arith, dequeue-IsValid event_priority p.queue v.valid);
  phase = ground (arith, dequeue-none p.queue, v.phase);
}

close-Inv : (p : QueuePump) → p.stopping ≡ closing returned → Inv p → Inv (close p)
unfolding close
close-Inv p d v = record { valid = v.valid; phase = ground (arith, v.phase) }

kick_open-Inv : (p : QueuePump) → Inv p → Inv (kick p)
kick_open-Inv p v = kick-Inv p v.valid (λ s. ground (arith, v.phase)) (λ s. ground (arith, v.phase))

offer-Inv : (p : QueuePump) (e : NotifyEvent) → Inv p → Inv (offer p e).0
unfolding offer log_loss
offer-Inv p e v = elim (Bool-cases p.stopped) [
  | inl halted ↦ rw (halted, offer) (record { valid = v.valid; phase = ground (arith, v.phase) })
  | inr running ↦
      let step = λ (l : List LogLine).
        kick-Inv
          (record p { queue = (enqueue event_priority p.queue e).0; stopped = false; log = l })
          (enqueue-IsValid event_priority p.queue e v.valid) (λ s. ground (arith, v.phase))
          (λ s. cc) in
      elim (Option-cases (enqueue event_priority p.queue e).1.evicted) [
        | inl kept ↦ elim (Bool-cases (enqueue event_priority p.queue e).1.accepted) [
          | inl in_ ↦ rw (running, kept, in_, offer) (step _)
          | inr out ↦ rw (running, kept, out, offer) (step _)
        ]
        | inr (victim, lost) ↦ elim (Bool-cases (enqueue event_priority p.queue e).1.accepted) [
          | inl in_ ↦ rw (running, lost, in_, offer) (step _)
          | inr out ↦ rw (running, lost, out, offer) (step _)
        ]
      ]
]

-- Every step of the pump keeps the invariant.
pub QuietStep-Inv : {p q : QueuePump} → QuietStep p q → Inv p → Inv q
QuietStep-Inv {p} kicks v = kick_open-Inv p v
QuietStep-Inv {p} stops v = stop-Inv p v
QuietStep-Inv {p} (sends ok e h) v = sent-Inv ok e p h v
QuietStep-Inv {p} (settles h) v = settle-Inv p h v
QuietStep-Inv {p} (finishes h k) v = finish-Inv p v.valid (ground (arith, v.phase)) k
QuietStep-Inv {p} (final_sends ok e h) v = final_sent-Inv ok e p h v
QuietStep-Inv {p} (closes h) v = close-Inv p h v

pub create-Inv : (capacity : Option ℕ) (s : QueuePump) → create capacity ≡ some s → Inv s
unfolding create
create-Inv capacity s h =
    elim (Option-cases
      (Queue.create {T = NotifyEvent} (or_else capacity Queue.default_queue_capacity))) [
        | inl bad ↦ let none_some : none ≡ some s = rw (bad, create) at h in cc
        | inr (q, good) ↦
            let made : some (record {
              queue = q;
              draining = idle;
              stopped = false;
              stopping = not_stopping;
              log = [];
            })
                ≡ some s =
              rw (good, create) at h in
            let same : q ≡ s.queue = ground arith in
            record {
              valid = rw (← same) (create-IsValid event_priority _ q good);
              phase = ground (arith, length-create _ q good);
            }
      ]

-- Whatever order the event loop takes, a queued event never waits without a running loop before
-- a stop, at most one loop is at work, and a completed stop leaves an empty queue.
pub Reach-Inv : {s p : QueuePump} {es : List NotifyEvent} → Inv s → Reach s p es → Inv p
Reach-Inv v here = v
Reach-Inv v (quiet r st) = QuietStep-Inv st (Reach-Inv v r)
Reach-Inv v (offered {p = p} e r) = offer-Inv p e (Reach-Inv v r)

-- From a new pump, whatever order the event loop takes: the queue is valid; while not stopped, no
-- queued event waits without a drain loop; a stop ends the first loop before the final one starts;
-- a completed stop leaves no loop and an empty queue.
pub run-Inv :
    (capacity : Option ℕ) (s p : QueuePump) (es : List NotifyEvent)
    → create capacity ≡ some s
    → Reach s p es
    → Inv p
run-Inv capacity s p es made r = Reach-Inv (create-Inv capacity s made) r
