-- ===== src/Plugin/Pump.antt =====
-- packages/plugin/src/pump.ts: the delivery pump. A promise of the source is a value of `Run`; the
-- callbacks that the event loop runs later are functions of their own, and `Step` says when each
-- may run. The outcome of `sender.send` is the environment's choice.
pub mod Steps
pub mod Invariant
pub mod Accounts
pub mod Completion
use opencode_notify_hub.Shared.{
  ℕ, String, Bool, true, false, not, ◌&&◌, ◌||◌, Option, none, some, List, [], ◌∷◌, ltb,
  if◌then◌else◌, or_else,
}
use opencode_notify_hub.Plugin.Queue
use opencode_notify_hub.Plugin.Queue.{
  EventType, heartbeat, BoundedQueue, EnqueueResult, notify_event_priority, enqueue, dequeue,
}

-- What the pump reads of an event.
pub record NotifyEvent : Type 0 where
  pub event_id : String
  pub type : EventType

abbrev pub event_priority : NotifyEvent → ℕ
event_priority e = notify_event_priority e.type

pub data Level : Type 0 where
  debug error : Level

pub data Outcome : Type 0 where
  delivered failed evicted rejected refused : Outcome

-- One call of the logger.
pub record LogLine : Type 0 where
  pub level : Level
  pub outcome : Outcome
  pub event : NotifyEvent

-- One call of `drain`: none, one that awaits `sender.send`, one whose promise has resolved.
pub data Run : Type 0 where
  idle : Run
  sending : NotifyEvent → Run
  returned : Run

-- The promise of `stop`: not called, awaiting the loop that ran then, in the final drain, resolved.
pub data Stopping : Type 0 where
  not_stopping : Stopping
  awaiting : Stopping
  closing : Run → Stopping
  closed : Stopping

pub record QueuePump : Type 0 where
  pub queue : BoundedQueue NotifyEvent
  pub draining : Run
  pub stopped : Bool
  pub stopping : Stopping
  pub log : List LogLine

unfoldable pub create : Option ℕ → Option QueuePump
create capacity =
    elim (Queue.create {T = NotifyEvent} (or_else capacity Queue.default_queue_capacity)) [
      | none ↦ none
      | some q ↦ some (record {
        queue = q;
        draining = idle;
        stopped = false;
        stopping = not_stopping;
        log = [];
      })
    ]

abbrev is_idle : Run → Bool
is_idle idle = true
is_idle (sending e) = false
is_idle returned = false

-- The level of a lost event: heartbeat churn is routine.
unfoldable pub loss_level : EventType → Level
loss_level heartbeat = debug
loss_level _ = error

unfoldable pub log_loss : Outcome → NotifyEvent → QueuePump → QueuePump
unfolding loss_level
log_loss kind e p = record p {
  log = (record { level = loss_level e.type; outcome = kind; event = e }) ∷ p.log;
}

-- The loop of `drain` from its head to the next `await`, or to its end.
unfoldable pub next_run : Option NotifyEvent → Run
next_run none = returned
next_run (some e) = sending e

unfoldable pub kick : QueuePump → QueuePump
unfolding next_run
kick p =
    if p.stopped || not (is_idle p.draining)
    then p
    else record p { queue = (dequeue p.queue).1; draining = next_run (dequeue p.queue).0 }

abbrev log_evicted : Option NotifyEvent → QueuePump → QueuePump
log_evicted none p = p
log_evicted (some e) p = log_loss evicted e p

unfoldable pub offer : QueuePump → NotifyEvent → QueuePump × EnqueueResult NotifyEvent
unfolding log_loss
offer p e =
    if p.stopped
    then (
      record p { log = (record { level = debug; outcome = refused; event = e }) ∷ p.log },
      record { accepted = false; evicted = none },
    )
    else let (q, result) = enqueue event_priority p.queue e in
      let logged = log_evicted result.evicted (record p { queue = q }) in
      (kick (if result.accepted then logged else log_loss rejected e logged), result)

-- What a drain loop does when its `send` has settled, up to the next `await`.
unfoldable pub settled_line : Bool → NotifyEvent → LogLine
settled_line true e = record { level = debug; outcome = delivered; event = e }
settled_line false e = record { level = error; outcome = failed; event = e }

-- The send of the loop in `draining` settles.
unfoldable pub sent : Bool → NotifyEvent → QueuePump → QueuePump
unfolding settled_line next_run
sent ok e p = record p {
  queue = (dequeue p.queue).1;
  draining = next_run (dequeue p.queue).0;
  log = settled_line ok e ∷ p.log;
}

-- `settle`, the callback on the loop's promise.
unfoldable pub settle : QueuePump → QueuePump
unfolding kick
settle p =
    let cleared = record p { draining = idle } in
    if not p.stopped && ltb 0 (Queue.size p.queue) then kick cleared else cleared

-- The body of `stop`'s promise once the loop that it waits for is over.
unfoldable pub finish : QueuePump → QueuePump
unfolding next_run
finish p =
    if ltb 0 (Queue.size p.queue)
    then record p { queue = (dequeue p.queue).1; stopping = closing (next_run (dequeue p.queue).0) }
    else record p { stopping = closed }

abbrev is_not_stopping : Stopping → Bool
is_not_stopping not_stopping = true
is_not_stopping _ = false

unfoldable pub stop : QueuePump → QueuePump
unfolding finish
stop p =
    if not (is_not_stopping p.stopping)
    then p
    else let marked = record p { stopped = true } in
      if is_idle p.draining then finish marked else record marked { stopping = awaiting }

-- The send of the final drain settles.
unfoldable pub final_sent : Bool → NotifyEvent → QueuePump → QueuePump
unfolding settled_line next_run
final_sent ok e p = record p {
  queue = (dequeue p.queue).1;
  stopping = closing (next_run (dequeue p.queue).0);
  log = settled_line ok e ∷ p.log;
}

-- The final drain's promise has resolved.
unfoldable pub close : QueuePump → QueuePump
close p = record p { stopping = closed }
