-- ===== src/Tests/Pump.antt =====
-- packages/plugin/src/pump.ts: two events offered, a stop while the first is being sent.
use opencode_notify_hub.Shared.{ℕ, ◌≡◌, refl, true, false, none, some, [], ◌∷◌, arith, length}
use opencode_notify_hub.Plugin.Queue.{
  EventType, heartbeat, terminal, BoundedQueue, enqueue, dequeue, notify_event_priority,
}
use opencode_notify_hub.Plugin.Queue
use opencode_notify_hub.Plugin.Pump.{
  NotifyEvent, QueuePump, idle, not_stopping, awaiting, closed, create, offer, stop, kick,
}
use opencode_notify_hub.Plugin.Pump.Steps.{Reach, here, quiet, offered, stops}
use opencode_notify_hub.Plugin.Pump.Invariant.{Inv, run-Inv}
use opencode_notify_hub.Plugin.Pump.Accounts.{account, weight, logged, run-account}
use opencode_notify_hub.Plugin.Pump.Completion.{advance_n, steps_left, stop_completes}

abbrev beat : NotifyEvent
beat = record { event_id = "b1"; type = heartbeat }

abbrev end : NotifyEvent
end = record { event_id = "t1"; type = terminal }

abbrev fresh : QueuePump
fresh = record {
  queue = record { capacity = 100; entries = []; next_seq = 0 };
  draining = idle;
  stopped = false;
  stopping = not_stopping;
  log = [];
}

created : create none ≡ some fresh
unfolding create Queue.create
created = refl

abbrev stopped_pump : QueuePump
stopped_pump = stop (offer (offer fresh beat).0 end).0

run : Reach fresh stopped_pump (end ∷ beat ∷ [])
run = quiet (offered end (offered beat here)) stops

is_stopping : stopped_pump.stopping ≡ awaiting
unfolding stop offer kick enqueue dequeue Queue.best_index notify_event_priority Queue.erase_idx
    Queue.best_from Queue.get_elem?
is_stopping = refl

five_left : steps_left stopped_pump ≡ 5
unfolding stop offer kick enqueue dequeue Queue.best_index notify_event_priority Queue.erase_idx
    Queue.best_from Queue.get_elem?
five_left = refl

run-Inv_example : Inv stopped_pump
run-Inv_example = run-Inv none fresh stopped_pump (end ∷ beat ∷ []) created run

run-account_example : account (λ e. 1) stopped_pump ≡ weight (λ e. 1) (end ∷ beat ∷ [])
run-account_example = run-account (λ e. 1) none created run

stop_completes_example :
    ((advance_n (λ e. true) 5 stopped_pump).stopping ≡ closed)
    × (length (advance_n (λ e. true) 5 stopped_pump).queue.entries ≡ 0)
    × ((w : NotifyEvent → ℕ)
        → logged w (advance_n (λ e. true) 5 stopped_pump).log ≡ weight w (end ∷ beat ∷ []))
stop_completes_example =
    stop_completes (λ e. true) none fresh stopped_pump (end ∷ beat ∷ []) 5 created run
      (cc is_stopping) (omega (arith, five_left))
