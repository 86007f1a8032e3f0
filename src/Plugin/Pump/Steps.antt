-- ===== src/Plugin/Pump/Steps.antt =====
-- The steps of pump.ts as the event loop may run them, and the runs that they make.
use opencode_notify_hub.Shared.{◌≡◌, Bool, List, [], ◌∷◌}
use opencode_notify_hub.Plugin.Pump.{
  NotifyEvent, QueuePump, idle, sending, returned, awaiting, closing, offer, kick, stop, sent,
  settle, finish, final_sent, close,
}

-- Every step but the offer of an event.
pub data QuietStep (p : QueuePump) : QueuePump → Type 0 where
  kicks : QuietStep p (kick p)
  stops : QuietStep p (stop p)
  sends : (ok : Bool) (e : NotifyEvent) → p.draining ≡ sending e → QuietStep p (sent ok e p)
  settles : p.draining ≡ returned → QuietStep p (settle p)
  finishes : p.stopping ≡ awaiting → p.draining ≡ idle → QuietStep p (finish p)
  final_sends :
      (ok : Bool) (e : NotifyEvent)
      → p.stopping ≡ closing (sending e)
      → QuietStep p (final_sent ok e p)
  closes : p.stopping ≡ closing returned → QuietStep p (close p)

-- A run from `s`, with the events that were offered on the way, the latest first.
pub data Reach (s : QueuePump) : QueuePump → List NotifyEvent → Type 0 where
  here : Reach s s []
  quiet : {p q : QueuePump} {es : List NotifyEvent} → Reach s p es → QuietStep p q → Reach s q es
  offered :
      {p : QueuePump} {es : List NotifyEvent} (e : NotifyEvent)
      → Reach s p es
      → Reach s (offer p e).0 (e ∷ es)
