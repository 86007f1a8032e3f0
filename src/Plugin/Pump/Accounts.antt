-- ===== src/Plugin/Pump/Accounts.antt =====
-- No event is lost unseen in pump.ts: the log, the loops and the queue together hold each event
-- that was offered, as often as it was offered.
use opencode_notify_hub.Shared.{
  ℕ, ◌+◌, ◌≡◌, refl, ◌∙◌, inl, inr, Bool, true, false, Option, none, some, List, [], ◌∷◌, arith,
  or_else, Bool-cases, Option-cases, length,
}
use opencode_notify_hub.Plugin.Queue
use opencode_notify_hub.Plugin.Queue.{BoundedQueue, EnqueueResult, enqueue, dequeue, size}
use opencode_notify_hub.Plugin.Queue.Order.{length-create}
use opencode_notify_hub.Plugin.Queue.Totals.{total, total_option, dequeue-total, enqueue-total}
use opencode_notify_hub.Plugin.Pump.{
  NotifyEvent, event_priority, Run, idle, sending, returned, Stopping, not_stopping, closing,
  QueuePump, LogLine, next_run, settled_line, log_loss, create, offer, kick, stop, sent, settle,
  finish, final_sent, close,
}
use opencode_notify_hub.Plugin.Pump.Steps.{
  QuietStep, kicks, stops, sends, settles, finishes, final_sends, closes, Reach, here, quiet,
  offered,
}

module _ (w : NotifyEvent → ℕ) where
  abbrev pub weight : List NotifyEvent → ℕ
  weight [] = 0
  weight (e ∷ es) = w e + weight es

  abbrev pub logged : List LogLine → ℕ
  logged [] = 0
  logged (l ∷ ls) = w l.event + logged ls

  abbrev pub in_run : Run → ℕ
  in_run idle = 0
  in_run (sending e) = w e
  in_run returned = 0

  abbrev pub in_stopping : Stopping → ℕ
  in_stopping (closing r) = in_run r
  in_stopping _ = 0

  -- What the pump has done with events and what it still holds.
  abbrev pub account : QueuePump → ℕ
  account p = logged p.log + in_run p.draining + in_stopping p.stopping + total w p.queue.entries

  in_next_run : (o : Option NotifyEvent) → in_run (next_run o) ≡ total_option w o
  unfolding next_run
  in_next_run none = refl
  in_next_run (some e) = refl

  account-kick : (p : QueuePump) → account (kick p) ≡ account p
  unfolding kick
  account-kick p = ground (arith, dequeue-total w p.queue, in_next_run (dequeue p.queue).0)

  event-settled_line : (ok : Bool) (e : NotifyEvent) → w (settled_line ok e).event ≡ w e
  unfolding settled_line
  event-settled_line ok e = ground arith

  account-sent :
      (ok : Bool) (e : NotifyEvent) (p : QueuePump)
      → p.draining ≡ sending e
      → account (sent ok e p) ≡ account p
  unfolding sent
  account-sent ok e p h =
      ground
        (arith, dequeue-total w p.queue, in_next_run (dequeue p.queue).0, event-settled_line ok e)

  account-settle : (p : QueuePump) → p.draining ≡ returned → account (settle p) ≡ account p
  unfolding settle
  account-settle p h = ground (arith, account-kick (record p { draining = idle }))

  account-finish : (p : QueuePump) → in_stopping p.stopping ≡ 0 → account (finish p) ≡ account p
  unfolding finish
  account-finish p h = ground (arith, dequeue-total w p.queue, in_next_run (dequeue p.queue).0)

  account-stop : (p : QueuePump) → account (stop p) ≡ account p
  unfolding stop
  account-stop p = ground (arith, account-finish (record p { stopped = true }))

  account-final_sent :
      (ok : Bool) (e : NotifyEvent) (p : QueuePump)
      → p.stopping ≡ closing (sending e)
      → account (final_sent ok e p) ≡ account p
  unfolding final_sent
  account-final_sent ok e p h =
      ground
        (arith, dequeue-total w p.queue, in_next_run (dequeue p.queue).0, event-settled_line ok e)

  account-close : (p : QueuePump) → p.stopping ≡ closing returned → account (close p) ≡ account p
  unfolding close
  account-close p h = ground arith

  account-offer : (p : QueuePump) (e : NotifyEvent) → account (offer p e).0 ≡ w e + account p
  unfolding offer log_loss
  account-offer p e = elim (Bool-cases p.stopped) [
    | inl halted ↦ rw (halted, offer) (omega arith)
    | inr running ↦
        let r = (enqueue event_priority p.queue e).1 in
        let after = λ (l : List LogLine).
          account-kick
            (record p { queue = (enqueue event_priority p.queue e).0; stopped = false; log = l }) in
        let balance = enqueue-total w event_priority p.queue e in
        elim (Option-cases r.evicted) [
          | inl kept ↦ elim (Bool-cases r.accepted) [
            | inl in_ ↦ rw (running, kept, in_, offer) (after _ ∙ ground (arith, balance))
            | inr out ↦ rw (running, kept, out, offer) (after _ ∙ ground (arith, balance))
          ]
          | inr (victim, lost) ↦ elim (Bool-cases r.accepted) [
            | inl in_ ↦ rw (running, lost, in_, offer) (after _ ∙ ground (arith, balance))
            | inr out ↦ rw (running, lost, out, offer) (after _ ∙ ground (arith, balance))
          ]
        ]
  ]

  account-QuietStep : {p q : QueuePump} → QuietStep p q → account q ≡ account p
  account-QuietStep {p} kicks = account-kick p
  account-QuietStep {p} stops = account-stop p
  account-QuietStep {p} (sends ok e h) = account-sent ok e p h
  account-QuietStep {p} (settles h) = account-settle p h
  account-QuietStep {p} (finishes h k) = account-finish p (ground arith)
  account-QuietStep {p} (final_sends ok e h) = account-final_sent ok e p h
  account-QuietStep {p} (closes h) = account-close p h

  account-Reach :
      {s p : QueuePump} {es : List NotifyEvent} → Reach s p es → account p ≡ weight es + account s
  account-Reach here = omega arith
  account-Reach (quiet r st) = account-QuietStep st ∙ account-Reach r
  account-Reach (offered {p = p} e r) = omega (arith, account-offer p e, account-Reach r)

  pub total-nil : (es : List (Queue.Entry NotifyEvent)) → length es ≡ 0 → total w es ≡ 0
  total-nil [] h = refl
  total-nil (e ∷ es) h = absurd (omega arith)

  account-create : (capacity : Option ℕ) (s : QueuePump) → create capacity ≡ some s → account s ≡ 0
  unfolding create
  account-create capacity s h =
      elim (Option-cases
        (Queue.create {T = NotifyEvent} (or_else capacity Queue.default_queue_capacity))) [
          | inl bad ↦ let none_some : none ≡ some s = rw (bad, create) at h in cc
          | inr (q, good) ↦
              let made : some (record {
                queue = q;
                draining = idle;
                stopped = false;
                stopping = not_stopping;
                log = [];
              })
                  ≡ some s =
                rw (good, create) at h in
              ground (arith, total-nil q.entries, length-create _ q good)
        ]

-- Every offered event is accounted for exactly once: for a new pump, after any events offered and
-- any order of the event loop's steps, and for every weight of the events, what the pump has
-- logged, has in flight and holds in its queue weighs as much as the events that were offered to
-- it.
pub run-account :
    (w : NotifyEvent → ℕ) (capacity : Option ℕ) {s p : QueuePump} {es : List NotifyEvent}
    → create capacity ≡ some s
    → Reach s p es
    → account w p ≡ weight w es
run-account w capacity {s} made r =
    omega (arith, account-Reach w r, account-create w capacity s made)
