-- ===== src/Plugin/Pump/Completion.antt =====
-- `stop` of pump.ts completes: whatever the sends answer, after it the event loop comes to an end
-- in a number of steps that the queue bounds, with every accepted event attempted.
use opencode_notify_hub.Shared.{
  ℕ, zero, suc, ◌+◌, ◌≤◌, ◌<◌, ◌≡◌, refl, ap, ◌∙◌, ◌≢◌, ◌⊎◌, inl, inr, Bool, true, Option, none,
  some, List, ◌∷◌, arith, length, length-append,
}
use opencode_notify_hub.Plugin.Queue.{BoundedQueue, dequeue}
use opencode_notify_hub.Plugin.Queue.Scans.{best_index-Best}
use opencode_notify_hub.Plugin.Pump.{
  NotifyEvent, Run, idle, sending, returned, Stopping, not_stopping, awaiting, closing, closed,
  QueuePump, next_run, sent, settle, finish, final_sent, close, create,
}
use opencode_notify_hub.Plugin.Pump.Steps.{
  QuietStep, sends, settles, finishes, final_sends, closes, Reach, quiet,
}
use opencode_notify_hub.Plugin.Pump.Accounts.{logged, weight, run-account, total-nil}
use opencode_notify_hub.Plugin.Pump.Invariant.{create-Inv, Inv, QuietStep-Inv, Reach-Inv}

module _ (answer : NotifyEvent → Bool) where
  -- The event loop's next step, where no event is offered; `answer` is how each send settles.
  abbrev advance_draining : Run → QueuePump → QueuePump
  advance_draining idle p = finish p
  advance_draining (sending e) p = sent (answer e) e p
  advance_draining returned p = settle p

  abbrev advance_stopping : Stopping → QueuePump → QueuePump
  advance_stopping not_stopping p = p
  advance_stopping awaiting p = advance_draining p.draining p
  advance_stopping (closing idle) p = p
  advance_stopping (closing (sending e)) p = final_sent (answer e) e p
  advance_stopping (closing returned) p = close p
  advance_stopping closed p = p

  unfoldable pub advance : QueuePump → QueuePump
  advance p = advance_stopping p.stopping p

  unfoldable pub advance_n : ℕ → QueuePump → QueuePump
  advance_n zero p = p
  advance_n (suc n) p = advance_n n (advance p)

abbrev rank_draining : Run → ℕ
rank_draining idle = 2
rank_draining (sending e) = 4
rank_draining returned = 3

abbrev rank : Stopping → Run → ℕ → ℕ
rank not_stopping r n = 0
rank awaiting r n = rank_draining r + n
rank (closing idle) r n = 0
rank (closing (sending e)) r n = 2 + n
rank (closing returned) r n = 1
rank closed r n = 0

-- The steps that are left after `stop`.
abbrev pub steps_left : QueuePump → ℕ
steps_left p = rank p.stopping p.draining (length p.queue.entries)

abbrev pub IsStopping : QueuePump → Type 0
IsStopping p = p.stopping ≢ not_stopping

dequeue-length :
    (q : BoundedQueue NotifyEvent)
    → (((dequeue q).0 ≡ none) × (length q.entries ≡ 0) × (length (dequeue q).1.entries ≡ 0))
      ⊎ ((e : NotifyEvent) × ((dequeue q).0 ≡ some e)
          × (length q.entries ≡ suc (length (dequeue q).1.entries)))
unfolding dequeue
dequeue-length q = elim (best_index-Best q.entries) [
  | inl (nothing, e) ↦ rw (e, dequeue) (inl (refl, ap length nothing, ap length nothing))
  | inr (i, e, b) ↦
      rw (e, dequeue)
        (inr (
          b.entry.item,
          ground (arith, b.splits.found),
          rw (b.splits.without) (
              omega (
                arith,
                ap length b.splits.whole,
                length-append b.before (b.entry ∷ b.after),
                length-append b.before b.after,
              )),
        ))
]

-- `q` comes later in the completion of a stop than `p`.
abbrev Closer : QueuePump → QueuePump → Type 0
Closer p q = (q.stopping ≢ not_stopping) × (steps_left q < steps_left p)

sent-Closer :
    (ok : Bool) (e : NotifyEvent) (p : QueuePump)
    → p.stopping ≡ awaiting
    → p.draining ≡ sending e
    → Closer p (sent ok e p)
unfolding sent next_run
sent-Closer ok e p h k = ground (arith, dequeue-length p.queue)

settle-Closer :
    (p : QueuePump)
    → p.stopped ≡ true
    → p.stopping ≡ awaiting
    → p.draining ≡ returned
    → Closer p (settle p)
unfolding settle
settle-Closer p s h k = ground arith

finish-Closer : (p : QueuePump) → p.stopping ≡ awaiting → p.draining ≡ idle → Closer p (finish p)
unfolding finish next_run
finish-Closer p h k = ground (arith, dequeue-length p.queue)

final_sent-Closer :
    (ok : Bool) (e : NotifyEvent) (p : QueuePump)
    → p.stopping ≡ closing (sending e)
    → Closer p (final_sent ok e p)
unfolding final_sent next_run
final_sent-Closer ok e p h = ground (arith, dequeue-length p.queue)

close-Closer : (p : QueuePump) → p.stopping ≡ closing returned → Closer p (close p)
unfolding close
close-Closer p h = ground arith

module _ (answer : NotifyEvent → Bool) where
  -- Until the stop is complete, the next step is one that the event loop may take, and it comes
  -- closer.
  abbrev Goes : QueuePump → QueuePump → Type 0
  Goes p q = QuietStep p q × Closer p q

  advance_draining-Goes :
      (p : QueuePump) (r : Run)
      → Inv p
      → p.stopping ≡ awaiting
      → p.draining ≡ r
      → Goes p (advance_draining answer r p)
  advance_draining-Goes p idle v h k = (finishes h k, finish-Closer p h k)
  advance_draining-Goes p (sending e) v h k = (sends _ e k, sent-Closer _ e p h k)
  advance_draining-Goes p returned v h k =
      (settles k, settle-Closer p (ground (arith, v.phase)) h k)

  advance_stopping-Goes :
      (p : QueuePump) (s : Stopping)
      → Inv p
      → p.stopping ≡ s
      → s ≢ not_stopping
      → s ≢ closed
      → Goes p (advance_stopping answer s p)
  advance_stopping-Goes p not_stopping v h n c = absurd (n refl)
  advance_stopping-Goes p awaiting v h n c = advance_draining-Goes p p.draining v h refl
  advance_stopping-Goes p (closing idle) v h n c = absurd (ground (arith, v.phase))
  advance_stopping-Goes p (closing (sending e)) v h n c =
      (final_sends _ e h, final_sent-Closer _ e p h)
  advance_stopping-Goes p (closing returned) v h n c = (closes h, close-Closer p h)
  advance_stopping-Goes p closed v h n c = absurd (c refl)

  -- A completed stop stays as it is.
  advance_stopping-closed :
      (p : QueuePump) (s : Stopping) → s ≡ closed → advance_stopping answer s p ≡ p
  advance_stopping-closed p s h = ground arith

  stays_closed : (n : ℕ) (p : QueuePump) → p.stopping ≡ closed → advance_n answer n p ≡ p
  unfolding advance_n advance
  stays_closed zero p h = refl
  stays_closed (suc n) p h =
      ap (advance_n answer n) (advance_stopping-closed p p.stopping h) ∙ stays_closed n p h

  closed-cases : (s : Stopping) → (s ≡ closed) ⊎ (s ≢ closed)
  closed-cases closed = inl refl
  closed-cases not_stopping = inr cc
  closed-cases awaiting = inr cc
  closed-cases (closing r) = inr cc

  rank-pos :
      (p : QueuePump) → Inv p → p.stopping ≢ not_stopping → steps_left p ≡ 0 → p.stopping ≡ closed
  rank-pos p v h z = ground (arith, v.phase)

  advance_n-closed :
      (n : ℕ) (p : QueuePump)
      → Inv p
      → p.stopping ≢ not_stopping
      → steps_left p ≤ n
      → (advance_n answer n p).stopping ≡ closed
  unfolding advance_n advance
  advance_n-closed zero p v h le = rank-pos p v h (omega arith)
  advance_n-closed (suc n) p v h le = elim (closed-cases p.stopping) [
    | inl done ↦ rw (stays_closed (suc n) p done) done
    | inr more ↦
        let (step, closer) = advance_stopping-Goes p p.stopping v refl h more in
        advance_n-closed n _ (QuietStep-Inv step v) closer.0 (omega arith)
  ]

  advance_n-Reach :
      (n : ℕ) {s p : QueuePump} {es : List NotifyEvent}
      → Inv p
      → p.stopping ≢ not_stopping
      → Reach s p es
      → Reach s (advance_n answer n p) es
  unfolding advance_n advance
  advance_n-Reach zero v h r = r
  advance_n-Reach (suc n) {p} v h r = elim (closed-cases p.stopping) [
    | inl done ↦ rw (stays_closed (suc n) p done) r
    | inr more ↦
        let (step, closer) = advance_stopping-Goes p p.stopping v refl h more in
        advance_n-Reach n (QuietStep-Inv step v) closer.0 (quiet r step)
  ]

-- When stop has been called on a pump reached from a new one by any steps, then however the sends
-- settle from then on, the stop completes within the steps that are left, over an empty queue, and
-- the log holds each event that was ever offered as often as it was offered.
pub stop_completes :
    (answer : NotifyEvent → Bool) (capacity : Option ℕ) (s p : QueuePump) (es : List NotifyEvent)
    (n : ℕ)
    → create capacity ≡ some s
    → Reach s p es
    → p.stopping ≢ not_stopping
    → steps_left p ≤ n
    → ((advance_n answer n p).stopping ≡ closed)
      × (length (advance_n answer n p).queue.entries ≡ 0)
      × ((w : NotifyEvent → ℕ) → logged w (advance_n answer n p).log ≡ weight w es)
stop_completes answer capacity s p es n made r h le =
    let v = Reach-Inv (create-Inv capacity s made) r in
    let done = advance_n-closed answer n p v h le in
    let r' = advance_n-Reach answer n v h r in
    let v' = Reach-Inv (create-Inv capacity s made) r' in
    (
      done,
      ground (arith, v'.phase),
      λ w. ground (
        arith,
        v'.phase,
        run-account w capacity made r',
        total-nil w (advance_n answer n p).queue.entries,
      ),
    )
