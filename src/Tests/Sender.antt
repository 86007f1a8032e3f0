-- ===== src/Tests/Sender.antt =====
-- packages/plugin/src/sender.ts: two retries.
use opencode_notify_hub.Shared.{
  ℕ, zero, suc, ◌≤◌, ◌<◌, ◌≡◌, refl, Option, none, some, [], ◌∷◌, arith, ◌==◌, if◌then◌else◌,
}
use opencode_notify_hub.Plugin.Sender.{
  GatewaySender, send_event, try_once, backoff_bound, delivered,
}
use opencode_notify_hub.Plugin.Sender.Retries.{send_event-final, final}

abbrev sender : GatewaySender
sender = record { max_retries = 2; backoff_base_ms = 100; backoff_cap_ms = 150 }

-- Unavailable, then accepted.
abbrev recovers : ℕ → Option ℕ
recovers i = if i == 0 then some 503 else some 202

recovers_fails : (i : ℕ) → i < 1 → final (try_once (recovers i)) ≡ none
unfolding try_once
recovers_fails zero h = refl
recovers_fails (suc i) h = ground arith

send_event-final_example :
    send_event recovers sender ≡ record { attempts = 2; sleeps = 100 ∷ []; ending = delivered }
unfolding try_once backoff_bound
send_event-final_example =
    send_event-final recovers sender 1 delivered (omega arith) recovers_fails refl

abbrev down : ℕ → Option ℕ
down i = none

down_fails : (i : ℕ) → i ≤ 2 → final (try_once (down i)) ≡ none
unfolding try_once
down_fails i h = refl
