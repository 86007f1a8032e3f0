-- ===== src/Gateway/Payload/Loop.antt =====
-- The loop of payload.ts: passes with ever smaller caps until the message fits its budget.
use opencode_notify_hub.Shared.{ℕ, zero, suc, ◌/◌, max, Bool, ◌&&◌, leb, ◌==◌, if◌then◌else◌}
use opencode_notify_hub.Gateway.Payload.Event.{
  NotifyEvent, PushContent, CompactionCaps, initial_caps, Host, compact_event,
}
use opencode_notify_hub.Gateway.Payload.Display.{content_of, measure_message}

abbrev pub fcm_message_budget_bytes : ℕ
fcm_message_budget_bytes = 3600

abbrev pub is_floor : CompactionCaps → Bool
is_floor caps = (caps.text == 1) && (caps.section == 1) && (caps.title == 1) && (caps.body == 1)

abbrev pub halve : CompactionCaps → CompactionCaps
halve caps = record {
  text = max 1 (caps.text / 2);
  section = max 1 (caps.section / 2);
  title = max 1 (caps.title / 2);
  body = max 1 (caps.body / 2);
}

-- How the loop ends, or that the fuel did before.
pub data Built : Type 0 where
  fits : PushContent → Built
  too_large out_of_fuel : Built

unfoldable pub passes : Host → ℕ → NotifyEvent → CompactionCaps → NotifyEvent → Built
unfolding content_of compact_event
passes h zero e caps candidate = out_of_fuel
passes h (suc fuel) e caps candidate =
    let rest = passes h fuel e (halve caps) (compact_event e (halve caps)) in
    let content = content_of h candidate caps in
    if leb (measure_message h content) fcm_message_budget_bytes
    then fits content
    else if is_floor caps
    then too_large
    else rest

-- `buildPushContent`. The caps are at their floor on the ninth pass (Payload/Passes).
unfoldable pub build_push_content : Host → NotifyEvent → Built
unfolding passes
build_push_content h e = passes h 9 e initial_caps e
