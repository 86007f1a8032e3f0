-- ===== src/Gateway/Dispatch.antt =====
-- apps/gateway/src/modules/events/dispatcher.ts: the fanout of an event. What the realtime registry,
-- the device store and FCM answer is the surroundings'. The sends of several devices run at once; their
-- effects are listed device by device.
pub mod Devices
use opencode_notify_hub.Shared.{
  ℕ, String, Bool, true, false, not, Option, none, some, List, [], ◌∷◌, ◌++◌, map, ltb,
  if◌then◌else◌,
}
use opencode_notify_hub.Gateway.Payload.Event.{NotifyEvent, PushContent, Host}
use opencode_notify_hub.Gateway.Payload.Loop.{
  Built, fits, too_large, out_of_fuel, build_push_content,
}
use opencode_notify_hub.Gateway.Payload.Display.{is_pushable}

abbrev pub fcm_send_timeout_ms : ℕ
fcm_send_timeout_ms = 5000

-- `AndroidPushTarget`
pub record Target : Type 0 where
  pub id : String
  pub fcm_token : String
  pub sound_enabled : Bool

pub data Channel : Type 0 where
  channel_alerts channel_silent : Channel

-- How a send of FCM settles.
pub data Sent : Type 0 where
  delivered invalid_token failed : Sent

pub data Attempt : Type 0 where
  settled : Sent → Attempt
  timed_out : Attempt

-- What the dispatcher depends on: a send settles after some time, or never.
pub record Surroundings : Type 0 where
  pub realtime_rejects : Bool
  pub targets : Option (List Target)
  pub sends : Target → Option (ℕ × Sent)
  pub update_rejects : Target → Bool

pub data Effect : Type 0 where
  fans_out : Effect
  warns_oversize : Effect
  looks_up_targets : Effect
  sends_push : String → Channel → PushContent → Effect
  warns_invalid : String → Effect
  clears_token : String → Effect
  logs_cleanup_failure : String → Effect
  logs_send_failure : String → Effect

-- `withTimeout`: a send that is not settled when the timer fires is abandoned.
unfoldable pub with_timeout : ℕ → Option (ℕ × Sent) → Attempt
with_timeout timeout_ms none = timed_out
with_timeout timeout_ms (some (after_ms, sent)) =
    if ltb after_ms timeout_ms then settled sent else timed_out

-- What an async function does, and whether its promise is fulfilled.
abbrev pub Outcome : Type 0
Outcome = List Effect × Bool

-- `try` and `catch`: a rejection runs the handler, whose promise counts then.
unfoldable pub try_catch : Outcome → Outcome → Outcome
try_catch (es, true) handler = (es, true)
try_catch (es, false) handler = (es ++ handler.0, handler.1)

-- `devices.update`, with no token.
unfoldable pub clear_token : Surroundings → Target → Outcome
clear_token s t = (clears_token t.id ∷ [], not (s.update_rejects t))

-- The `catch` of `sendToTarget`.
unfoldable pub after_send : Surroundings → Target → Attempt → Outcome
unfolding try_catch clear_token
after_send s t (settled delivered) = ([], true)
after_send s t (settled invalid_token) =
    let cleaned = try_catch (clear_token s t) (logs_cleanup_failure t.id ∷ [], true) in
    (warns_invalid t.id ∷ cleaned.0, cleaned.1)
after_send s t (settled failed) = (logs_send_failure t.id ∷ [], true)
after_send s t timed_out = (logs_send_failure t.id ∷ [], true)

-- `sendToTarget`
unfoldable pub send_to_target : ℕ → Surroundings → PushContent → Target → Outcome
unfolding with_timeout after_send
send_to_target timeout_ms s content t =
    let handled = after_send s t (with_timeout timeout_ms (s.sends t)) in
    (
      sends_push t.fcm_token (if t.sound_enabled then channel_alerts else channel_silent) content
          ∷ handled.0,
      handled.1,
    )

abbrev pub all_effects : List Outcome → List Effect
all_effects [] = []
all_effects (o ∷ os) = o.0 ++ all_effects os

-- `Promise.allSettled`: fulfilled whichever of the promises reject.
unfoldable pub all_settled : List Outcome → Outcome
all_settled os = (all_effects os, true)

unfoldable pub push : ℕ → Surroundings → Built → Outcome
unfolding send_to_target all_settled
push timeout_ms s (fits content) = elim s.targets [
  | none ↦ (looks_up_targets ∷ [], false)
  | some ts ↦
      let sent = all_settled (map (send_to_target timeout_ms s content) ts) in
      (looks_up_targets ∷ sent.0, sent.1)
]
push timeout_ms s too_large = (warns_oversize ∷ [], true)
-- The loop ends before its fuel does (Payload/Passes).
push timeout_ms s out_of_fuel = (warns_oversize ∷ [], true)

-- `dispatch`: what it does, and whether its promise is fulfilled.
unfoldable pub dispatch : Host → ℕ → Surroundings → NotifyEvent → Outcome
unfolding push
dispatch h timeout_ms s e =
    if s.realtime_rejects
    then (fans_out ∷ [], false)
    else if not (is_pushable h e.payload)
    then (fans_out ∷ [], true)
    else let pushed = push timeout_ms s (build_push_content h e) in (fans_out ∷ pushed.0, pushed.1)
