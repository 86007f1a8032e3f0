-- ===== src/Tests/Payload.antt =====
-- apps/gateway/src/modules/fcm/payload.ts and modules/events/dispatcher.ts: a permission whose summary
-- is too long, sent to three devices.
use opencode_notify_hub.Shared.{
  ℕ, zero, suc, ◌*◌, ◌≤◌, String, ◌≡◌, refl, ◌↔◌, ◌⊎◌, ite, Bool, true, false, none, some, List, [],
  ◌∷◌, map, arith, if◌then◌else◌, String-discrete, length, keep,
}
use opencode_notify_hub.Gateway.Payload.Texts.{Text}
use opencode_notify_hub.Gateway.Payload.Event.{
  NotifyEvent, PushContent, Host, permission, compact_event, initial_caps,
}
use opencode_notify_hub.Gateway.Payload.Loop.{
  fits, build_push_content, passes, fcm_message_budget_bytes,
}
use opencode_notify_hub.Gateway.Payload.Display.{
  content_of, describe_event, measure_message, is_pushable,
}
use opencode_notify_hub.Gateway.Payload.Passes.{
  content_at, within_budget, first_of, nine, passes-best,
}
use opencode_notify_hub.Gateway.Payload.Budget.{Tells, build_push_content-Tells}
use opencode_notify_hub.Gateway.Dispatch.{
  Target, Surroundings, fcm_send_timeout_ms, dispatch, push, delivered, invalid_token,
  send_to_target,
}
use opencode_notify_hub.Gateway.Dispatch.Devices.{
  sent_tokens, cleared, dispatch_reaches, dispatch_rejects,
}

abbrev letters : ℕ → Text
letters zero = []
letters (suc n) = 97 ∷ letters n

abbrev summary_of : NotifyEvent → Text
summary_of e = elim e.payload [ permission name summary ↦ summary | _ ↦ [] ]

-- An envelope is its summary, and a byte of a message counts four hundred.
abbrev host : Host
host = record {
  stringify = summary_of;
  message_bytes = λ title body event. 400 * length event;
  trim = λ s. s;
  base_name = λ is_win32 s. s;
  decimal = λ n. 48 ∷ [];
  same = λ s t. false;
}

abbrev event : NotifyEvent
event = record {
  identity = 1 ∷ [];
  machine = 109 ∷ [];
  directory = 100 ∷ [];
  session_id = 115 ∷ [];
  session_title = 116 ∷ [];
  payload = permission (112 ∷ []) (letters 12);
}

abbrev sixth : PushContent
sixth = content_at host event 5

built : build_push_content host event ≡ fits sixth
unfolding build_push_content passes content_of compact_event describe_event
built = refl

passes-best_example :
    passes host 12 event initial_caps event
    ≡ first_of (keep (within_budget host) (map (content_at host event) nine))
passes-best_example = passes-best host event 12 (omega arith)

build_push_content-Tells_example :
    (measure_message host sixth ≤ fcm_message_budget_bytes)
    × ((e' : NotifyEvent) × (sixth.data_event ≡ host.stringify e') × Tells event e')
build_push_content-Tells_example = build_push_content-Tells host event sixth built

abbrev device : String → Target
device id = record { id = id; fcm_token = id; sound_enabled = true }

abbrev three : List Target
three = device "a" ∷ device "b" ∷ device "c" ∷ []

abbrev is_device : String → Target → Bool
is_device id t = ite (String-discrete t.id id) true false

-- The first device's token is invalid, and FCM never answers for the second.
abbrev answers : Surroundings
answers = record {
  realtime_rejects = false;
  targets = some three;
  sends = λ t.
      if is_device "a" t
      then some (10, invalid_token)
      else if is_device "b" t
      then none
      else some (20, delivered);
  update_rejects = λ t. true;
}

dispatch_reaches_example :
    (sent_tokens (dispatch host fcm_send_timeout_ms answers event).0 ≡ "a" ∷ "b" ∷ "c" ∷ [])
    × (cleared (dispatch host fcm_send_timeout_ms answers event).0 ≡ "a" ∷ [])
    × ((dispatch host fcm_send_timeout_ms answers event).1 ≡ true)
unfolding String-discrete
dispatch_reaches_example =
    dispatch_reaches host fcm_send_timeout_ms answers event sixth three refl refl built refl

abbrev no_store : Surroundings
no_store = record answers { targets = none }

is_rejected : (dispatch host fcm_send_timeout_ms no_store event).1 ≡ false
unfolding dispatch push build_push_content passes content_of compact_event describe_event
is_rejected = refl

dispatch_rejects_example :
    (((dispatch host fcm_send_timeout_ms no_store event).1 ≡ false) ↔ (
      (no_store.realtime_rejects ≡ true)
      ⊎ ((no_store.realtime_rejects ≡ false)
          × (is_pushable host event.payload ≡ true)
          × ((content : PushContent) × (build_push_content host event ≡ fits content)
              × (no_store.targets ≡ none)))))
    × ((content : PushContent) (t : Target)
        → (send_to_target fcm_send_timeout_ms no_store content t).1 ≡ true)
dispatch_rejects_example = dispatch_rejects host fcm_send_timeout_ms no_store event
