-- ===== src/Gateway/Payload/Event.antt =====
-- The events and caps of payload.ts, and the compaction of an event.
use opencode_notify_hub.Shared.{ℕ, max, Bool, Option, none, some, List, map, take}
use opencode_notify_hub.Gateway.Payload.Texts.{Text}

pub data Outcome : Type 0 where
  completed failed stopped : Outcome

pub record Choice : Type 0 where
  pub label : Text
  pub description : Option Text

pub record Question : Type 0 where
  pub identity : Text
  pub question : Text
  pub options : Option (List Choice)

pub data Payload : Type 0 where
  terminal : Outcome → ℕ → Option Text → Payload
  questions : List Question → Payload
  permission : Text → Text → Payload
  provider_action : Text → Text → Payload
  heartbeat action_resolved : Payload

pub record NotifyEvent : Type 0 where
  pub identity : Text
  pub machine : Text
  pub directory : Text
  pub session_id : Text
  pub session_title : Text
  pub payload : Payload

pub record PushContent : Type 0 where
  pub title : Text
  pub body : Text
  pub data_event : Text

pub record CompactionCaps : Type 0 where
  pub text : ℕ
  pub section : ℕ
  pub title : ℕ
  pub body : ℕ

abbrev pub initial_caps : CompactionCaps
initial_caps = record { text = 500; section = 300; title = 100; body = 200 }

pub record Host : Type 0 where
  pub stringify : NotifyEvent → Text
  -- The bytes of the JSON text `{ notification: { title, body }, data: { event } }`.
  pub message_bytes : Text → Text → Text → ℕ
  pub trim : Text → Text
  -- `path.basename(path.normalize(...))`, of `win32` or of `posix`.
  pub base_name : Bool → Text → Text
  pub decimal : ℕ → Text
  pub same : Text → Text → Bool

-- `truncate`
abbrev pub truncate : Text → ℕ → Text
truncate s max = take max s

abbrev pub cut_choice : ℕ → Choice → Choice
cut_choice n c = record { label = truncate c.label n; description = none }

abbrev pub cut_question : ℕ → Question → Question
cut_question n q = record q {
  question = truncate q.question n;
  options = elim q.options [ none ↦ none | some cs ↦ some (map (cut_choice n) cs) ];
}

abbrev pub compact_payload : CompactionCaps → Payload → Payload
compact_payload caps (terminal outcome elapsed summary) = terminal outcome elapsed none
compact_payload caps (questions qs) = questions (map (cut_question caps.text) qs)
compact_payload caps (permission name summary) = permission name (truncate summary caps.section)
compact_payload caps (provider_action rest message) =
    provider_action rest (truncate message caps.section)
compact_payload caps heartbeat = heartbeat
compact_payload caps action_resolved = action_resolved

-- `compactEvent`
unfoldable pub compact_event : NotifyEvent → CompactionCaps → NotifyEvent
compact_event e caps = record e { payload = compact_payload caps e.payload }
