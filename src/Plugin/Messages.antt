-- ===== src/Plugin/Messages.antt =====
-- packages/plugin/src/message-cache.ts: the latest assistant text of each session. A text is the
-- list of its code points; which of them `trim` takes is a parameter, the platform's.
pub mod Privacy
pub mod Latest
use mathlib.Core.List.{reverse}
use opencode_notify_hub.Shared.{
  ℕ, String, Bool, true, false, not, ◌&&◌, ◌||◌, Option, none, some, List, [], ◌∷◌, leb,
  if◌then◌else◌, is_none, or_else, length, take,
}
use opencode_notify_hub.Shared.OrdMap.{OrdMap, get, set, delete, alter, drop_oldest}

pub data Role : Type 0 where
  user assistant : Role

pub record MessageRecord : Type 0 where
  pub role : Option Role
  pub text : Option (List ℕ)

pub record MessageCache : Type 0 where
  pub sessions : OrdMap (OrdMap MessageRecord)
  pub max_messages_per_session : ℕ
  pub max_text_length : ℕ
  pub max_sessions : ℕ

abbrev pub default_max_messages_per_session : ℕ
default_max_messages_per_session = 100

abbrev pub default_max_text_length : ℕ
default_max_text_length = 500

abbrev pub default_max_sessions : ℕ
default_max_sessions = 1000

-- `none` is the `RangeError` of a bound that is not positive.
unfoldable pub bounded_positive : ℕ → Option ℕ
bounded_positive value = if leb value 0 then none else some value

unfoldable pub create : Option ℕ → Option ℕ → Option ℕ → Option MessageCache
unfolding bounded_positive
create messages text sessions =
    elim (bounded_positive (or_else messages default_max_messages_per_session)) [
      | none ↦ none
      | some max_messages ↦ elim (bounded_positive (or_else text default_max_text_length)) [
        | none ↦ none
        | some max_text ↦ elim (bounded_positive (or_else sessions default_max_sessions)) [
          | none ↦ none
          | some max_sessions ↦ some (record {
            sessions = [];
            max_messages_per_session = max_messages;
            max_text_length = max_text;
            max_sessions = max_sessions;
          })
        ]
      ]
    ]

unfoldable pub truncate_code_points : List ℕ → ℕ → List ℕ
truncate_code_points text limit = if leb (length text) limit then text else take limit text

-- `recordsFor`: the sessions with this one in them, the oldest evicted past the cap.
unfoldable pub records_for : String → MessageCache → OrdMap (OrdMap MessageRecord)
records_for session c =
    if is_none (get session c.sessions)
    then drop_oldest c.max_sessions (set session [] c.sessions)
    else c.sessions

abbrev pub empty_record : MessageRecord
empty_record = record { role = none; text = none }

-- `touch`: the record, made on first use, moved to the tail; the least recent evicted past the cap.
unfoldable pub touch : ℕ → String → OrdMap MessageRecord → OrdMap MessageRecord
touch limit message records = elim (get message records) [
  | none ↦ drop_oldest limit (set message empty_record records)
  | some r ↦ drop_oldest limit (set message r (delete message records))
]

-- Touch the message's record, and write to it.
unfoldable pub on_message :
    String → String → (MessageRecord → MessageRecord) → MessageCache → MessageCache
on_message session message write c = record c {
  sessions =
      alter session
        (λ records. alter message write (touch c.max_messages_per_session message records))
        (records_for session c);
}

unfoldable pub write_role : Role → MessageRecord → MessageRecord
write_role user r = record { role = some user; text = none }
write_role assistant r = record r { role = some assistant }

unfoldable pub on_role : String → String → Role → MessageCache → MessageCache
on_role session message role = on_message session message (write_role role)

abbrev is_user : Option Role → Bool
is_user none = false
is_user (some user) = true
is_user (some assistant) = false

unfoldable pub write_text : ℕ → List ℕ → MessageRecord → MessageRecord
write_text limit text r =
    if is_user r.role then r else record r { text = some (truncate_code_points text limit) }

unfoldable pub on_text : String → String → List ℕ → MessageCache → MessageCache
on_text session message text c = on_message session message (write_text c.max_text_length text) c

module _ (is_space : ℕ → Bool) where
  -- `text.trim().length > 0`
  unfoldable pub has_content : List ℕ → Bool
  has_content [] = false
  has_content (c ∷ cs) = not (is_space c) || has_content cs

  abbrev is_assistant : Option Role → Bool
  is_assistant none = false
  is_assistant (some user) = false
  is_assistant (some assistant) = true

  unfoldable pub eligible : MessageRecord → Option (List ℕ)
  unfolding has_content
  eligible r = elim r.text [
    | none ↦ none
    | some text ↦ if is_assistant r.role && has_content text then some text else none
  ]

  -- The scan of `summary`, over the records with the latest first.
  unfoldable pub first_eligible : OrdMap MessageRecord → Option (List ℕ)
  first_eligible [] = none
  first_eligible ((message, r) ∷ records) = elim (eligible r) [
    | none ↦ first_eligible records
    | some text ↦ some text
  ]

  unfoldable pub summary : String → MessageCache → Option (List ℕ)
  summary session c = elim (get session c.sessions) [
    | none ↦ none
    | some records ↦ first_eligible (reverse records)
  ]

unfoldable pub clear_session : String → MessageCache → MessageCache
clear_session session c = record c { sessions = delete session c.sessions }

unfoldable pub clear : MessageCache → MessageCache
clear c = record c { sessions = [] }
