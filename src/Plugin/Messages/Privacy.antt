-- ===== src/Plugin/Messages/Privacy.antt =====
-- What message-cache.ts retains.
use opencode_notify_hub.Shared.{
  ℕ, ◌≤◌, String, ◌≡◌, refl, inl, inr, Option, none, some, List, [], arith, is_none, Bool-cases,
  Option-cases, length, length-take-le,
}
use opencode_notify_hub.Shared.OrdMap.{
  OrdMap, AllValues, get, alter, size, size-drop_oldest-le, size-alter, size-delete-le,
  set-AllValues, delete-AllValues, drop_oldest-AllValues, alter-AllValues, get-AllValues,
}
use opencode_notify_hub.Plugin.Messages.{
  Role, user, assistant, MessageRecord, MessageCache, truncate_code_points, records_for,
  empty_record, touch, on_message, write_role, on_role, write_text, on_text, clear_session, clear,
}

abbrev pub text_length : Option (List ℕ) → ℕ
text_length none = 0
text_length (some text) = length text

-- A retained record: no text of a user, and no text over the bound.
pub record IsPrivate (limit : ℕ) (r : MessageRecord) : Type 0 where
  pub no_user_text : r.role ≡ some user → r.text ≡ none
  pub bounded : text_length r.text ≤ limit

pub record IsBounded (max_messages max_text : ℕ) (records : OrdMap MessageRecord) : Type 0 where
  pub size_le : size records ≤ max_messages
  pub records_private : AllValues (IsPrivate max_text) records

pub record IsValid (c : MessageCache) : Type 0 where
  pub sessions_le : size c.sessions ≤ c.max_sessions
  pub sessions_bounded :
      AllValues (IsBounded c.max_messages_per_session c.max_text_length) c.sessions

write_role-IsPrivate :
    (limit : ℕ) (role : Role) (r : MessageRecord)
    → IsPrivate limit r
    → IsPrivate limit (write_role role r)
unfolding write_role
write_role-IsPrivate limit user r v = record { no_user_text = λ e. refl; bounded = omega arith }
write_role-IsPrivate limit assistant r v = record { no_user_text = λ e. cc; bounded = v.bounded }

write_text-IsPrivate :
    (limit : ℕ) (text : List ℕ) (r : MessageRecord)
    → IsPrivate limit r
    → IsPrivate limit (write_text limit text r)
unfolding write_text truncate_code_points
write_text-IsPrivate limit text r v = record {
  no_user_text = λ e. ground (arith, v.no_user_text);
  bounded = ground (arith, v.bounded, length-take-le limit text);
}

touch-IsBounded :
    (n limit : ℕ) (message : String) (records : OrdMap MessageRecord)
    → IsBounded n limit records
    → IsBounded n limit (touch n message records)
unfolding touch
touch-IsBounded n limit message records v = elim (Option-cases (get message records)) [
  | inl absent ↦
      rw (absent, touch)
        (record {
          size_le = size-drop_oldest-le n _;
          records_private = drop_oldest-AllValues _ n _ (
              set-AllValues _ message empty_record records
                (record { no_user_text = λ e. refl; bounded = omega arith }) v.records_private);
        })
  | inr (r, found) ↦
      rw (found, touch)
        (record {
          size_le = size-drop_oldest-le n _;
          records_private = drop_oldest-AllValues _ n _ (
              set-AllValues _ message r _ (get-AllValues _ message records v.records_private found)
                (delete-AllValues _ message records v.records_private));
        })
]

abbrev IsKept : MessageCache → OrdMap (OrdMap MessageRecord) → Type 0
IsKept c sessions =
    (size sessions ≤ c.max_sessions)
    × AllValues (IsBounded c.max_messages_per_session c.max_text_length) sessions

records_for-IsKept :
    (session : String) (c : MessageCache) → IsValid c → IsKept c (records_for session c)
unfolding records_for
records_for-IsKept session c v = elim (Bool-cases (is_none (get session c.sessions))) [
  | inl absent ↦
      rw (absent, records_for)
        (
          size-drop_oldest-le c.max_sessions _,
          drop_oldest-AllValues _ c.max_sessions _ (
              set-AllValues _ session [] c.sessions
                (record { size_le = omega arith; records_private = tt }) v.sessions_bounded),
        )
  | inr present ↦ rw (present, records_for) (v.sessions_le, v.sessions_bounded)
]

on_message-IsValid :
    (session message : String) (write : MessageRecord → MessageRecord) (c : MessageCache)
    → ((r : MessageRecord) → IsPrivate c.max_text_length r → IsPrivate c.max_text_length (write r))
    → IsValid c
    → IsValid (on_message session message write c)
unfolding on_message
on_message-IsValid session message write c keeps v =
    let kept = records_for-IsKept session c v in
    record {
      sessions_le =
          rw
            (size-alter session
              (λ records. alter message write (touch c.max_messages_per_session message records))
              (records_for session c))
            kept.0;
      sessions_bounded =
          alter-AllValues _ session _ (records_for session c)
            (λ records b.
              let touched =
                touch-IsBounded c.max_messages_per_session c.max_text_length message records b in
              record {
                size_le =
                    rw (size-alter message write (touch c.max_messages_per_session message records))
                      touched.size_le;
                records_private = alter-AllValues _ message write _ keeps touched.records_private;
              })
            kept.1;
    }

-- From a valid cache every operation gives a valid cache: no message whose role is user holds a
-- text, and no text, no session and not the cache itself is over its bound.
pub cache_operations-IsValid :
    (session message : String) (role : Role) (text : List ℕ) (c : MessageCache)
    → IsValid c
    → IsValid (on_role session message role c)
      × IsValid (on_text session message text c)
      × IsValid (clear_session session c)
      × IsValid (clear c)
unfolding on_role on_text clear_session clear
cache_operations-IsValid session message role text c v = (
  on_message-IsValid session message _ c (write_role-IsPrivate c.max_text_length role) v,
  on_message-IsValid session message _ c (write_text-IsPrivate c.max_text_length text) v,
  record {
    sessions_le = omega (arith, v.sessions_le, size-delete-le session c.sessions);
    sessions_bounded = delete-AllValues _ session c.sessions v.sessions_bounded;
  },
  record { sessions_le = omega arith; sessions_bounded = tt },
)
