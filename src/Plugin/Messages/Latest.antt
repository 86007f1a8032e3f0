-- ===== src/Plugin/Messages/Latest.antt =====
-- The summary of message-cache.ts and the order of activity.
use mathlib.Core.List.{reverse-append}
use opencode_notify_hub.Shared.{
  ℕ, ◌<◌, String, ◌≡◌, refl, inl, inr, Bool, true, none, some, List, [], ◌∷◌, ◌++◌, arith, or_else,
  Option-cases,
}
use opencode_notify_hub.Shared.OrdMap.{
  OrdMap, get, delete, alter, get-alter, set-delete, get-delete_self, drop_oldest-snoc, alter-snoc,
  set_absent, get-snoc,
}
use opencode_notify_hub.Plugin.Messages.{
  user, assistant, MessageRecord, MessageCache, truncate_code_points, records_for, empty_record,
  touch, on_message, write_role, on_role, write_text, on_text, has_content, eligible,
  first_eligible, summary,
}

-- A touched record is the last one.
touch-last :
    (n : ℕ) (message : String) (records : OrdMap MessageRecord)
    → 0 < n
    → (rest : OrdMap MessageRecord) × (touch n message records
        ≡ rest ++ (message, or_else (get message records) empty_record) ∷ [])
      × (get message rest ≡ none)
unfolding touch
touch-last n message records room = elim (Option-cases (get message records)) [
  | inl absent ↦
      let (rest, e, gone) = drop_oldest-snoc n records message empty_record room absent in
      (rest, rw (absent, touch) (rw (set_absent message empty_record records absent) e), gone)
  | inr (r, found) ↦
      let (rest, e, gone) =
        drop_oldest-snoc n (delete message records) message r room
          (get-delete_self message records) in
      (rest, rw (found, touch) (rw (set-delete message r records) e), gone)
]

get-records_for :
    (session : String) (c : MessageCache)
    → 0 < c.max_sessions
    → get session (records_for session c) ≡ some (or_else (get session c.sessions) [])
unfolding records_for
get-records_for session c room = elim (Option-cases (get session c.sessions)) [
  | inl absent ↦
      let (rest, e, gone) = drop_oldest-snoc c.max_sessions c.sessions session [] room absent in
      rw (absent, records_for)
        (rw (set_absent session [] c.sessions absent, e) (get-snoc session [] rest gone))
  | inr (records, found) ↦ rw (found, records_for) found
]

-- The record of a message, the empty one if there is none.
abbrev pub record_of : String → String → MessageCache → MessageRecord
record_of session message c =
    or_else (get message (or_else (get session c.sessions) [])) empty_record

-- After an operation on a message its record, rewritten, is the session's last one.
on_message-last :
    (session message : String) (write : MessageRecord → MessageRecord) (c : MessageCache)
    → 0 < c.max_sessions
    → 0 < c.max_messages_per_session
    → (rest : OrdMap MessageRecord) × (get session (on_message session message write c).sessions
        ≡ some (rest ++ (message, write (record_of session message c)) ∷ []))
      × (get message rest ≡ none)
unfolding on_message
on_message-last session message write c room space =
    let records = or_else (get session c.sessions) [] in
    let (rest, e, gone) = touch-last c.max_messages_per_session message records space in
    (
      rest,
      rw
          (
            get-alter session session
                (λ rs. alter message write (touch c.max_messages_per_session message rs))
                (records_for session c),
            get-records_for session c room,
            e,
            alter-snoc message write (or_else (get message records) empty_record) rest gone,
          )
          (ground arith),
      gone,
    )

-- An operation on a message keeps the bounds.
bounds-on_message :
    (session message : String) (write : MessageRecord → MessageRecord) (c : MessageCache)
    → ((on_message session message write c).max_sessions ≡ c.max_sessions)
      × ((on_message session message write c).max_messages_per_session ≡ c.max_messages_per_session)
      × ((on_message session message write c).max_text_length ≡ c.max_text_length)
unfolding on_message
bounds-on_message session message write c = (refl, refl, refl)

record_of-on_message :
    (session message : String) (write : MessageRecord → MessageRecord) (c : MessageCache)
    → 0 < c.max_sessions
    → 0 < c.max_messages_per_session
    → record_of session message (on_message session message write c)
      ≡ write (record_of session message c)
record_of-on_message session message write c room space =
    let (rest, e, gone) = on_message-last session message write c room space in
    rw (e, get-snoc message (write (record_of session message c)) rest gone) refl

module _ (is_space : ℕ → Bool) where
  assistant_text :
      (r : MessageRecord) (text : List ℕ) (limit : ℕ)
      → has_content is_space (truncate_code_points text limit) ≡ true
      → eligible is_space (write_text limit text (write_role assistant r))
        ≡ some (truncate_code_points text limit)
  unfolding eligible write_text write_role
  assistant_text r text limit content = ground (arith, content)

  summary-last :
      (session message : String) (r : MessageRecord) (rest : OrdMap MessageRecord)
      (c : MessageCache) (text : List ℕ)
      → get session c.sessions ≡ some (rest ++ (message, r) ∷ [])
      → eligible is_space r ≡ some text
      → summary is_space session c ≡ some text
  unfolding summary first_eligible
  summary-last session message r rest c text e f =
      rw (e, summary) (rw (reverse-append rest ((message, r) ∷ [])) (rw (f, first_eligible) refl))

  -- With positive bounds on sessions and messages, the text of a message that is then an
  -- assistant's, cut to its bound, is the session's summary at once, unless the cut text is all
  -- white space.
  pub summary-on_text :
      (session message : String) (text : List ℕ) (c : MessageCache)
      → 0 < c.max_sessions
      → 0 < c.max_messages_per_session
      → has_content is_space (truncate_code_points text c.max_text_length) ≡ true
      → summary is_space session
          (on_text session message text (on_role session message assistant c))
        ≡ some (truncate_code_points text c.max_text_length)
  unfolding on_text on_role
  summary-on_text session message text c room space content =
      let c' = on_message session message (write_role assistant) c in
      let known = record_of-on_message session message (write_role assistant) c room space in
      let same = bounds-on_message session message (write_role assistant) c in
      let (rest, e, gone) =
        on_message-last session message (write_text c'.max_text_length text) c'
          (ground (arith, same)) (ground (arith, same)) in
      summary-last session message _ rest _ (truncate_code_points text c.max_text_length) e (
        rw (known, same.2)
          (assistant_text (record_of session message c) text c.max_text_length content))

-- With positive bounds on sessions and messages, once a message is known to be a user's it holds no
-- text: a text that comes after is dropped, and a change of its role to assistant brings no text
-- back.
pub user_text_gone :
    (session message : String) (text : List ℕ) (c : MessageCache)
    → 0 < c.max_sessions
    → 0 < c.max_messages_per_session
    → ((record_of session message
          (on_text session message text (on_role session message user c))).text
        ≡ none)
      × ((record_of session message
            (on_role session message assistant (on_role session message user c))).text
          ≡ none)
unfolding on_text on_role write_role write_text
user_text_gone session message text c room space =
    let c' = on_message session message (write_role user) c in
    let same = bounds-on_message session message (write_role user) c in
    let room' : 0 < c'.max_sessions = ground (arith, same) in
    let space' : 0 < c'.max_messages_per_session = ground (arith, same) in
    let known = record_of-on_message session message (write_role user) c room space in
    (
      ground (
        arith,
        known,
        record_of-on_message session message (write_text c'.max_text_length text) c' room' space',
      ),
      ground (
        arith,
        known,
        record_of-on_message session message (write_role assistant) c' room' space',
      ),
    )
