-- ===== src/Gateway/Instances/Commands.antt =====
-- The commands of instance-registry.ts: `answerQuestion`, `decidePermission` and `sendSessionPrompt`,
-- and what settles them. The first two are one function of the kind, since they differ in the kind
-- that they want, the table that they keep and the message that they send.
use opencode_notify_hub.Shared.{
  ℕ, String, Bool, true, false, not, ◌&&◌, ◌||◌, Option, none, some, [], ◌∷◌, ◌==◌, if◌then◌else◌,
  is_none,
}
use opencode_notify_hub.Shared.OrdMap.{OrdMap, get, set, delete, drop_oldest}
use opencode_notify_hub.Shared.Table.{Table, find, put, erase}
use opencode_notify_hub.Gateway.Instances.State.{
  max_stale_request_ids, ControlConnection, Kind, question, permission, RecordKey-discrete,
  PendingKey, PendingKey-discrete, InstanceRecord, PendingCommand, CommandOutcomeStatus, confirmed,
  result_unknown, ServerMessage, question_answer_command, permission_decide_command,
  InstanceRegistry, Surroundings, Options,
}
use opencode_notify_hub.Gateway.Instances.Keys.{Platform, record_key}
use opencode_notify_hub.Gateway.Instances.Presence.{is_controllable, same_text}
use opencode_notify_hub.Gateway.Instances.Outcomes.{record_outcome, settle_outcome}
use opencode_notify_hub.Gateway.Instances.Links.{record_of, send}

pub data Refusal : Type 0 where
  not_found conflict : Refusal

-- `AnswerQuestionOutcome` and its like.
pub data Routed : Type 0 where
  refused : Refusal → Routed
  routed : String → Routed

abbrev pub same_kind : Kind → Kind → Bool
same_kind question question = true
same_kind permission permission = true
same_kind _ _ = false

-- The connection of a record that commands may go to.
unfoldable pub actionable : Surroundings → String → Option InstanceRecord → Option ℕ
actionable s user_id none = none
actionable s user_id (some rec) =
    if same_text rec.user_id user_id && is_controllable rec.state
    then elim rec.connection [
      | none ↦ none
      | some uid ↦ if s.sockets.is_open uid then some uid else none
    ]
    else none

abbrev pub commands : Kind → InstanceRegistry → Table PendingKey PendingCommand
commands question r = r.pending_answer_commands
commands permission r = r.pending_decide_commands

abbrev pub with_commands :
    Kind → Table PendingKey PendingCommand → InstanceRegistry → InstanceRegistry
with_commands question m r = record r { pending_answer_commands = m }
with_commands permission m r = record r { pending_decide_commands = m }

-- A command for the same request, or of the same id, is under way on the connection.
unfoldable pub in_flight : ℕ → String → String → Table PendingKey PendingCommand → Bool
in_flight uid request_id command_id [] = false
in_flight uid request_id command_id ((key, pending) ∷ m) =
    (pending.connection == uid
      && (same_text pending.request_id request_id || same_text pending.command_id command_id))
    || in_flight uid request_id command_id m

abbrev pub command_message : Kind → String → String → String → String → ServerMessage
command_message question command_id request_id session_id body =
    question_answer_command command_id request_id session_id body
command_message permission command_id request_id session_id body =
    permission_decide_command command_id request_id session_id body

-- `rememberStale`
unfoldable pub remember_stale : ℕ → String → OrdMap ℕ → OrdMap ℕ
remember_stale now request_id stale = drop_oldest max_stale_request_ids (set request_id now stale)

-- What a client asks for: the target and the command.
pub record Command : Type 0 where
  pub user_id : String
  pub instance_id : String
  pub request_id : String
  pub command_id : String
  pub session_id : String
  pub body : String

-- The checks of a request on the record that it names.
unfoldable pub refusal_of : Kind → Command → InstanceRecord → Option Refusal
refusal_of kind c rec = elim (get c.request_id rec.projected_requests) [
  | none ↦ some (if is_none (get c.request_id rec.stale_requests) then not_found else conflict)
  | some identity ↦
      if same_kind kind identity.kind && same_text identity.session_id c.session_id
      then none
      else some conflict
]

abbrev pub is_confirmed : CommandOutcomeStatus → Bool
is_confirmed confirmed = true
is_confirmed _ = false

abbrev pub is_text : String → Option String → Bool
is_text s none = false
is_text s (some t) = same_text t s

-- The timer of a command.
unfoldable pub command_timeout :
    Surroundings → Kind → PendingKey → InstanceRegistry → InstanceRegistry
command_timeout s kind key r = elim (find PendingKey-discrete key (commands kind r)) [
  | none ↦ r
  | some pending ↦ with_commands kind (erase PendingKey-discrete key (commands kind r)) (record r {
    command_outcomes = settle_outcome s.now_ms pending.command_id result_unknown r.command_outcomes;
  })
]

-- A command's outcome and the command itself, kept.
abbrev pub recorded :
    Options → ℕ → Kind → Command → InstanceRecord → ℕ → InstanceRegistry → InstanceRegistry
recorded o now kind c rec uid r =
    with_commands kind
      (put PendingKey-discrete (uid, c.command_id)
        (record { connection = uid; request_id = c.request_id; command_id = c.command_id })
        (commands kind r))
      (record r {
        command_outcomes =
            record_outcome o now
              (record {
                user_id = c.user_id;
                command_id = c.command_id;
                request_id = c.request_id;
                instance_id = rec.registration.instance_id;
                kind = kind;
              })
              r.command_outcomes;
      })

module _ (p : Platform) where
  -- Past every check: the outcome is recorded, the command kept and sent.
  unfoldable pub dispatch :
      Options
      → Surroundings
      → Kind
      → Command
      → InstanceRecord
      → ℕ
      → InstanceRegistry
      → InstanceRegistry
  dispatch o s kind c rec uid r =
      send p s uid (command_message kind c.command_id c.request_id c.session_id c.body)
        (recorded o s.now_ms kind c rec uid r)

  -- `answerQuestion`, `decidePermission`
  unfoldable pub route :
      Options → Surroundings → Kind → Command → InstanceRegistry → InstanceRegistry × Routed
  unfolding actionable refusal_of in_flight dispatch
  route o s kind c r =
      elim (find RecordKey-discrete (record_key c.user_id c.instance_id) r.records) [
        | none ↦ (r, refused not_found)
        | some rec ↦ elim (actionable s c.user_id (some rec)) [
          | none ↦ (r, refused not_found)
          | some uid ↦ elim (refusal_of kind c rec) [
            | some refusal ↦ (r, refused refusal)
            | none ↦
                if in_flight uid c.request_id c.command_id (commands kind r)
                then (r, refused conflict)
                else (dispatch o s kind c rec uid r, routed c.command_id)
          ]
        ]
      ]

  -- A confirmed command takes its request off the record.
  unfoldable pub resolve_request :
      Surroundings → ControlConnection → String → InstanceRegistry → InstanceRegistry
  unfolding remember_stale record_of
  resolve_request s c request_id r = elim (record_of p c r) [
    | none ↦ r
    | some rec ↦ record r {
      records =
          put RecordKey-discrete (record_key rec.user_id rec.registration.instance_id)
            (record rec {
              projected_requests = delete request_id rec.projected_requests;
              stale_requests = remember_stale s.now_ms request_id rec.stale_requests;
            })
            r.records;
    }
  ]

  -- `handleQuestionAnswerResult`, `handlePermissionDecideResult`
  unfoldable pub handle_result :
      Surroundings
      → Kind
      → ControlConnection
      → String
      → String
      → CommandOutcomeStatus
      → InstanceRegistry
      → InstanceRegistry
  unfolding resolve_request
  handle_result s kind c instance_id command_id status r =
      if not (is_text instance_id c.instance_id)
      then r
      else elim (find PendingKey-discrete (c.uid, command_id) (commands kind r)) [
        | none ↦ r
        | some pending ↦
            let taken =
              with_commands kind (erase PendingKey-discrete (c.uid, command_id) (commands kind r))
                r in
            let resolved =
              if is_confirmed status then resolve_request s c pending.request_id taken else taken in
            record resolved {
              command_outcomes =
                  settle_outcome s.now_ms pending.command_id status resolved.command_outcomes;
            }
      ]
