-- ===== src/Gateway/Instances/State.antt =====
-- The state of instance-registry.ts. Objects are told apart by a number: a control connection by its
-- `uid`, a client's socket likewise. A key that the source joins from parts with a NUL between is the
-- tuple of the parts, since no id holds a NUL. An interaction's content beside its identity, answers,
-- decisions and request bodies are texts that the registry passes on. Times are milliseconds.
use opencode_notify_hub.Shared.{
  ℕ, ◌*◌, String, ◌≡◌, refl, sym, ◌≢◌, Bool, Option, List, [], ◌∷◌, arith, ℕ_discrete,
  String-discrete,
}
use opencode_notify_hub.Shared.OrdMap.{OrdMap}
use opencode_notify_hub.Shared.Table.{Table, pair-discrete}
use opencode_notify_hub.Gateway.Connections.{Sockets}

abbrev pub control_close_invalid_frame : ℕ
control_close_invalid_frame = 4400

abbrev pub control_close_key_revoked : ℕ
control_close_key_revoked = 4403

abbrev pub max_stale_request_ids : ℕ
max_stale_request_ids = 256

abbrev pub command_outcome_ttl_ms : ℕ
command_outcome_ttl_ms = 10 * 60 * 1000

abbrev pub max_command_outcomes : ℕ
max_command_outcomes = 1024

abbrev pub supported_protocol_version : ℕ
supported_protocol_version = 2

-- Code points.
abbrev pub Text : Type 0
Text = List ℕ

cons_dec :
    {a b : ℕ} {xs ys : Text} → Dec (a ≡ b) → Dec (xs ≡ ys) → Dec (◌≡◌ {A = Text} (a ∷ xs) (b ∷ ys))
cons_dec (yes p) (yes q) = yes (λ i. p i ∷ q i)
cons_dec (yes p) (no n) = no (λ e. n (ground arith))
cons_dec (no n) _ = no (λ e. n (ground arith))

pub no_text : (a : ℕ) (xs : Text) → ◌≢◌ {A = Text} [] (a ∷ xs)
no_text a xs e = ground arith

unfoldable pub Text-discrete : Discrete Text
unfolding cons_dec
Text-discrete [] [] = yes refl
Text-discrete [] (b ∷ ys) = no (no_text b ys)
Text-discrete (a ∷ xs) [] = no (λ e. no_text a xs (sym e))
Text-discrete (a ∷ xs) (b ∷ ys) = cons_dec (ℕ_discrete a b) (Text-discrete xs ys)

pub record RegisterMessage : Type 0 where
  pub instance_id : String
  pub machine : Text
  pub project : String
  pub directory : Text
  pub open_code_version : String
  pub web_ui_available : Bool
  pub protocol_version : ℕ

pub record ControlConnection : Type 0 where
  pub uid : ℕ
  pub user_id : String
  pub key_id : String
  pub alive : Bool
  pub instance_id : Option String

pub data InstanceState : Type 0 where
  controllable conflicting incompatible offline : InstanceState

pub data Kind : Type 0 where
  question permission : Kind

pub record Identity : Type 0 where
  pub kind : Kind
  pub session_id : String

abbrev pub RecordKey : Type 0
RecordKey = String × String

unfoldable pub RecordKey-discrete : Discrete RecordKey
unfolding pair-discrete String-discrete
RecordKey-discrete = pair-discrete String-discrete String-discrete

-- The user, the machine, the directory.
abbrev pub OwnershipKey : Type 0
OwnershipKey = String × (Text × Text)

unfoldable pub OwnershipKey-discrete : Discrete OwnershipKey
unfolding pair-discrete String-discrete Text-discrete
OwnershipKey-discrete = pair-discrete String-discrete (pair-discrete Text-discrete Text-discrete)

-- A request or command of one connection.
abbrev pub PendingKey : Type 0
PendingKey = ℕ × String

unfoldable pub PendingKey-discrete : Discrete PendingKey
unfolding pair-discrete String-discrete
PendingKey-discrete = pair-discrete ℕ_discrete String-discrete

pub record InstanceRecord : Type 0 where
  pub registration : RegisterMessage
  pub user_id : String
  pub sequence : ℕ
  pub state : InstanceState
  pub last_seen_at : ℕ
  pub connection : Option ℕ
  pub projected_requests : OrdMap Identity
  pub stale_requests : OrdMap ℕ

-- An interaction on the wire, with the source that it names.
pub record PendingInteraction : Type 0 where
  pub request_id : String
  pub kind : Kind
  pub session_id : String
  pub instance_id : String
  pub machine : Text
  pub project : String
  pub directory : Text
  pub content : String

pub record PendingSnapshotRequest : Type 0 where
  pub connection : ℕ
  pub registration : RegisterMessage

-- `PendingAnswerCommand`, `PendingDecideCommand`.
pub record PendingCommand : Type 0 where
  pub connection : ℕ
  pub request_id : String
  pub command_id : String

pub record PendingPromptCommand : Type 0 where
  pub connection : ℕ
  pub session_id : String
  pub command_id : String

-- A tunnel object, which its client keeps; `listed` while the registry's map holds it.
pub record WebUiTunnel : Type 0 where
  pub listed : Bool
  pub user_id : String
  pub client : ℕ
  pub connection : ℕ
  pub pending_requests : List String

pub data CommandOutcomeStatus : Type 0 where
  accepted confirmed stale upstream_error result_unknown : CommandOutcomeStatus

pub record CommandOutcomeEntry : Type 0 where
  pub user_id : String
  pub request_id : String
  pub instance_id : String
  pub kind : Kind
  pub status : CommandOutcomeStatus
  pub updated_at : ℕ
  pub expires_at_ms : ℕ

pub record InstancePresence : Type 0 where
  pub instance_id : String
  pub machine : Text
  pub project : String
  pub directory : Text
  pub open_code_version : String
  pub web_ui_available : Bool
  pub protocol_version : ℕ
  pub state : InstanceState
  pub last_seen_at : ℕ

pub data CatalogResult : Type 0 where
  ready : String → CatalogResult
  not_found timed_out failed unsupported : CatalogResult

-- A request of a client over a tunnel, past the checks of its form.
pub record HttpRequest : Type 0 where
  pub request_id : String
  pub content : String

-- `PluginControlServerMessage`
pub data ServerMessage : Type 0 where
  registration : String → InstanceState → ServerMessage
  session_catalog_request : String → String → ServerMessage
  pending_snapshot_request : String → ServerMessage
  question_answer_command permission_decide_command :
      String → String → String → String → ServerMessage
  session_prompt_command : String → String → String → ServerMessage
  webui_http_request : String → HttpRequest → ServerMessage
  webui_http_cancel : String → String → ServerMessage
  webui_tunnel_close : String → ServerMessage

-- What the registry does outside itself.
pub data Call : Type 0 where
  sends : ℕ → ServerMessage → Call
  closes : ℕ → ℕ → Call
  terminates pings : ℕ → Call
  publishes : String → List InstancePresence → Call
  resolves_catalog : String → CatalogResult → Call
  resolves_snapshot : PendingKey → List PendingInteraction → Call
  client_sends : ℕ → String → Call
  client_closes : ℕ → ℕ → Call
  client_terminates : ℕ → Call
  -- A `TypeError` that ends the handler.
  raises : Call

pub record InstanceRegistry : Type 0 where
  pub records : Table RecordKey InstanceRecord
  pub ownership : Table OwnershipKey String
  pub connections : List ControlConnection
  pub pending_requests : Table PendingKey PendingSnapshotRequest
  pub pending_answer_commands : Table PendingKey PendingCommand
  pub pending_decide_commands : Table PendingKey PendingCommand
  pub pending_prompt_commands : Table PendingKey PendingPromptCommand
  pub web_ui_tunnels : OrdMap WebUiTunnel
  pub catalog_requests : OrdMap ℕ
  pub command_outcomes : OrdMap CommandOutcomeEntry
  pub next_sequence : ℕ
  pub next_connection_uid : ℕ
  pub calls : List Call

-- What an operation reads of its surroundings: the control sockets, the clients' sockets, the clock.
pub record Surroundings : Type 0 where
  pub sockets : Sockets
  pub clients : Sockets
  pub now_ms : ℕ

pub record Options : Type 0 where
  pub outcome_ttl_ms : ℕ
  pub max_command_outcomes : ℕ
