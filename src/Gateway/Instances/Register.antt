-- ===== src/Gateway/Instances/Register.antt =====
-- Registration and the life of a control connection in instance-registry.ts.
use opencode_notify_hub.Shared.{
  ℕ, ◌+◌, String, ite, Bool, true, false, not, ◌&&◌, Option, none, some, List, [], ◌∷◌, ◌++◌, ◌==◌,
  if◌then◌else◌, keep,
}
use opencode_notify_hub.Shared.Table.{Table, find, put}
use opencode_notify_hub.Gateway.Instances.State.{
  control_close_invalid_frame, control_close_key_revoked, supported_protocol_version,
  RegisterMessage, ControlConnection, InstanceState, controllable, conflicting, incompatible,
  RecordKey, RecordKey-discrete, OwnershipKey, OwnershipKey-discrete, InstanceRecord, ServerMessage,
  closes, raises, terminates, pings, InstanceRegistry, Surroundings,
}
use opencode_notify_hub.Gateway.Connections.{ws_close_server_shutdown}
use opencode_notify_hub.Gateway.Instances.Keys.{Platform, ownership_key, record_key}
use opencode_notify_hub.Gateway.Instances.Presence.{call, is_offline, same_text, publish_snapshot}
use opencode_notify_hub.Gateway.Instances.Links.{record_of, disconnect, send}

-- A new `InstanceRegistry`.
unfoldable pub create : InstanceRegistry
create = record {
  records = [];
  ownership = [];
  connections = [];
  pending_requests = [];
  pending_answer_commands = [];
  pending_decide_commands = [];
  pending_prompt_commands = [];
  web_ui_tunnels = [];
  catalog_requests = [];
  command_outcomes = [];
  next_sequence = 0;
  next_connection_uid = 0;
  calls = [];
}

-- A change of a connection object, which the set holds.
abbrev pub amend_connection :
    ℕ → (ControlConnection → ControlConnection) → List ControlConnection → List ControlConnection
amend_connection uid f [] = []
amend_connection uid f (c ∷ cs) = (if c.uid == uid then f c else c) ∷ amend_connection uid f cs

unfoldable pub amend :
    ℕ → (ControlConnection → ControlConnection) → InstanceRegistry → InstanceRegistry
amend uid f r = record r { connections = amend_connection uid f r.connections }

-- `add`, for a user's key.
unfoldable pub add : String → String → InstanceRegistry → InstanceRegistry
add user_id key_id r = record r {
  connections =
      r.connections
      ++ (record {
        uid = r.next_connection_uid;
        user_id = user_id;
        key_id = key_id;
        alive = true;
        instance_id = none;
      })
        ∷ [];
  next_connection_uid = r.next_connection_uid + 1;
}

-- The state of a new registration, from the owner of its key.
unfoldable pub state_for : RegisterMessage → Option String → InstanceState
state_for m owner =
    if not (m.protocol_version == supported_protocol_version) then incompatible else elim owner [
      | none ↦ controllable
      | some id ↦ if same_text id m.instance_id then controllable else conflicting
    ]

module _ (p : Platform) where
  abbrev pub is_prunable : String → OwnershipKey → String → InstanceRecord → Bool
  is_prunable user_id key except rec =
      same_text rec.user_id user_id
      && not (same_text rec.registration.instance_id except)
      && is_offline rec.state
      && ite (OwnershipKey-discrete (ownership_key p user_id rec.registration) key) true false

  unfoldable pub prune_offline_ownership :
      String
      → OwnershipKey
      → String
      → Table RecordKey InstanceRecord
      → Table RecordKey InstanceRecord
  prune_offline_ownership user_id key except = keep (λ e. not (is_prunable user_id key except e.1))

  abbrev pub connection_at : RecordKey → InstanceRegistry → Option ℕ
  connection_at k r = elim (find RecordKey-discrete k r.records) [
    | none ↦ none
    | some rec ↦ rec.connection
  ]

  -- The first statement of `register`, and whether it goes on: `existing` is the object that the map
  -- holds, so its connection is read again after `disconnect`, and a socket of none is a `TypeError`.
  unfoldable pub replace_existing :
      Surroundings → ℕ → RecordKey → InstanceRegistry → InstanceRegistry × Bool
  replace_existing s uid k r = elim (connection_at k r) [
    | none ↦ (r, true)
    | some other ↦
        if other == uid
        then (r, true)
        else let gone = disconnect p s other r in
          elim (connection_at k gone) [
            | none ↦ (gone, false)
            | some still ↦ (call (closes still control_close_invalid_frame) gone, true)
          ]
  ]

  abbrev pub next_of : Option InstanceRecord → ℕ → ℕ
  next_of none next = next + 1
  next_of (some rec) next = next

  abbrev pub sequence_of : Option InstanceRecord → ℕ → ℕ
  sequence_of none next = next
  sequence_of (some rec) next = rec.sequence

  abbrev pub claim :
      InstanceState → OwnershipKey → String → Table OwnershipKey String → Table OwnershipKey String
  claim controllable key id m = put OwnershipKey-discrete key id m
  claim _ key id m = m

  -- The record is stored, and the state that it gets claimed.
  unfoldable pub enroll :
      Surroundings
      → ControlConnection
      → RegisterMessage
      → Option InstanceRecord
      → InstanceRegistry
      → InstanceRegistry
  unfolding state_for prune_offline_ownership
  enroll s c m existing r =
      let key = ownership_key p c.user_id m in
      let state = state_for m (find OwnershipKey-discrete key r.ownership) in
      record r {
        records =
            put RecordKey-discrete (record_key c.user_id m.instance_id)
              (record {
                registration = m;
                user_id = c.user_id;
                sequence = sequence_of existing r.next_sequence;
                state = state;
                last_seen_at = s.now_ms;
                connection = some c.uid;
                projected_requests = [];
                stale_requests = [];
              })
              (prune_offline_ownership c.user_id key m.instance_id r.records);
        ownership = claim state key m.instance_id r.ownership;
        next_sequence = next_of existing r.next_sequence;
      }

  unfoldable pub register :
      Surroundings → ControlConnection → RegisterMessage → InstanceRegistry → InstanceRegistry
  unfolding replace_existing enroll amend
  register s c m r =
      let k = record_key c.user_id m.instance_id in
      let existing = find RecordKey-discrete k r.records in
      let replaced = replace_existing s c.uid k r in
      if not replaced.1
      then call raises replaced.0
      else let named =
          amend c.uid (λ c. record c { instance_id = some m.instance_id }) replaced.0 in
        let enrolled = enroll s c m existing named in
        let state =
          state_for m (find OwnershipKey-discrete (ownership_key p c.user_id m) named.ownership) in
        publish_snapshot s c.user_id
          (send p s c.uid (ServerMessage.registration m.instance_id state) enrolled)

  -- The callback of a connection's heartbeat.
  unfoldable pub heartbeat_tick :
      Surroundings → ControlConnection → InstanceRegistry → InstanceRegistry
  unfolding amend
  heartbeat_tick s c r =
      if not (s.sockets.is_open c.uid)
      then disconnect p s c.uid r
      else if not c.alive
      then call (terminates c.uid) (disconnect p s c.uid r)
      else call (pings c.uid) (amend c.uid (λ c. record c { alive = false }) r)

  -- `touch`
  unfoldable pub touch : Surroundings → ControlConnection → InstanceRegistry → InstanceRegistry
  unfolding record_of
  touch s c r = elim (record_of p c r) [
    | none ↦ r
    | some rec ↦ record r {
      records =
          put RecordKey-discrete (record_key rec.user_id rec.registration.instance_id)
            (record rec { last_seen_at = s.now_ms }) r.records;
    }
  ]

  -- `markAlive`, on a ping or pong.
  unfoldable pub mark_alive : Surroundings → ControlConnection → InstanceRegistry → InstanceRegistry
  unfolding amend touch
  mark_alive s c r = touch s c (amend c.uid (λ c. record c { alive = true }) r)

  abbrev pub disconnect_each :
      Surroundings → ℕ → List ControlConnection → InstanceRegistry → InstanceRegistry
  disconnect_each s code [] r = r
  disconnect_each s code (c ∷ cs) r =
      disconnect_each s code cs (call (closes c.uid code) (disconnect p s c.uid r))

  unfoldable pub revoke_key : Surroundings → String → InstanceRegistry → InstanceRegistry
  revoke_key s key_id r =
      disconnect_each s control_close_key_revoked
        (keep (λ c. same_text c.key_id key_id) r.connections) r

  unfoldable pub close_all : Surroundings → InstanceRegistry → InstanceRegistry
  close_all s r = disconnect_each s ws_close_server_shutdown r.connections r
