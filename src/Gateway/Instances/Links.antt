-- ===== src/Gateway/Instances/Links.antt =====
-- Sending and disconnecting in instance-registry.ts, which call each other: a failed send drops its
-- connection, a dropped connection may promote another instance, and the promoted one is sent a
-- message. Each drop takes a connection away, so the number of connections is fuel enough
-- (Instances/Fuel).
use opencode_notify_hub.Shared.{
  ℕ, zero, suc, String, ite, Bool, true, false, not, ◌&&◌, ◌||◌, Option, none, some, List, [], ◌∷◌,
  ltb, if◌then◌else◌, is_none, length, keep,
}
use opencode_notify_hub.Shared.Table.{Table, find, put, erase}
use opencode_notify_hub.Gateway.Instances.State.{
  ControlConnection, controllable, offline, RecordKey-discrete, OwnershipKey-discrete, OwnershipKey,
  InstanceRecord, ServerMessage, registration, sends, terminates, InstanceRegistry, Surroundings,
}
use opencode_notify_hub.Gateway.Connections.{ws_max_buffered_bytes}
use opencode_notify_hub.Gateway.Instances.Keys.{Platform, ownership_key, record_key}
use opencode_notify_hub.Gateway.Instances.Presence.{
  call, find_connection, is_controllable, is_conflicting, same_text, is_uid, values,
  sort_by_sequence, publish_snapshot,
}
use opencode_notify_hub.Gateway.Instances.Pending.{drop_pending}

-- `send`, with what drops a connection.
unfoldable pub send_with :
    (ℕ → InstanceRegistry → InstanceRegistry)
    → Surroundings
    → ℕ
    → ServerMessage
    → InstanceRegistry
    → InstanceRegistry
send_with drop s uid message r =
    if not (s.sockets.is_open uid) || ltb ws_max_buffered_bytes (s.sockets.buffered_amount uid)
    then call (terminates uid) (drop uid r)
    else if s.sockets.throws uid
    then drop uid r
    else call (sends uid message) r

module _ (p : Platform) where
  -- The instances that wait for an owner of the key, the earliest first.
  unfoldable pub candidates :
      OwnershipKey → String → Table (String × String) InstanceRecord → List InstanceRecord
  unfolding sort_by_sequence
  candidates key user_id records = sort_by_sequence (
      keep
        (λ rec.
          same_text rec.user_id user_id
          && is_conflicting rec.state
          && not (is_none rec.connection)
          && ite (OwnershipKey-discrete (ownership_key p rec.user_id rec.registration) key) true
              false)
        (values records))

  unfoldable pub promote_first :
      (ℕ → InstanceRegistry → InstanceRegistry)
      → Surroundings
      → OwnershipKey
      → List InstanceRecord
      → InstanceRegistry
      → InstanceRegistry
  unfolding send_with
  promote_first drop s key [] r = r
  promote_first drop s key (rec ∷ rest) r =
      let promoted = record r {
        records =
            put RecordKey-discrete (record_key rec.user_id rec.registration.instance_id)
              (record rec { state = controllable; last_seen_at = s.now_ms }) r.records;
        ownership = put OwnershipKey-discrete key rec.registration.instance_id r.ownership;
      } in
      elim rec.connection [
        | none ↦ promoted
        | some uid ↦
            send_with drop s uid (registration rec.registration.instance_id controllable) promoted
      ]

  unfoldable pub promote :
      (ℕ → InstanceRegistry → InstanceRegistry)
      → Surroundings
      → OwnershipKey
      → String
      → InstanceRegistry
      → InstanceRegistry
  unfolding candidates promote_first
  promote drop s key user_id r = promote_first drop s key (candidates key user_id r.records) r

  -- The end of `disconnect`: the record goes offline, and gives up what it owns.
  unfoldable pub go_offline : Surroundings → InstanceRecord → InstanceRegistry → InstanceRegistry
  go_offline s rec r = record r {
    records =
        put RecordKey-discrete (record_key rec.user_id rec.registration.instance_id)
          (record rec { connection = none; state = offline; last_seen_at = s.now_ms }) r.records;
  }

  abbrev pub owner_of : InstanceRecord → InstanceRegistry → Option String
  owner_of rec r =
      find OwnershipKey-discrete (ownership_key p rec.user_id rec.registration) r.ownership

  abbrev pub owns : InstanceRecord → InstanceRegistry → Bool
  owns rec r = elim (owner_of rec r) [
    | none ↦ false
    | some owner ↦ same_text owner rec.registration.instance_id
  ]

  unfoldable pub release :
      (ℕ → InstanceRegistry → InstanceRegistry)
      → Surroundings
      → InstanceRecord
      → InstanceRegistry
      → InstanceRegistry
  unfolding go_offline promote
  release drop s rec r =
      let gone = go_offline s rec r in
      let key = ownership_key p rec.user_id rec.registration in
      publish_snapshot s rec.user_id (
        if is_controllable rec.state && owns rec r
        then promote drop s key rec.user_id
            (record gone { ownership = erase OwnershipKey-discrete key gone.ownership })
        else gone)

  -- The record of a connection: the one of its instance, while it is this connection's.
  unfoldable pub record_of : ControlConnection → InstanceRegistry → Option InstanceRecord
  record_of c r = elim c.instance_id [
    | none ↦ none
    | some instance_id ↦
        elim (find RecordKey-discrete (record_key c.user_id instance_id) r.records) [
          | none ↦ none
          | some rec ↦ if is_uid c.uid rec.connection then some rec else none
        ]
  ]

  unfoldable pub disconnect_with : ℕ → Surroundings → ℕ → InstanceRegistry → InstanceRegistry
  unfolding drop_pending release record_of find_connection
  disconnect_with zero s uid r = r
  disconnect_with (suc fuel) s uid r = elim (find_connection uid r.connections) [
    | none ↦ r
    | some c ↦ elim (record_of c r) [
      | none ↦ drop_pending s uid r
      | some rec ↦ release (disconnect_with fuel s) s rec (drop_pending s uid r)
    ]
  ]

  unfoldable pub disconnect : Surroundings → ℕ → InstanceRegistry → InstanceRegistry
  unfolding disconnect_with
  disconnect s uid r = disconnect_with (length r.connections) s uid r

  unfoldable pub send : Surroundings → ℕ → ServerMessage → InstanceRegistry → InstanceRegistry
  unfolding send_with disconnect
  send s = send_with (disconnect s) s
