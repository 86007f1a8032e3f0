-- ===== src/Gateway/Instances/Presence.antt =====
-- The snapshot of instance-registry.ts that a user's clients see, and small tests on the state.
use opencode_notify_hub.Shared.{
  ℕ, String, ite, Bool, true, false, not, ◌&&◌, Option, none, some, List, [], ◌∷◌, map, leb, ◌==◌,
  if◌then◌else◌, String-discrete, keep,
}
use opencode_notify_hub.Shared.Table.{Table}
use opencode_notify_hub.Gateway.Instances.State.{
  ControlConnection, InstanceState, controllable, conflicting, offline, InstanceRecord,
  InstancePresence, Call, publishes, InstanceRegistry, Surroundings,
}

abbrev pub call : Call → InstanceRegistry → InstanceRegistry
call c r = record r { calls = c ∷ r.calls }

unfoldable pub find_connection : ℕ → List ControlConnection → Option ControlConnection
find_connection uid [] = none
find_connection uid (c ∷ cs) = if c.uid == uid then some c else find_connection uid cs

-- `Set.delete`
unfoldable pub others : ℕ → List ControlConnection → List ControlConnection
others uid = keep (λ c. not (c.uid == uid))

abbrev pub is_controllable : InstanceState → Bool
is_controllable controllable = true
is_controllable _ = false

abbrev pub is_conflicting : InstanceState → Bool
is_conflicting conflicting = true
is_conflicting _ = false

abbrev pub is_offline : InstanceState → Bool
is_offline offline = true
is_offline _ = false

abbrev pub same_text : String → String → Bool
same_text s t = ite (String-discrete s t) true false

abbrev pub is_uid : ℕ → Option ℕ → Bool
is_uid uid none = false
is_uid uid (some other) = other == uid

abbrev pub is_open_uid : Surroundings → Option ℕ → Bool
is_open_uid s none = false
is_open_uid s (some uid) = s.sockets.is_open uid

-- `toPresence`
unfoldable pub to_presence : InstanceRecord → InstancePresence
to_presence rec = record {
  instance_id = rec.registration.instance_id;
  machine = rec.registration.machine;
  project = rec.registration.project;
  directory = rec.registration.directory;
  open_code_version = rec.registration.open_code_version;
  web_ui_available = rec.registration.web_ui_available;
  protocol_version = rec.registration.protocol_version;
  state = rec.state;
  last_seen_at = rec.last_seen_at;
}

abbrev pub values : {K V : Type 0} → Table K V → List V
values [] = []
values ((k, v) ∷ m) = v ∷ values m

-- `sort` by the sequence, which keeps the order of equals.
unfoldable pub insert_by_sequence : InstanceRecord → List InstanceRecord → List InstanceRecord
insert_by_sequence rec [] = rec ∷ []
insert_by_sequence rec (other ∷ rest) =
    if leb rec.sequence other.sequence
    then rec ∷ other ∷ rest
    else other ∷ insert_by_sequence rec rest

unfoldable pub sort_by_sequence : List InstanceRecord → List InstanceRecord
unfolding insert_by_sequence
sort_by_sequence [] = []
sort_by_sequence (rec ∷ rest) = insert_by_sequence rec (sort_by_sequence rest)

unfoldable pub snapshot : Surroundings → String → InstanceRegistry → List InstancePresence
unfolding sort_by_sequence to_presence
snapshot s user_id r = map to_presence (
    sort_by_sequence (
      keep
        (λ rec.
          same_text rec.user_id user_id
          && not (is_offline rec.state)
          && is_open_uid s rec.connection)
        (values r.records)))

unfoldable pub publish_snapshot : Surroundings → String → InstanceRegistry → InstanceRegistry
unfolding snapshot
publish_snapshot s user_id r = call (publishes user_id (snapshot s user_id r)) r
