-- ===== src/Gateway/Instances/Steps.antt =====
-- The steps of instance-registry.ts, and the states that they reach. A step runs to its end before the
-- next one, as the handlers of one event loop do; the sockets and the clock may differ at each.
use opencode_notify_hub.Shared.{ℕ, String, refl, Option, arith}
use opencode_notify_hub.Shared.Table.{find, Unique}
use opencode_notify_hub.Gateway.Instances.State.{
  ControlConnection, InstanceRegistry, Surroundings, Options, Kind, PendingKey,
}
use opencode_notify_hub.Gateway.Instances.Keys.{Platform}
use opencode_notify_hub.Gateway.Instances.Links.{disconnect}
use opencode_notify_hub.Gateway.Instances.Register.{
  create, add, mark_alive, heartbeat_tick, revoke_key, close_all,
}
use opencode_notify_hub.Gateway.Instances.Forget.{forget_offline}
use opencode_notify_hub.Gateway.Instances.Commands.{Command, route, command_timeout}
use opencode_notify_hub.Gateway.Instances.Prompts.{send_session_prompt, prompt_timeout}
use opencode_notify_hub.Gateway.Instances.Snapshots.{collect_pending_interactions, snapshot_timeout}
use opencode_notify_hub.Gateway.Instances.Catalogs.{collect_sessions, catalog_timeout}
use opencode_notify_hub.Gateway.Instances.Tunnels.{
  WebUiFrame, open_tunnel, receive_request, close_tunnel,
}
use opencode_notify_hub.Gateway.Instances.Frames.{ClientMessage, receive}
use opencode_notify_hub.Gateway.Instances.Ownership.{Sound}
use opencode_notify_hub.Gateway.Instances.Ownership.After.{core_same}
use opencode_notify_hub.Gateway.Instances.Ownership.Connections.{
  add-Sound, disconnect-Sound, mark_alive-Sound, heartbeat_tick-Sound, revoke_key-Sound,
  close_all-Sound, forget_offline-Sound,
}
use opencode_notify_hub.Gateway.Instances.Ownership.Requests.{
  route-Sound, send_session_prompt-Sound, command_timeout-Sound,
}
use opencode_notify_hub.Gateway.Instances.Ownership.Queries.{
  collect_pending_interactions-Sound, snapshot_timeout-Sound, collect_sessions-Sound,
  catalog_timeout-Sound,
}
use opencode_notify_hub.Gateway.Instances.Ownership.Frames.{
  Timely, receive-Sound, open_tunnel-Sound, receive_request-Sound, close_tunnel-Sound,
}

pub data Step (p : Platform) (o : Options) (r : InstanceRegistry) : InstanceRegistry → Type 0 where
  adds : (user_id key_id : String) → Step p o r (add user_id key_id r)
  -- A frame, also a late one, but for the first registration of a connection that is already dropped.
  receives :
      (s : Surroundings) (c : ControlConnection) (m : Option ClientMessage)
      → Timely c m r
      → Step p o r (receive p s c m r)
  marks_alive : (s : Surroundings) (c : ControlConnection) → Step p o r (mark_alive p s c r)
  ticks : (s : Surroundings) (c : ControlConnection) → Step p o r (heartbeat_tick p s c r)
  disconnects : (s : Surroundings) (uid : ℕ) → Step p o r (disconnect p s uid r)
  revokes : (s : Surroundings) (key_id : String) → Step p o r (revoke_key p s key_id r)
  closes_all : (s : Surroundings) → Step p o r (close_all p s r)
  forgets :
      (s : Surroundings) (user_id instance_id : String)
      → Step p o r (forget_offline s user_id instance_id r).0
  routes : (s : Surroundings) (kind : Kind) (c : Command) → Step p o r (route p o s kind c r).0
  prompts :
      (s : Surroundings) (user_id instance_id session_id command_id text : String)
      → Step p o r (send_session_prompt p s user_id instance_id session_id command_id text r).0
  collects :
      (s : Surroundings) (uuid : ℕ → String) (user_id : String)
      → Step p o r (collect_pending_interactions p s uuid user_id r).0
  lists_sessions :
      (s : Surroundings) (request_id user_id instance_id query : String)
      → Step p o r (collect_sessions p s request_id user_id instance_id query r).0
  command_expires :
      (s : Surroundings) (kind : Kind) (key : PendingKey)
      → Step p o r (command_timeout s kind key r)
  prompt_expires : (key : PendingKey) → Step p o r (prompt_timeout key r)
  snapshot_expires : (key : PendingKey) → Step p o r (snapshot_timeout key r)
  catalog_expires : (request_id : String) → Step p o r (catalog_timeout request_id r)
  opens_tunnel :
      (s : Surroundings) (id : String) (client : ℕ) (user_id instance_id : String)
      → Step p o r (open_tunnel p s id client user_id instance_id r).0
  tunnels :
      (s : Surroundings) (id : String) (frame : WebUiFrame)
      → Step p o r (receive_request p s id frame r)
  closes_tunnel : (s : Surroundings) (id : String) → Step p o r (close_tunnel p s id r)

pub data Reach (p : Platform) (o : Options) : InstanceRegistry → Type 0 where
  here : Reach p o create
  later : {r r' : InstanceRegistry} → Reach p o r → Step p o r r' → Reach p o r'

module _ (p : Platform) (o : Options) where
  create-Sound : Sound p create
  unfolding create find Unique
  create-Sound = record {
    unique = tt;
    fits = λ k rec found. let no : ⊥ = ground arith in elim no [ ];
    owned = λ key id found. let no : ⊥ = ground arith in elim no [ ];
  }

  Step-Sound : (r r' : InstanceRegistry) → Step p o r r' → Sound p r → Sound p r'
  unfolding prompt_timeout
  Step-Sound r r' (adds user_id key_id) h = add-Sound p user_id key_id r h
  Step-Sound r r' (receives s c m timely) h = receive-Sound p s c m r h timely
  Step-Sound r r' (marks_alive s c) h = mark_alive-Sound p s c r h
  Step-Sound r r' (ticks s c) h = heartbeat_tick-Sound p s c r h
  Step-Sound r r' (disconnects s uid) h = disconnect-Sound p s uid r h
  Step-Sound r r' (revokes s key_id) h = revoke_key-Sound p s key_id r h
  Step-Sound r r' (closes_all s) h = close_all-Sound p s r h
  Step-Sound r r' (forgets s user_id instance_id) h =
      forget_offline-Sound p s user_id instance_id r h
  Step-Sound r r' (routes s kind c) h = route-Sound p o s kind c r h
  Step-Sound r r' (prompts s user_id instance_id session_id command_id text) h =
      send_session_prompt-Sound p s user_id instance_id session_id command_id text r h
  Step-Sound r r' (collects s uuid user_id) h =
      collect_pending_interactions-Sound p s uuid user_id r h
  Step-Sound r r' (lists_sessions s request_id user_id instance_id query) h =
      collect_sessions-Sound p s request_id user_id instance_id query r h
  Step-Sound r r' (command_expires s kind key) h = command_timeout-Sound p s kind key r h
  Step-Sound r r' (prompt_expires key) h = core_same p r _ h refl refl refl
  Step-Sound r r' (snapshot_expires key) h = snapshot_timeout-Sound p key r h
  Step-Sound r r' (catalog_expires request_id) h = catalog_timeout-Sound p request_id r h
  Step-Sound r r' (opens_tunnel s id client user_id instance_id) h =
      open_tunnel-Sound p s id client user_id instance_id r h
  Step-Sound r r' (tunnels s id frame) h = receive_request-Sound p s id frame r h
  Step-Sound r r' (closes_tunnel s id) h = close_tunnel-Sound p s id r h

  pub reach-Sound : (r : InstanceRegistry) → Reach p o r → Sound p r
  reach-Sound r here = create-Sound
  reach-Sound r (later run step) = Step-Sound _ r step (reach-Sound _ run)
