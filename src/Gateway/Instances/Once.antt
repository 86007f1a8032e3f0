-- ===== src/Gateway/Instances/Once.antt =====
-- A request that instance-registry.ts has routed is not routed again while it waits.
use opencode_notify_hub.Shared.{
  ℕ, String, ◌≡◌, refl, ap, ◌∙◌, ◌≢◌, ◌⊎◌, inl, inr, true, not, ◌||◌, some, [], ◌∷◌, arith, ltb,
  Bool-cases,
}
use opencode_notify_hub.Shared.Table.{Table, find, put}
use opencode_notify_hub.Gateway.Connections.{ws_max_buffered_bytes}
use opencode_notify_hub.Gateway.Instances.State.{
  RecordKey-discrete, InstanceRecord, InstanceRegistry, Surroundings, Options, Kind, question,
  permission, PendingKey, PendingKey-discrete, PendingCommand, ServerMessage, Call, sends,
}
use opencode_notify_hub.Gateway.Instances.Keys.{Platform, record_key}
use opencode_notify_hub.Gateway.Instances.Presence.{call}
use opencode_notify_hub.Gateway.Instances.Links.{send, send_with, disconnect}
use opencode_notify_hub.Gateway.Instances.Commands.{
  Command, Routed, routed, in_flight, commands, dispatch, recorded, route, command_message,
}
use opencode_notify_hub.Gateway.Instances.Ownership.{Sound}
use opencode_notify_hub.Gateway.Instances.Ownership.After.{core_same}
use opencode_notify_hub.Gateway.Instances.Ownership.Ties.{only}
use opencode_notify_hub.Gateway.Instances.Ownership.Ended.{disconnect-IsEnded}
use opencode_notify_hub.Gateway.Instances.Steps.{Reach, reach-Sound}
use opencode_notify_hub.Gateway.Instances.Routing.{Accepted, Accepted-route, route-Accepted}

send_ends :
    (p : Platform) (s : Surroundings) (uid : ℕ) (message : ServerMessage) (r : InstanceRegistry)
    → ((send p s uid message r).records ≡ (disconnect p s uid r).records)
      ⊎ (send p s uid message r ≡ call (sends uid message) r)
unfolding send send_with
send_ends p s uid message r =
    elim (Bool-cases
      (not (s.sockets.is_open uid) || ltb ws_max_buffered_bytes (s.sockets.buffered_amount uid))) [
        | inl closed ↦ inl (rw closed refl)
        | inr room ↦ elim (Bool-cases (s.sockets.throws uid)) [
          | inl broken ↦ inl (rw (room, broken) refl)
          | inr works ↦ inr (rw (room, works) refl)
        ]
      ]

in_flight-put :
    (uid : ℕ) (request_id command_id other : String) (m : Table PendingKey PendingCommand)
    → in_flight uid request_id other (
        put PendingKey-discrete
          (uid, command_id)
          (record { connection = uid; request_id = request_id; command_id = command_id })
          m)
      ≡ true
unfolding in_flight put
in_flight-put uid request_id command_id other [] = ground arith
in_flight-put uid request_id command_id other ((k, w) ∷ m) =
    ground (arith, in_flight-put uid request_id command_id other m)

module _ (o : Options) (now : ℕ) (c : Command) (rec : InstanceRecord) (uid : ℕ)
    (r : InstanceRegistry) where
  records-recorded : (kind : Kind) → (recorded o now kind c rec uid r).records ≡ r.records
  records-recorded question = refl
  records-recorded permission = refl

  ownership-recorded : (kind : Kind) → (recorded o now kind c rec uid r).ownership ≡ r.ownership
  ownership-recorded question = refl
  ownership-recorded permission = refl

  connections-recorded :
      (kind : Kind) → (recorded o now kind c rec uid r).connections ≡ r.connections
  connections-recorded question = refl
  connections-recorded permission = refl

  busy :
      (kind : Kind) (other : String)
      → in_flight uid c.request_id other (commands kind (recorded o now kind c rec uid r)) ≡ true
  busy question other = in_flight-put uid c.request_id c.command_id other r.pending_answer_commands
  busy permission other =
      in_flight-put uid c.request_id c.command_id other r.pending_decide_commands

commands-call :
    (x : Call) (r : InstanceRegistry) (kind : Kind) → commands kind (call x r) ≡ commands kind r
commands-call x r question = refl
commands-call x r permission = refl

module _ (p : Platform) (o : Options) (s s' : Surroundings) (kind : Kind) (c c' : Command)
    (r : InstanceRegistry) (h : Sound p r) (first : Accepted s kind c r)
    (same_user : c'.user_id ≡ c.user_id) (same_instance : c'.instance_id ≡ c.instance_id)
    (same_request : c'.request_id ≡ c.request_id) where
  abbrev after : InstanceRegistry
  after = recorded o s.now_ms kind c first.target first.connection r

  after-Sound : Sound p after
  after-Sound =
      core_same p r after h (records-recorded o s.now_ms c first.target first.connection r kind)
        (ownership-recorded o s.now_ms c first.target first.connection r kind)
        (connections-recorded o s.now_ms c first.target first.connection r kind)

  in_place :
      find RecordKey-discrete (record_key c.user_id c.instance_id) after.records ≡ some first.target
  in_place =
      ap (find RecordKey-discrete (record_key c.user_id c.instance_id))
        (records-recorded o s.now_ms c first.target first.connection r kind)
      ∙ first.found

  -- The send failed: the connection is gone, and its instance offline.
  when_gone :
      (r' : InstanceRegistry)
      → r'.records ≡ (disconnect p s first.connection after).records
      → ¬ (Accepted s' kind c' r')
  when_gone r' same_records second =
      let fit = after-Sound.fits (record_key c.user_id c.instance_id) first.target in_place in
      let (owner, held, user, names) = fit.linked first.connection first.connected in
      let ended =
        disconnect-IsEnded p s first.connection owner first.target after after-Sound held (
          only p s first.connection owner after after-Sound held _ first.target in_place
            first.connected) in
      let same_key : record_key c'.user_id c'.instance_id ≡ record_key c.user_id c.instance_id =
        λ i. (same_user i, same_instance i) in
      let k = record_key first.target.user_id first.target.registration.instance_id in
      let found =
        ap (λ i. find RecordKey-discrete i r'.records) (same_key ∙ fit.keyed)
        ∙ ap (find RecordKey-discrete k) same_records
        ∙ ended in
      let again = second.found in let linked = second.connected in ground arith

  when_sent : ¬ (
      Accepted s' kind c' (
        call
          (sends first.connection
            (command_message kind c.command_id c.request_id c.session_id c.body))
          after))
  when_sent second =
      let same_key : record_key c'.user_id c'.instance_id ≡ record_key c.user_id c.instance_id =
        λ i. (same_user i, same_instance i) in
      let found = ap (λ i. find RecordKey-discrete i after.records) same_key ∙ in_place in
      let again = second.found in
      let itself : second.target ≡ first.target = ground arith in
      let linked = second.connected in
      let first_linked = first.connected in
      let same_connection : second.connection ≡ first.connection = ground arith in
      let waits : in_flight second.connection c'.request_id c'.command_id (commands kind after)
          ≡ true =
        rw (same_connection, same_request)
          (busy o s.now_ms c first.target first.connection r kind c'.command_id) in
      let idle = second.idle in
      let same_commands =
        commands-call
          (sends first.connection
            (command_message kind c.command_id c.request_id c.session_id c.body))
          after kind in
      ground arith

  not_again : (id : String) → (route p o s' kind c' (route p o s kind c r).0).1 ≢ routed id
  unfolding dispatch
  not_again id again =
      let message = command_message kind c.command_id c.request_id c.session_id c.body in
      let sent =
        ap (λ (x : InstanceRegistry × Routed). x.0) (Accepted-route p o s kind c r first) in
      let second = route-Accepted p o s' kind c' (route p o s kind c r).0 id again in
      elim (send_ends p s first.connection message after) [
        | inl gone ↦
            when_gone (route p o s kind c r).0
              (ap (λ (x : InstanceRegistry). x.records) sent ∙ gone) second
        | inr works ↦ when_sent (rw (sent ∙ works) at second)
      ]

-- In a reachable state, once a command has been routed for a request, no command of its kind for
-- the same user, instance and request is routed by the next call, whatever its id, the state of the
-- sockets then and whether the first could be sent.
pub route_once :
    (p : Platform) (o : Options) (s s' : Surroundings) (kind : Kind) (c c' : Command)
    (r : InstanceRegistry)
    → Reach p o r
    → (route p o s kind c r).1 ≡ routed c.command_id
    → c'.user_id ≡ c.user_id
    → c'.instance_id ≡ c.instance_id
    → c'.request_id ≡ c.request_id
    → (id : String) → (route p o s' kind c' (route p o s kind c r).0).1 ≢ routed id
route_once p o s s' kind c c' r run is same_user same_instance same_request id =
    not_again p o s s' kind c c' r (reach-Sound p o r run)
      (route-Accepted p o s kind c r c.command_id is) same_user same_instance same_request id
