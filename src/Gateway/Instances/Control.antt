-- ===== src/Gateway/Instances/Control.antt =====
-- Who controls a directory, in every state that instance-registry.ts reaches.
use opencode_notify_hub.Shared.{ℕ, ◌≡◌, sym, ap, ◌∙◌, none, some, arith}
use opencode_notify_hub.Shared.Table.{find}
use opencode_notify_hub.Gateway.Instances.State.{
  ControlConnection, controllable, offline, RecordKey, RecordKey-discrete, OwnershipKey-discrete,
  InstanceRecord, InstanceRegistry, RegisterMessage, raises, Surroundings, Options,
}
use opencode_notify_hub.Gateway.Instances.Keys.{Platform, ownership_key, record_key}
use opencode_notify_hub.Gateway.Instances.Presence.{call, find_connection}
use opencode_notify_hub.Gateway.Instances.Links.{record_of, disconnect}
use opencode_notify_hub.Gateway.Instances.Ownership.Ended.{
  disconnect-IsEnded, find_connection-disconnect,
}
use opencode_notify_hub.Gateway.Instances.Register.{register, connection_at}
use opencode_notify_hub.Gateway.Instances.Ownership.Ties.{only}
use opencode_notify_hub.Gateway.Instances.Ownership.Register.{Present, register-raises}
use opencode_notify_hub.Gateway.Instances.Steps.{Reach, reach-Sound}

module _ (p : Platform) (o : Options) (r : InstanceRegistry) (run : Reach p o r) where
  -- In every state that the registry reaches, two records that are controllable and have the same
  -- ownership key (user, machine and normalised directory) are one record.
  pub one_in_control :
      (k k' : RecordKey) (rec rec' : InstanceRecord)
      → find RecordKey-discrete k r.records ≡ some rec
      → find RecordKey-discrete k' r.records ≡ some rec'
      → rec.state ≡ controllable
      → rec'.state ≡ controllable
      → ownership_key p rec.user_id rec.registration
        ≡ ownership_key p rec'.user_id rec'.registration
      → k ≡ k'
  unfolding ownership_key
  one_in_control k k' rec rec' found found' controls controls' same =
      let sound = reach-Sound p o r run in
      let fit = sound.fits k rec found in
      let fit' = sound.fits k' rec' found' in
      let both =
        sym (fit.held controls)
        ∙ ap (λ j. find OwnershipKey-discrete j r.ownership) same
        ∙ fit'.held controls' in
      let same_user : rec.user_id ≡ rec'.user_id = ap (λ j. j.0) same in
      let same_id : rec.registration.instance_id ≡ rec'.registration.instance_id = ground arith in
      fit.keyed ∙ (λ i. (same_user i, same_id i)) ∙ sym fit'.keyed

  -- In a reachable state, when the connection of a record drops, the registry does not hold it
  -- afterwards, and the record is offline since now with no connection, whoever is promoted in its
  -- place and whichever sends fail on the way.
  pub disconnect_ends :
      (s : Surroundings) (uid : ℕ) (c : ControlConnection) (rec : InstanceRecord)
      → find_connection uid r.connections ≡ some c
      → record_of p c r ≡ some rec
      → (find_connection uid (disconnect p s uid r).connections ≡ none)
        × (find RecordKey-discrete
              (record_key rec.user_id rec.registration.instance_id)
              (disconnect p s uid r).records
            ≡ some (record rec { connection = none; state = offline; last_seen_at = s.now_ms }))
  disconnect_ends s uid c rec there holds =
      let sound = reach-Sound p o r run in
      (
        find_connection-disconnect p s uid r sound,
        disconnect-IsEnded p s uid c rec r sound there holds,
      )

  -- In a reachable state, when a connection that the registry holds and that has not registered
  -- registers an instance whose connection is another one that the registry holds, register drops
  -- that other connection and then raises: the record is left offline, with no connection, and the
  -- new connection is not registered.
  pub register_replaces :
      (s : Surroundings) (c : ControlConnection) (m : RegisterMessage) (rec : InstanceRecord)
      (other : ControlConnection)
      → Present c r
      → c.instance_id ≡ none
      → find RecordKey-discrete (record_key c.user_id m.instance_id) r.records ≡ some rec
      → rec.connection ≡ some other.uid
      → find_connection other.uid r.connections ≡ some other
      → (register p s c m r ≡ call raises (disconnect p s other.uid r))
        × (find RecordKey-discrete (record_key c.user_id m.instance_id) (register p s c m r).records
            ≡ some (record rec { connection = none; state = offline; last_seen_at = s.now_ms }))
        × (find_connection other.uid (register p s c m r).connections ≡ none)
  register_replaces s c m rec other here fresh found linked held =
      let sound = reach-Sound p o r run in
      let k = record_key c.user_id m.instance_id in
      let fit = sound.fits k rec found in
      let at_key : connection_at p k r ≡ some other.uid = rw (found, connection_at) linked in
      let raised = register-raises p s c m r sound here fresh other.uid at_key in
      let ended =
        disconnect-IsEnded p s other.uid other rec r sound held
          (only p s other.uid other r sound held k rec found linked) in
      (
        raised,
        ap (λ (x : InstanceRegistry). find RecordKey-discrete k x.records) raised
            ∙ ap (λ j. find RecordKey-discrete j (disconnect p s other.uid r).records) fit.keyed
            ∙ ended,
        ap (λ (x : InstanceRegistry). find_connection other.uid x.connections) raised
            ∙ find_connection-disconnect p s other.uid r sound,
      )
