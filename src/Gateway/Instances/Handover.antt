-- ===== src/Gateway/Instances/Handover.antt =====
-- Who takes over when the controlling instance of instance-registry.ts disconnects.
use opencode_notify_hub.Shared.{
  ℕ, suc, ◌≤◌, ◌≡◌, refl, sym, ap, ◌∙◌, Bool, true, false, Option, none, some, List, [], ◌∷◌, arith,
  ltb, length, keep,
}
use opencode_notify_hub.Shared.Table.{find, find_same, put, Table}
use opencode_notify_hub.Gateway.Connections.{ws_max_buffered_bytes}
use opencode_notify_hub.Gateway.Instances.State.{
  ControlConnection, controllable, offline, RecordKey, RecordKey-discrete, OwnershipKey,
  OwnershipKey-discrete, InstanceRecord, InstanceRegistry, registration, Surroundings, Options,
}
use opencode_notify_hub.Gateway.Instances.Keys.{Platform, ownership_key, record_key}
use opencode_notify_hub.Gateway.Instances.Presence.{
  find_connection, values, sort_by_sequence, publish_snapshot, is_controllable,
}
use opencode_notify_hub.Gateway.Instances.Pending.{drop_pending}
use opencode_notify_hub.Gateway.Instances.Links.{
  record_of, disconnect, disconnect_with, candidates, go_offline, release, promote, promote_first,
  send_with,
}
use opencode_notify_hub.Gateway.Instances.Fuel.{disconnect_with-enough, disconnect_with-holds}
use opencode_notify_hub.Gateway.Instances.Ownership.{Sound, key_of}
use opencode_notify_hub.Gateway.Instances.Ownership.Release.{stands, freed}
use opencode_notify_hub.Gateway.Instances.Ownership.Disconnect.{is_owner}
use opencode_notify_hub.Gateway.Instances.Steps.{Reach, reach-Sound}

module _ (test : InstanceRecord → Bool) (k : RecordKey) (v w : InstanceRecord) where
  -- One record that the test refuses takes another's place.
  keep-put :
      (m : Table RecordKey InstanceRecord)
      → find RecordKey-discrete k m ≡ some v
      → test v ≡ false
      → test w ≡ false
      → keep test (values (put RecordKey-discrete k w m)) ≡ keep test (values m)
  unfolding find put
  keep-put [] found hv hw = ground arith
  keep-put ((j, x) ∷ m) found hv hw = elim (RecordKey-discrete k j) [
    | yes same ↦ ground arith
    | no apart ↦ ground (arith, keep-put m)
  ]

module _ (p : Platform) (s : Surroundings) (uid : ℕ) (c : ControlConnection)
    (rec next : InstanceRecord) (rest : List InstanceRecord) (j : ℕ) (r : InstanceRegistry) where
  abbrev risen : InstanceRecord
  risen = record next { state = controllable; last_seen_at = s.now_ms }

  abbrev key : OwnershipKey
  key = key_of p rec

  -- Going offline, the owner leaves those who wait as they were.
  candidates-go_offline :
      find RecordKey-discrete (record_key rec.user_id rec.registration.instance_id) r.records
        ≡ some rec
      → rec.state ≡ controllable
      → candidates p key rec.user_id r.records ≡ next ∷ rest
      → candidates p key rec.user_id (freed p s uid rec r).records ≡ next ∷ rest
  unfolding candidates go_offline drop_pending
  candidates-go_offline found controls waiting =
      ap sort_by_sequence (
        keep-put _ (record_key rec.user_id rec.registration.instance_id) rec
          (record rec { connection = none; state = offline; last_seen_at = s.now_ms }) r.records
          found (ground arith) (ground arith))
      ∙ waiting

  TakesOver : InstanceRegistry → Type 0
  TakesOver r' =
      (find OwnershipKey-discrete key r'.ownership ≡ some next.registration.instance_id)
      × (find RecordKey-discrete (record_key next.user_id next.registration.instance_id) r'.records
          ≡ some risen)

  abbrev rose : InstanceRegistry → InstanceRegistry
  rose f = record f {
    records =
        put RecordKey-discrete (record_key next.user_id next.registration.instance_id) risen
          f.records;
    ownership = put OwnershipKey-discrete key next.registration.instance_id f.ownership;
  }

  told :
      (d : ℕ → InstanceRegistry → InstanceRegistry) (f : InstanceRegistry)
      → next.connection ≡ some j
      → promote_first p d s key (next ∷ rest) f
        ≡ send_with d s j (registration next.registration.instance_id controllable) (rose f)
  unfolding promote_first
  told d f linked =
      ap
        (λ (o : Option ℕ). elim o [
          | none ↦ rose f
          | some uid ↦
              send_with d s uid (registration next.registration.instance_id controllable) (rose f)
        ])
        linked

  promote-TakesOver :
      (d : ℕ → InstanceRegistry → InstanceRegistry) (f : InstanceRegistry)
      → candidates p key rec.user_id f.records ≡ next ∷ rest
      → next.connection ≡ some j
      → s.sockets.is_open j ≡ true
      → s.sockets.buffered_amount j ≤ ws_max_buffered_bytes
      → s.sockets.throws j ≡ false
      → TakesOver (promote p d s key rec.user_id f)
  unfolding promote promote_first send_with TakesOver
  promote-TakesOver d f waiting linked opened room works =
      let k = record_key next.user_id next.registration.instance_id in
      let full : ltb ws_max_buffered_bytes (s.sockets.buffered_amount j) ≡ false = ground arith in
      rw (waiting, promote)
        (rw (told d f linked) (
          rw (opened, works, full)
            (
              find_same OwnershipKey-discrete key key next.registration.instance_id f.ownership
                  refl,
              find_same RecordKey-discrete k k risen f.records refl,
            )))

  pub taken_over :
      Sound p r
      → find_connection uid r.connections ≡ some c
      → record_of p c r ≡ some rec
      → rec.state ≡ controllable
      → candidates p key rec.user_id r.records ≡ next ∷ rest
      → next.connection ≡ some j
      → s.sockets.is_open j ≡ true
      → s.sockets.buffered_amount j ≤ ws_max_buffered_bytes
      → s.sockets.throws j ≡ false
      → (find OwnershipKey-discrete key (disconnect p s uid r).ownership
          ≡ some next.registration.instance_id)
        × (find RecordKey-discrete
              (record_key next.user_id next.registration.instance_id)
              (disconnect p s uid r).records
            ≡ some risen)
  unfolding release publish_snapshot TakesOver
  taken_over h there holds controls waiting linked opened room works =
      let fuel = length r.connections in
      let is : is_controllable rec.state ≡ true = rw controls refl in
      let found = stands p s uid c r h there rec holds in
      rw
        (sym (disconnect_with-enough p s (suc fuel) uid r (omega arith))
          ∙ disconnect_with-holds p s uid r fuel c rec there holds)
        (rw (is, is_owner p s uid c r h there rec holds controls)
          (promote-TakesOver (disconnect_with p fuel s) (freed p s uid rec r)
            (candidates-go_offline found controls waiting) linked opened room works))

-- In a reachable state, when the connection of a controllable instance drops and the first instance
-- that waits for its key has an open connection, not over the buffer limit, whose send does not
-- throw, that instance owns the key and is controllable at once.
pub disconnect_hands_over :
    (p : Platform) (o : Options) (s : Surroundings) (uid j : ℕ) (c : ControlConnection)
    (rec next : InstanceRecord) (rest : List InstanceRecord) (r : InstanceRegistry)
    → Reach p o r
    → find_connection uid r.connections ≡ some c
    → record_of p c r ≡ some rec
    → rec.state ≡ controllable
    → candidates p (ownership_key p rec.user_id rec.registration) rec.user_id r.records
      ≡ next ∷ rest
    → next.connection ≡ some j
    → s.sockets.is_open j ≡ true
    → s.sockets.buffered_amount j ≤ ws_max_buffered_bytes
    → s.sockets.throws j ≡ false
    → (find OwnershipKey-discrete
          (ownership_key p rec.user_id rec.registration)
          (disconnect p s uid r).ownership
        ≡ some next.registration.instance_id)
      × (find RecordKey-discrete
            (record_key next.user_id next.registration.instance_id)
            (disconnect p s uid r).records
          ≡ some (record next { state = controllable; last_seen_at = s.now_ms }))
disconnect_hands_over p o s uid j c rec next rest r run =
    taken_over p s uid c rec next rest j r (reach-Sound p o r run)
