-- ===== src/Gateway/Instances/Ownership.antt =====
-- What instance-registry.ts keeps true of its records, its ownership map and its connections.
pub mod Ties
pub mod Release
pub mod After
pub mod Candidates
pub mod Promote
pub mod Disconnect
pub mod Ended
pub mod Enroll
pub mod Register
pub mod Updates
pub mod Connections
pub mod Requests
pub mod Queries
pub mod Frames
use opencode_notify_hub.Shared.{ℕ, String, ◌≡◌, sym, ap, ◌∙◌, ◌≢◌, none, some, List, arith}
use opencode_notify_hub.Shared.Table.{Table, find, put, find_same, find_other, Unique, put-Unique}
use opencode_notify_hub.Gateway.Instances.State.{
  ControlConnection, controllable, offline, RecordKey, RecordKey-discrete, OwnershipKey,
  OwnershipKey-discrete, InstanceRecord, InstanceRegistry,
}
use opencode_notify_hub.Gateway.Instances.Keys.{Platform, ownership_key, record_key}
use opencode_notify_hub.Gateway.Instances.Presence.{find_connection}

abbrev pub key_of : Platform → InstanceRecord → OwnershipKey
key_of p rec = ownership_key p rec.user_id rec.registration

-- The connection of a record, which names the record's instance and belongs to its user.
abbrev pub Linked : List ControlConnection → InstanceRecord → ℕ → Type 0
Linked cs rec uid =
    (c : ControlConnection) × (find_connection uid cs ≡ some c)
    × (c.user_id ≡ rec.user_id)
    × (c.instance_id ≡ some rec.registration.instance_id)

-- A record stands at its own key, owns its ownership key while it is controllable, is offline
-- exactly while it has no connection, and its connection is one that the registry holds.
pub record Fits (p : Platform) (ow : Table OwnershipKey String) (cs : List ControlConnection)
    (k : RecordKey) (rec : InstanceRecord) : Type 0 where
  pub keyed : k ≡ record_key rec.user_id rec.registration.instance_id
  pub held :
      rec.state ≡ controllable
      → find OwnershipKey-discrete (key_of p rec) ow ≡ some rec.registration.instance_id
  pub gone : rec.connection ≡ none → rec.state ≡ offline
  pub live : rec.state ≡ offline → rec.connection ≡ none
  pub linked : (uid : ℕ) → rec.connection ≡ some uid → Linked cs rec uid

-- The owner of a key is a controllable instance of that key.
pub record Owner (p : Platform) (rs : Table RecordKey InstanceRecord) (key : OwnershipKey)
    (id : String) : Type 0 where
  pub owner : InstanceRecord
  pub found : find RecordKey-discrete (key.0, id) rs ≡ some owner
  pub controls : owner.state ≡ controllable
  pub same_key : key_of p owner ≡ key

pub record Sound (p : Platform) (r : InstanceRegistry) : Type 0 where
  pub unique : Unique RecordKey-discrete r.records
  pub fits :
      (k : RecordKey) (rec : InstanceRecord)
      → find RecordKey-discrete k r.records ≡ some rec
      → Fits p r.ownership r.connections k rec
  pub owned :
      (key : OwnershipKey) (id : String)
      → find OwnershipKey-discrete key r.ownership ≡ some id
      → Owner p r.records key id

-- A record is written: it must fit, the other records must still fit, and the owners own.
pub put-Sound :
    (p : Platform) (k : RecordKey) (v : InstanceRecord) (r r' : InstanceRegistry)
    → Sound p r
    → r'.records ≡ put RecordKey-discrete k v r.records
    → Fits p r'.ownership r'.connections k v
    → ((j : RecordKey) (rec : InstanceRecord)
        → k ≢ j
        → find RecordKey-discrete j r.records ≡ some rec
        → Fits p r'.ownership r'.connections j rec)
    → ((key : OwnershipKey) (id : String)
        → find OwnershipKey-discrete key r'.ownership ≡ some id
        → Owner p (put RecordKey-discrete k v r.records) key id)
    → Sound p r'
put-Sound p k v r r' h e new old owners = record {
  unique = rw e (put-Unique RecordKey-discrete k v r.records h.unique);
  fits = λ j rec found. elim (RecordKey-discrete k j) [
    | yes here ↦ ground (arith, find_same RecordKey-discrete j k v r.records here)
    | no there ↦ old j rec there (
        sym (find_other RecordKey-discrete j k v r.records there)
        ∙ ap (find RecordKey-discrete j) (sym e)
        ∙ found)
  ];
  owned = λ key id found. rw e (owners key id found);
}
