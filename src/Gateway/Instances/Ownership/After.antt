-- ===== src/Gateway/Instances/Ownership/After.antt =====
-- What a drop of a connection of instance-registry.ts leaves in place, beside the registry's soundness.
use opencode_notify_hub.Shared.{ℕ, ◌≡◌, refl, ◌≢◌, none, some, if_either}
use opencode_notify_hub.Shared.Table.{find}
use opencode_notify_hub.Gateway.Instances.State.{
  ControlConnection, RecordKey, RecordKey-discrete, InstanceRecord, InstanceRegistry, ServerMessage,
  Surroundings, terminates, sends,
}
use opencode_notify_hub.Gateway.Instances.Keys.{Platform}
use opencode_notify_hub.Gateway.Instances.Presence.{find_connection, call}
use opencode_notify_hub.Gateway.Instances.Links.{send_with}
use opencode_notify_hub.Gateway.Instances.Ownership.{Sound}

-- From `r` to `r'`: an offline record stays as it is, no connection appears, and a connection that
-- has not registered stays if it is spared.
pub record After (p : Platform) (spared : ℕ → Type 0) (r : InstanceRegistry) (r' : InstanceRegistry)
    : Type 0 where
  pub sound : Sound p r'
  pub settled :
      (k : RecordKey) (rec : InstanceRecord)
      → find RecordKey-discrete k r.records ≡ some rec
      → rec.connection ≡ none
      → find RecordKey-discrete k r'.records ≡ some rec
  pub unnamed :
      (j : ℕ) (c : ControlConnection)
      → spared j
      → find_connection j r.connections ≡ some c
      → c.instance_id ≡ none
      → find_connection j r'.connections ≡ some c
  pub shrinks :
      (j : ℕ) → find_connection j r.connections ≡ none → find_connection j r'.connections ≡ none

abbrev pub Any : ℕ → Type 0
Any j = Unit

module _ (p : Platform) where
  pub unmoved : (S : ℕ → Type 0) (r : InstanceRegistry) → Sound p r → After p S r r
  unmoved S r h = record {
    sound = h;
    settled = λ k rec found gone. found;
    unnamed = λ j c spared found free. found;
    shrinks = λ j absent. absent;
  }

  pub followed_by :
      (S : ℕ → Type 0) (r r' r'' : InstanceRegistry)
      → After p S r r'
      → After p S r' r''
      → After p S r r''
  followed_by S r r' r'' a b = record {
    sound = b.sound;
    settled = λ k rec found gone. b.settled k rec (a.settled k rec found gone) gone;
    unnamed = λ j c spared found free. b.unnamed j c spared (a.unnamed j c spared found free) free;
    shrinks = λ j absent. b.shrinks j (a.shrinks j absent);
  }

  pub fewer_spared :
      (S T : ℕ → Type 0) (r r' : InstanceRegistry)
      → After p S r r'
      → ((j : ℕ) → T j → S j)
      → After p T r r'
  fewer_spared S T r r' a f = record {
    sound = a.sound;
    settled = a.settled;
    unnamed = λ j c spared. a.unnamed j c (f j spared);
    shrinks = a.shrinks;
  }

  -- A registry with the same records, ownership map and connections.
  pub core_same :
      (r r' : InstanceRegistry)
      → Sound p r
      → r'.records ≡ r.records
      → r'.ownership ≡ r.ownership
      → r'.connections ≡ r.connections
      → Sound p r'
  core_same r r' h same_records same_ownership same_connections = record {
    unique = rw same_records h.unique;
    fits = rw (same_records, same_ownership, same_connections) h.fits;
    owned = rw (same_records, same_ownership) h.owned;
  }

  pub untouched_core :
      (S : ℕ → Type 0) (r r' r'' : InstanceRegistry)
      → After p S r r'
      → r''.records ≡ r'.records
      → r''.ownership ≡ r'.ownership
      → r''.connections ≡ r'.connections
      → After p S r r''
  untouched_core S r r' r'' a same_records same_ownership same_connections = record {
    sound = core_same r' r'' a.sound same_records same_ownership same_connections;
    settled = rw same_records a.settled;
    unnamed = rw same_connections a.unnamed;
    shrinks = rw same_connections a.shrinks;
  }

  -- A way to drop connections.
  abbrev pub Drops : (ℕ → InstanceRegistry → InstanceRegistry) → Type 0
  Drops d = (uid : ℕ) (r : InstanceRegistry) → Sound p r → After p (λ j. uid ≢ j) r (d uid r)

  pub send_with-After :
      (d : ℕ → InstanceRegistry → InstanceRegistry) (s : Surroundings) (uid : ℕ)
      (message : ServerMessage) (r : InstanceRegistry)
      → Drops d
      → Sound p r
      → After p (λ j. uid ≢ j) r (send_with d s uid message r)
  unfolding send_with
  send_with-After d s uid message r drops h =
      if_either (After p (λ j. uid ≢ j) r) _ _ _
        (untouched_core (λ j. uid ≢ j) r (d uid r) (call (terminates uid) (d uid r)) (drops uid r h)
          refl refl refl)
        (if_either (After p (λ j. uid ≢ j) r) (s.sockets.throws uid) _ _ (drops uid r h) (
          untouched_core (λ j. uid ≢ j) r r (call (sends uid message) r)
            (unmoved (λ j. uid ≢ j) r h) refl refl refl))
