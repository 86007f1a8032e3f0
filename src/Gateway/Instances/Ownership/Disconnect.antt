-- ===== src/Gateway/Instances/Ownership/Disconnect.antt =====
-- `disconnect` of instance-registry.ts keeps its state sound, through the promotions and failed sends
-- that it causes.
use opencode_notify_hub.Shared.{
  ℕ, zero, suc, ◌≡◌, refl, sym, ap, ◌∙◌, ◌≢◌, inl, inr, true, false, none, some, List, [], ◌∷◌,
  arith, Bool-cases, Option-cases, length,
}
use opencode_notify_hub.Shared.Table.{find, put, find_other, erase_same}
use opencode_notify_hub.Gateway.Instances.State.{
  ControlConnection, controllable, offline, RecordKey, RecordKey-discrete, OwnershipKey-discrete,
  InstanceRecord, InstanceRegistry, Surroundings,
}
use opencode_notify_hub.Gateway.Instances.Keys.{Platform, record_key}
use opencode_notify_hub.Gateway.Instances.Presence.{
  find_connection, others, is_controllable, publish_snapshot,
}
use opencode_notify_hub.Gateway.Instances.Pending.{drop_pending}
use opencode_notify_hub.Gateway.Instances.Links.{
  record_of, go_offline, owns, release, disconnect, disconnect_with, promote,
}
use opencode_notify_hub.Gateway.Instances.Fuel.{
  disconnect_with-gone, disconnect_with-free, disconnect_with-holds,
}
use opencode_notify_hub.Gateway.Instances.Ownership.{key_of, Sound}
use opencode_notify_hub.Gateway.Instances.Ownership.Ties.{
  record_of-RecordOf, find_connection-others, drop_pending-Sound,
}
use opencode_notify_hub.Gateway.Instances.Ownership.Release.{
  stands, freed, go_offline-free-Sound, go_offline-owned-Sound,
}
use opencode_notify_hub.Gateway.Instances.Ownership.After.{
  After, Any, followed_by, unmoved, fewer_spared, untouched_core, Drops,
}
use opencode_notify_hub.Gateway.Instances.Ownership.Promote.{promote-After}

others_shrinks :
    (j uid : ℕ) (cs : List ControlConnection)
    → find_connection j cs ≡ none
    → find_connection j (others uid cs) ≡ none
unfolding find_connection others
others_shrinks j uid [] h = refl
others_shrinks j uid (c ∷ cs) h = ground (arith, others_shrinks j uid cs)

module _ (p : Platform) (s : Surroundings) (uid : ℕ) (c : ControlConnection) (r : InstanceRegistry)
    (h : Sound p r) (there : find_connection uid r.connections ≡ some c) where
  abbrev Spared : ℕ → Type 0
  Spared j = uid ≢ j

  dropped-After : record_of p c r ≡ none → After p Spared r (drop_pending s uid r)
  unfolding drop_pending
  dropped-After free = record {
    sound = drop_pending-Sound p s uid c r h there free;
    settled = λ k rec found gone. found;
    unnamed =
        λ j other spared found unnamed. find_connection-others j uid r.connections spared ∙ found;
    shrinks = λ j absent. others_shrinks j uid r.connections absent;
  }

  module _ (rec : InstanceRecord) (holds : record_of p c r ≡ some rec) where
    -- The record that goes offline was connected, so no offline record changes.
    settles :
        (off : InstanceRecord) (k : RecordKey) (other : InstanceRecord)
        → find RecordKey-discrete k r.records ≡ some other
        → other.connection ≡ none
        → find RecordKey-discrete k (
            put RecordKey-discrete
              (record_key rec.user_id rec.registration.instance_id)
              off
              r.records)
          ≡ some other
    settles off k other found gone =
        let of_c = record_of-RecordOf p c r rec holds in
        let at_key = stands p s uid c r h there rec holds in
        let apart : ¬ (record_key rec.user_id rec.registration.instance_id ≡ k) = λ same.
          let itself : some rec ≡ some other =
            sym at_key ∙ ap (λ j. find RecordKey-discrete j r.records) same ∙ found in
          let mine = of_c.mine in ground arith in
        find_other RecordKey-discrete k _ off r.records apart ∙ found

    pub freed-After :
        (r' : InstanceRegistry)
        → Sound p r'
        → r'.records ≡ (go_offline p s rec (drop_pending s uid r)).records
        → r'.connections ≡ others uid r.connections
        → After p Spared r r'
    unfolding drop_pending go_offline
    freed-After r' sound same_records same_connections = record {
      sound = sound;
      settled =
          rw same_records
            (settles (record rec { connection = none; state = offline; last_seen_at = s.now_ms }));
      unnamed = rw same_connections (λ j other spared found unnamed.
          find_connection-others j uid r.connections spared ∙ found);
      shrinks = rw same_connections (λ j absent. others_shrinks j uid r.connections absent);
    }

    abbrev pub idle : InstanceRegistry
    idle = go_offline p s rec (drop_pending s uid r)

    pub idle-After : is_controllable rec.state ≡ false → After p Spared r idle
    unfolding drop_pending go_offline
    idle-After h' =
        freed-After idle (go_offline-free-Sound p s uid c r h there rec holds h') refl refl

    pub owner-After : rec.state ≡ controllable → After p Spared r (freed p s uid rec r)
    unfolding drop_pending go_offline
    owner-After controls =
        freed-After (freed p s uid rec r)
          (go_offline-owned-Sound p s uid c r h there rec holds controls) refl refl

    pub is_owner : rec.state ≡ controllable → owns p rec (drop_pending s uid r) ≡ true
    unfolding drop_pending
    is_owner controls =
        let held = (h.fits _ rec (stands p s uid c r h there rec holds)).held controls in
        ground arith

    release-After :
        (d : ℕ → InstanceRegistry → InstanceRegistry)
        → Drops p d
        → After p Spared r (release p d s rec (drop_pending s uid r))
    unfolding release publish_snapshot
    release-After d drops = elim (Bool-cases (is_controllable rec.state)) [
      | inl controls ↦
          let is : rec.state ≡ controllable = ground arith in
          let owner = owner-After is in
          let key = key_of p rec in
          let promoted =
            promote-After p s d drops key (freed p s uid rec r) owner.sound
              (erase_same OwnershipKey-discrete key (drop_pending s uid r).ownership) rec.user_id in
          rw (controls, is_owner is)
            (untouched_core p Spared r (promote p d s key rec.user_id (freed p s uid rec r)) _
              (followed_by p Spared r (freed p s uid rec r) _ owner
                (fewer_spared p Any Spared (freed p s uid rec r) _ promoted (λ j spared. tt)))
              refl refl refl)
      | inr idles ↦ rw idles (untouched_core p Spared r idle _ (idle-After idles) refl refl refl)
    ]

pub disconnect_with-After :
    (p : Platform) (s : Surroundings) (fuel : ℕ) → Drops p (disconnect_with p fuel s)
unfolding disconnect_with
disconnect_with-After p s zero uid r h = unmoved p (λ j. uid ≢ j) r h
disconnect_with-After p s (suc fuel) uid r h =
    elim (Option-cases (find_connection uid r.connections)) [
      | inl gone ↦
          rw (disconnect_with-gone p s uid r (suc fuel) gone) (unmoved p (λ j. uid ≢ j) r h)
      | inr (c, there) ↦ elim (Option-cases (record_of p c r)) [
        | inl free ↦
            rw (disconnect_with-free p s uid r fuel c there free)
              (dropped-After p s uid c r h there free)
        | inr (rec, holds) ↦ rw (disconnect_with-holds p s uid r fuel c rec there holds) (
            release-After p s uid c r h there rec holds (disconnect_with p fuel s)
              (disconnect_with-After p s fuel))
      ]
    ]

pub disconnect-After : (p : Platform) (s : Surroundings) → Drops p (disconnect p s)
unfolding disconnect
disconnect-After p s uid r h = disconnect_with-After p s (length r.connections) uid r h
