-- ===== src/Gateway/Instances/Ownership/Ended.antt =====
-- How a connection of instance-registry.ts ends: its instance is offline, and it is gone.
use opencode_notify_hub.Shared.{
  ℕ, suc, ◌≡◌, refl, sym, ◌∙◌, inl, inr, none, some, List, [], ◌∷◌, arith, Bool-cases, Option-cases,
  length,
}
use opencode_notify_hub.Shared.Table.{find, erase_same}
use opencode_notify_hub.Gateway.Instances.State.{
  ControlConnection, controllable, offline, RecordKey-discrete, OwnershipKey-discrete,
  InstanceRecord, InstanceRegistry, Surroundings,
}
use opencode_notify_hub.Gateway.Instances.Keys.{Platform, record_key}
use opencode_notify_hub.Gateway.Instances.Presence.{
  find_connection, others, is_controllable, publish_snapshot,
}
use opencode_notify_hub.Gateway.Instances.Pending.{drop_pending}
use opencode_notify_hub.Gateway.Instances.Links.{
  record_of, go_offline, release, disconnect, disconnect_with, promote,
}
use opencode_notify_hub.Gateway.Instances.Fuel.{
  disconnect_with-gone, disconnect_with-enough, disconnect_with-free, disconnect_with-holds,
}
use opencode_notify_hub.Gateway.Instances.Ownership.{key_of, Sound, find_same}
use opencode_notify_hub.Gateway.Instances.Ownership.Release.{freed}
use opencode_notify_hub.Gateway.Instances.Ownership.After.{
  After, Any, unmoved, untouched_core, Drops,
}
use opencode_notify_hub.Gateway.Instances.Ownership.Disconnect.{
  disconnect_with-After, owner-After, idle-After, is_owner,
}
use opencode_notify_hub.Gateway.Instances.Ownership.Promote.{promote-After}

others_self : (uid : ℕ) (cs : List ControlConnection) → find_connection uid (others uid cs) ≡ none
unfolding find_connection others
others_self uid [] = refl
others_self uid (c ∷ cs) = ground (arith, others_self uid cs)

module _ (p : Platform) (s : Surroundings) (uid : ℕ) (c : ControlConnection) (r : InstanceRegistry)
    (h : Sound p r) (there : find_connection uid r.connections ≡ some c) (rec : InstanceRecord)
    (holds : record_of p c r ≡ some rec) (Q : InstanceRegistry → Type 0)
    (stable : (r' r'' : InstanceRegistry) → After p Any r' r'' → Q r' → Q r'') where
  -- What holds once the record is offline, and outlasts a promotion.
  release_keeps :
      (d : ℕ → InstanceRegistry → InstanceRegistry)
      → Drops p d
      → Q (go_offline p s rec (drop_pending s uid r))
      → Q (freed p s uid rec r)
      → Q (release p d s rec (drop_pending s uid r))
  unfolding release publish_snapshot
  release_keeps d drops at_idle at_freed = elim (Bool-cases (is_controllable rec.state)) [
    | inl controls ↦
        let is : rec.state ≡ controllable = ground arith in
        let owner = owner-After p s uid c r h there rec holds is in
        let key = key_of p rec in
        let promoted =
          promote-After p s d drops key (freed p s uid rec r) owner.sound
            (erase_same OwnershipKey-discrete key (drop_pending s uid r).ownership) rec.user_id in
        rw (controls, is_owner p s uid c r h there rec holds is)
          (stable (freed p s uid rec r) _
            (untouched_core p Any (freed p s uid rec r)
              (promote p d s key rec.user_id (freed p s uid rec r)) _ promoted refl refl refl)
            at_freed)
    | inr idles ↦
        let idle = go_offline p s rec (drop_pending s uid r) in
        let offline_now = idle-After p s uid c r h there rec holds idles in
        rw idles (
          stable idle _
            (untouched_core p Any idle idle _ (unmoved p Any idle offline_now.sound) refl refl refl)
            at_idle)
  ]

  pub disconnect_keeps :
      Q (go_offline p s rec (drop_pending s uid r))
      → Q (freed p s uid rec r)
      → Q (disconnect p s uid r)
  disconnect_keeps at_idle at_freed =
      let fuel = length r.connections in
      rw
        (sym (disconnect_with-enough p s (suc fuel) uid r (omega arith))
          ∙ disconnect_with-holds p s uid r fuel c rec there holds)
        (release_keeps (disconnect_with p fuel s) (disconnect_with-After p s fuel) at_idle at_freed)

-- A connection that drops takes its instance offline, whoever is promoted in its place.
pub disconnect-IsEnded :
    (p : Platform) (s : Surroundings) (uid : ℕ) (c : ControlConnection) (rec : InstanceRecord)
    (r : InstanceRegistry)
    → Sound p r
    → find_connection uid r.connections ≡ some c
    → record_of p c r ≡ some rec
    → find RecordKey-discrete
        (record_key rec.user_id rec.registration.instance_id)
        (disconnect p s uid r).records
      ≡ some (record rec { connection = none; state = offline; last_seen_at = s.now_ms })
unfolding go_offline drop_pending
disconnect-IsEnded p s uid c rec r h there holds =
    let k = record_key rec.user_id rec.registration.instance_id in
    let ended = record rec { connection = none; state = offline; last_seen_at = s.now_ms } in
    let at_key = find_same RecordKey-discrete k k ended r.records refl in
    disconnect_keeps p s uid c r h there rec holds
      (λ r'. find RecordKey-discrete k r'.records ≡ some ended)
      (λ r' r'' after found. after.settled k ended found refl) at_key at_key

pub find_connection-disconnect :
    (p : Platform) (s : Surroundings) (uid : ℕ) (r : InstanceRegistry)
    → Sound p r
    → find_connection uid (disconnect p s uid r).connections ≡ none
unfolding go_offline drop_pending
find_connection-disconnect p s uid r h =
    let fuel = length r.connections in
    let more = sym (disconnect_with-enough p s (suc fuel) uid r (omega arith)) in
    elim (Option-cases (find_connection uid r.connections)) [
      | inl gone ↦ rw (more ∙ disconnect_with-gone p s uid r (suc fuel) gone) gone
      | inr (c, there) ↦ elim (Option-cases (record_of p c r)) [
        | inl free ↦
            rw (more ∙ disconnect_with-free p s uid r fuel c there free)
              (others_self uid r.connections)
        | inr (rec, holds) ↦
            disconnect_keeps p s uid c r h there rec holds
              (λ r'. find_connection uid r'.connections ≡ none)
              (λ r' r'' after absent. after.shrinks uid absent) (others_self uid r.connections)
              (others_self uid r.connections)
      ]
    ]
