-- ===== src/Gateway/Instances/Ownership/Release.antt =====
-- The first half of `disconnect` in instance-registry.ts: the connection's record goes offline.
use opencode_notify_hub.Shared.{
  ℕ, String, ◌≡◌, refl, sym, ap, ◌∙◌, ◌≢◌, false, none, some, List, arith,
}
use opencode_notify_hub.Shared.Table.{Table, find, put, erase, find_other, erase_other, erase_found}
use opencode_notify_hub.Gateway.Instances.State.{
  ControlConnection, controllable, offline, RecordKey, RecordKey-discrete, OwnershipKey,
  OwnershipKey-discrete, InstanceRecord, InstanceRegistry, Surroundings,
}
use opencode_notify_hub.Gateway.Instances.Keys.{Platform, ownership_key, record_key}
use opencode_notify_hub.Gateway.Instances.Presence.{find_connection, others, is_controllable}
use opencode_notify_hub.Gateway.Instances.Pending.{drop_pending}
use opencode_notify_hub.Gateway.Instances.Links.{record_of, go_offline}
use opencode_notify_hub.Gateway.Instances.Ownership.Ties.{
  record_of-RecordOf, other_uid, still-Linked,
}
use opencode_notify_hub.Gateway.Instances.Ownership.{key_of, Fits, Owner, Sound, put-Sound}

-- `release` up to its promotion, of a record that owns its key.
abbrev pub freed :
    Platform → Surroundings → ℕ → InstanceRecord → InstanceRegistry → InstanceRegistry
freed p s uid rec r =
    let gone = go_offline p s rec (drop_pending s uid r) in
    record gone { ownership = erase OwnershipKey-discrete (key_of p rec) gone.ownership }

module _ (p : Platform) (s : Surroundings) (uid : ℕ) (c : ControlConnection) (r : InstanceRegistry)
    (h : Sound p r) (there : find_connection uid r.connections ≡ some c) (rec : InstanceRecord)
    (holds : record_of p c r ≡ some rec) where
  pub stands :
      find RecordKey-discrete (record_key rec.user_id rec.registration.instance_id) r.records
      ≡ some rec
  stands =
      let of_c = record_of-RecordOf p c r rec holds in
      let fit = h.fits (c.user_id, of_c.id) rec of_c.found in
      ap (λ k. find RecordKey-discrete k r.records) (sym fit.keyed) ∙ of_c.found

  -- The owner of a key that is not the record's keeps its place.
  still-Owner :
      (key : OwnershipKey) (id : String) (off : InstanceRecord)
      → find OwnershipKey-discrete key r.ownership ≡ some id
      → (rec.state ≡ controllable → key_of p rec ≢ key)
      → Owner p
          (put RecordKey-discrete
            (record_key rec.user_id rec.registration.instance_id)
            off
            r.records)
          key
          id
  still-Owner key id off found ne =
      let o = h.owned key id found in
      let k = record_key rec.user_id rec.registration.instance_id in
      let apart : ¬ (k ≡ (key.0, id)) = λ same.
        let at_k : find RecordKey-discrete (key.0, id) r.records ≡ some rec =
          ap (λ j. find RecordKey-discrete j r.records) (sym same) ∙ stands in
        let itself : o.owner ≡ rec = let f = o.found in ground arith in
        ne (ap (λ (x : InstanceRecord). x.state) (sym itself) ∙ o.controls)
          (ap (λ (x : InstanceRecord). key_of p x) (sym itself) ∙ o.same_key) in
      record {
        owner = o.owner;
        found = find_other RecordKey-discrete (key.0, id) k off r.records apart ∙ o.found;
        controls = o.controls;
        same_key = o.same_key;
      }

  -- The other records fit an ownership map that has their keys.
  still-Fits :
      (ow : Table OwnershipKey String) (k : RecordKey) (other : InstanceRecord)
      → find RecordKey-discrete k r.records ≡ some other
      → record_key rec.user_id rec.registration.instance_id ≢ k
      → (other.state ≡ controllable
          → find OwnershipKey-discrete (key_of p other) ow ≡ some other.registration.instance_id)
      → Fits p ow (others uid r.connections) k other
  still-Fits ow k other found ne held =
      let fit = h.fits k other found in
      record {
        keyed = fit.keyed;
        held = held;
        gone = fit.gone;
        live = fit.live;
        linked = λ j linked.
            still-Linked p s uid c r h there other j
              (other_uid p s uid c r h there k other rec holds found ne) linked
              (fit.linked j linked);
      }

  offline-Fits :
      (ow : Table OwnershipKey String) (cs : List ControlConnection) (now : ℕ)
      → Fits p ow cs
          (record_key rec.user_id rec.registration.instance_id)
          (record rec { connection = none; state = offline; last_seen_at = now })
  offline-Fits ow cs now = record {
    keyed = refl;
    held = λ e. ground arith;
    gone = λ e. refl;
    live = λ e. refl;
    linked = λ j e. ground arith;
  }

  pub go_offline-free-Sound :
      is_controllable rec.state ≡ false → Sound p (go_offline p s rec (drop_pending s uid r))
  unfolding drop_pending go_offline
  go_offline-free-Sound idle =
      put-Sound p (record_key rec.user_id rec.registration.instance_id)
        (record rec { connection = none; state = offline; last_seen_at = s.now_ms }) r
        (go_offline p s rec (drop_pending s uid r)) h refl
        (offline-Fits r.ownership (others uid r.connections) s.now_ms)
        (λ k other ne found. still-Fits r.ownership k other found ne (h.fits k other found).held)
        (λ key id found. still-Owner key id _ found (λ controls. ground arith))

  -- Two controllable instances of one key are one record.
  apart :
      (k : RecordKey) (other : InstanceRecord)
      → find RecordKey-discrete k r.records ≡ some other
      → record_key rec.user_id rec.registration.instance_id ≢ k
      → rec.state ≡ controllable
      → other.state ≡ controllable
      → key_of p rec ≢ key_of p other
  unfolding ownership_key
  apart k other found ne controls other_controls same =
      let mine =
        (h.fits (record_key rec.user_id rec.registration.instance_id) rec stands).held controls in
      let fit = h.fits k other found in
      let theirs = fit.held other_controls in
      let same_user : rec.user_id ≡ other.user_id = ap (λ j. j.0) same in
      let both = sym mine ∙ ap (λ j. find OwnershipKey-discrete j r.ownership) same ∙ theirs in
      let same_id : rec.registration.instance_id ≡ other.registration.instance_id = ground arith in
      ne ((λ i. (same_user i, same_id i)) ∙ sym fit.keyed)

  pub go_offline-owned-Sound : rec.state ≡ controllable → Sound p (freed p s uid rec r)
  unfolding drop_pending go_offline
  go_offline-owned-Sound controls =
      let key = key_of p rec in
      put-Sound p (record_key rec.user_id rec.registration.instance_id)
        (record rec { connection = none; state = offline; last_seen_at = s.now_ms }) r
        (freed p s uid rec r) h refl
        (offline-Fits (erase OwnershipKey-discrete key r.ownership) (others uid r.connections)
          s.now_ms)
        (λ k other ne found.
          still-Fits (erase OwnershipKey-discrete key r.ownership) k other found ne (λ e.
            erase_other OwnershipKey-discrete (key_of p other) key r.ownership
              (apart k other found ne controls e)
            ∙ (h.fits k other found).held e))
        (λ j id found.
          still-Owner j id _ (erase_found OwnershipKey-discrete j key id r.ownership found).0
            (λ e. (erase_found OwnershipKey-discrete j key id r.ownership found).1))
