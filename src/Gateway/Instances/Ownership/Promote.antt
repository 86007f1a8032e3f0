-- ===== src/Gateway/Instances/Ownership/Promote.antt =====
-- The promotion of a waiting instance in instance-registry.ts: what it leaves.
use opencode_notify_hub.Shared.{
  ℕ, String, ◌≡◌, refl, sym, ap, ◌∙◌, inl, inr, none, some, List, [], ◌∷◌, arith, Option-cases, All,
}
use opencode_notify_hub.Shared.Table.{find, put, find_same, find_other}
use opencode_notify_hub.Gateway.Instances.State.{
  controllable, RecordKey, RecordKey-discrete, OwnershipKey, OwnershipKey-discrete, InstanceRecord,
  InstanceRegistry, Surroundings, registration,
}
use opencode_notify_hub.Gateway.Instances.Keys.{Platform, ownership_key, record_key}
use opencode_notify_hub.Gateway.Instances.Links.{candidates, promote_first, promote, send_with}
use opencode_notify_hub.Gateway.Instances.Ownership.{key_of, Fits, Owner, Sound, put-Sound}
use opencode_notify_hub.Gateway.Instances.Ownership.After.{
  After, Any, unmoved, Drops, send_with-After,
}
use opencode_notify_hub.Gateway.Instances.Ownership.Candidates.{Candidate, candidates-All}

module _ (p : Platform) (s : Surroundings) (d : ℕ → InstanceRegistry → InstanceRegistry)
    (drops : Drops p d) (key : OwnershipKey) (rec : InstanceRecord) (r : InstanceRegistry)
    (h : Sound p r) (free : find OwnershipKey-discrete key r.ownership ≡ none)
    (can : Candidate p key r rec) where
  abbrev risen : InstanceRecord
  risen = record rec { state = controllable; last_seen_at = s.now_ms }

  abbrev pub promoted : InstanceRegistry
  promoted = record r {
    records =
        put RecordKey-discrete (record_key rec.user_id rec.registration.instance_id) risen
          r.records;
    ownership = put OwnershipKey-discrete key rec.registration.instance_id r.ownership;
  }

  risen-Fits :
      Fits p promoted.ownership r.connections
        (record_key rec.user_id rec.registration.instance_id)
        risen
  risen-Fits =
      let fit = h.fits _ rec can.stands in
      record {
        keyed = refl;
        held = λ e.
            find_same OwnershipKey-discrete (key_of p rec) key rec.registration.instance_id
              r.ownership (sym can.same_key);
        gone = λ e. elim (can.connected e) [ ];
        live = λ e. ground arith;
        linked = fit.linked;
      }

  other-Fits :
      (j : RecordKey) (other : InstanceRecord)
      → find RecordKey-discrete j r.records ≡ some other
      → Fits p promoted.ownership r.connections j other
  other-Fits j other found =
      let fit = h.fits j other found in
      record {
        keyed = fit.keyed;
        held = λ e.
            let held = fit.held e in
            let apart : ¬ (key ≡ key_of p other) = λ same. ground arith in
            find_other OwnershipKey-discrete (key_of p other) key rec.registration.instance_id
              r.ownership apart
            ∙ held;
        gone = fit.gone;
        live = fit.live;
        linked = fit.linked;
      }

  promoted-Owner :
      (j : OwnershipKey) (id : String)
      → find OwnershipKey-discrete j promoted.ownership ≡ some id
      → Owner p promoted.records j id
  unfolding ownership_key
  promoted-Owner j id found = elim (OwnershipKey-discrete key j) [
    | yes here ↦
        let its : rec.registration.instance_id ≡ id = ground (
          arith,
          find_same OwnershipKey-discrete j key rec.registration.instance_id r.ownership here,
        ) in
        let user : rec.user_id ≡ j.0 = ap (λ k. k.0) (can.same_key ∙ here) in
        record {
          owner = risen;
          found = find_same RecordKey-discrete (j.0, id) _ risen r.records (λ i. (user i, its i));
          controls = refl;
          same_key = can.same_key ∙ here;
        }
    | no there ↦
        let o = h.owned j id (
          sym
            (find_other OwnershipKey-discrete j key rec.registration.instance_id r.ownership there)
          ∙ found) in
        let k = record_key rec.user_id rec.registration.instance_id in
        let apart : ¬ (k ≡ (j.0, id)) = λ same.
          let itself : some rec ≡ some o.owner =
            sym can.stands ∙ ap (λ k. find RecordKey-discrete k r.records) same ∙ o.found in
          let w = can.waits in let c = o.controls in ground arith in
        record {
          owner = o.owner;
          found = find_other RecordKey-discrete (j.0, id) k risen r.records apart ∙ o.found;
          controls = o.controls;
          same_key = o.same_key;
        }
  ]

  promoted-After : After p Any r promoted
  promoted-After = record {
    sound =
        put-Sound p (record_key rec.user_id rec.registration.instance_id) risen r promoted h refl
          risen-Fits (λ j other ne. other-Fits j other) promoted-Owner;
    settled = λ k other found gone.
        let apart : ¬ (record_key rec.user_id rec.registration.instance_id ≡ k) = λ same.
          let itself : some rec ≡ some other =
            sym can.stands ∙ ap (λ k. find RecordKey-discrete k r.records) same ∙ found in
          can.connected (let g = gone in ground arith) in
        find_other RecordKey-discrete k _ risen r.records apart ∙ found;
    unnamed = λ j c spared found free. found;
    shrinks = λ j absent. absent;
  }

  -- The candidate's connection has registered, so no other kind of connection is lost.
  told-After :
      (uid : ℕ)
      → rec.connection ≡ some uid
      → After p Any r
          (send_with d s uid (registration rec.registration.instance_id controllable) promoted)
  told-After uid linked =
      let rose = promoted-After in
      let sent =
        send_with-After p d s uid (registration rec.registration.instance_id controllable) promoted
          drops rose.sound in
      record {
        sound = sent.sound;
        settled = λ k other found gone. sent.settled k other (rose.settled k other found gone) gone;
        unnamed = λ j c spared found free.
            let (owner, found_owner, same_user, names) =
              (h.fits _ rec can.stands).linked uid linked in
            sent.unnamed j c (λ same. ground arith) found free;
        shrinks = λ j absent. sent.shrinks j absent;
      }

module _ (p : Platform) (s : Surroundings) (d : ℕ → InstanceRegistry → InstanceRegistry)
    (drops : Drops p d) (key : OwnershipKey) (r : InstanceRegistry) (h : Sound p r)
    (free : find OwnershipKey-discrete key r.ownership ≡ none) where
  promote_first-After :
      (recs : List InstanceRecord)
      → All (Candidate p key r) recs
      → After p Any r (promote_first p d s key recs r)
  unfolding promote_first
  promote_first-After [] can = unmoved p Any r h
  promote_first-After (rec ∷ rest) can = elim (Option-cases rec.connection) [
    | inl gone ↦ elim (can.0.connected gone) [ ]
    | inr (uid, linked) ↦
        rw (linked, promote_first) (told-After p s d drops key rec r h free can.0 uid linked)
  ]

  pub promote-After : (user_id : String) → After p Any r (promote p d s key user_id r)
  unfolding promote
  promote-After user_id =
      promote_first-After (candidates p key user_id r.records) (candidates-All p key user_id r h)
