-- ===== src/Gateway/Instances/Ownership/Ties.antt =====
-- Which records of instance-registry.ts a dropped connection was linked to.
use opencode_notify_hub.Shared.{
  ℕ, String, ◌≡◌, refl, sym, ap, ◌∙◌, ◌≢◌, inl, inr, none, some, List, [], ◌∷◌, arith, Option-cases,
}
use opencode_notify_hub.Shared.Table.{find}
use opencode_notify_hub.Gateway.Instances.State.{
  ControlConnection, RecordKey, RecordKey-discrete, InstanceRecord, InstanceRegistry, Surroundings,
}
use opencode_notify_hub.Gateway.Instances.Keys.{Platform, record_key}
use opencode_notify_hub.Gateway.Instances.Presence.{find_connection, others}
use opencode_notify_hub.Gateway.Instances.Pending.{drop_pending}
use opencode_notify_hub.Gateway.Instances.Links.{record_of}
use opencode_notify_hub.Gateway.Instances.Ownership.{Linked, Sound}

pub uid-find_connection :
    (uid : ℕ) (cs : List ControlConnection) (c : ControlConnection)
    → find_connection uid cs ≡ some c
    → c.uid ≡ uid
unfolding find_connection
uid-find_connection uid [] c h = ground arith
uid-find_connection uid (d ∷ cs) c h = ground (arith, uid-find_connection uid cs c)

pub find_connection-others :
    (j uid : ℕ) (cs : List ControlConnection)
    → uid ≢ j
    → find_connection j (others uid cs) ≡ find_connection j cs
unfolding find_connection others
find_connection-others j uid [] n = refl
find_connection-others j uid (d ∷ cs) n = ground (arith, find_connection-others j uid cs n)

-- What `record_of` finds.
pub record RecordOf (p : Platform) (c : ControlConnection) (r : InstanceRegistry)
    (rec : InstanceRecord) : Type 0 where
  pub id : String
  pub named : c.instance_id ≡ some id
  pub found : find RecordKey-discrete (c.user_id, id) r.records ≡ some rec
  pub mine : rec.connection ≡ some c.uid

pub record_of-RecordOf :
    (p : Platform) (c : ControlConnection) (r : InstanceRegistry) (rec : InstanceRecord)
    → record_of p c r ≡ some rec
    → RecordOf p c r rec
unfolding record_of
record_of-RecordOf p c r rec h = elim (Option-cases c.instance_id) [
  | inl none_named ↦ ground arith
  | inr (id, named) ↦ elim (Option-cases (find RecordKey-discrete (c.user_id, id) r.records)) [
    | inl absent ↦ ground arith
    | inr (other, found) ↦
        let same : other ≡ rec = ground arith in
        record { id = id; named = named; found = found ∙ ap some same; mine = ground arith }
  ]
]

module _ (p : Platform) (s : Surroundings) (uid : ℕ) (c : ControlConnection) (r : InstanceRegistry)
    (h : Sound p r) (there : find_connection uid r.connections ≡ some c) where
  -- No record but the connection's own is linked to it.
  pub only :
      (k : RecordKey) (rec : InstanceRecord)
      → find RecordKey-discrete k r.records ≡ some rec
      → rec.connection ≡ some uid
      → record_of p c r ≡ some rec
  unfolding record_of
  only k rec found linked =
      let fit = h.fits k rec found in
      let link = fit.linked uid linked in
      let (owner, found_owner, same_user, names) = link in
      let mine : owner ≡ c = ground arith in
      let at_key : k ≡ record_key rec.user_id rec.registration.instance_id = fit.keyed in
      let same_uid : c.uid ≡ uid = uid-find_connection uid r.connections c there in ground arith

  pub other_uid :
      (k : RecordKey) (rec other : InstanceRecord)
      → record_of p c r ≡ some other
      → find RecordKey-discrete k r.records ≡ some rec
      → record_key other.user_id other.registration.instance_id ≢ k
      → rec.connection ≢ some uid
  other_uid k rec other holds found ne linked =
      let same : rec ≡ other = let o = only k rec found linked in ground arith in
      ne (
        ap (λ (x : InstanceRecord). record_key x.user_id x.registration.instance_id) (sym same)
        ∙ sym (h.fits k rec found).keyed)

  pub still-Linked :
      (rec : InstanceRecord) (j : ℕ)
      → rec.connection ≢ some uid
      → rec.connection ≡ some j
      → Linked r.connections rec j
      → Linked (others uid r.connections) rec j
  still-Linked rec j ne linked link =
      let (owner, found_owner, same_user, names) = link in
      let apart : uid ≢ j = λ same. ne (linked ∙ ap some (sym same)) in
      (owner, find_connection-others j uid r.connections apart ∙ found_owner, same_user, names)

  pub drop_pending-Sound : record_of p c r ≡ none → Sound p (drop_pending s uid r)
  unfolding drop_pending
  drop_pending-Sound free = record {
    unique = h.unique;
    owned = h.owned;
    fits = λ k rec found.
        let fit = h.fits k rec found in
        record {
          keyed = fit.keyed;
          held = fit.held;
          gone = fit.gone;
          live = fit.live;
          linked = λ j linked.
              still-Linked rec j (λ mine. let o = only k rec found mine in ground arith) linked
                (fit.linked j linked);
        };
  }
