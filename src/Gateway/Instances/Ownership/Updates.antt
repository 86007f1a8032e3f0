-- ===== src/Gateway/Instances/Ownership/Updates.antt =====
-- The smaller updates of instance-registry.ts that keep its state sound.
use opencode_notify_hub.Shared.{
  ℕ, ◌≡◌, refl, sym, ap, ◌∙◌, some, arith, ◌==◌, if◌then◌else◌, if_either,
}
use opencode_notify_hub.Shared.Table.{find, put, find_same, find_other}
use opencode_notify_hub.Gateway.Instances.State.{
  ControlConnection, RecordKey, RecordKey-discrete, InstanceRecord, InstanceRegistry,
}
use opencode_notify_hub.Gateway.Instances.Keys.{Platform, record_key}
use opencode_notify_hub.Gateway.Instances.Links.{record_of}
use opencode_notify_hub.Gateway.Instances.Register.{amend}
use opencode_notify_hub.Gateway.Instances.Ownership.{key_of, Sound, put-Sound}
use opencode_notify_hub.Gateway.Instances.Ownership.Ties.{record_of-RecordOf}
use opencode_notify_hub.Gateway.Instances.Ownership.Register.{find_connection-amend, Present}

module _ (p : Platform) where
  -- A record changes in what soundness does not read.
  pub soften-Sound :
      (k : RecordKey) (rec rec' : InstanceRecord) (r r' : InstanceRegistry)
      → Sound p r
      → find RecordKey-discrete k r.records ≡ some rec
      → rec'.registration ≡ rec.registration
      → rec'.user_id ≡ rec.user_id
      → rec'.state ≡ rec.state
      → rec'.connection ≡ rec.connection
      → r'.records
        ≡ put RecordKey-discrete
            (record_key rec.user_id rec.registration.instance_id)
            rec'
            r.records
      → r'.ownership ≡ r.ownership
      → r'.connections ≡ r.connections
      → Sound p r'
  soften-Sound k rec rec' r r' h found same_registration same_user same_state same_connection
        same_records same_ownership same_connections =
      let fit = h.fits k rec found in
      let key = record_key rec.user_id rec.registration.instance_id in
      let at_key : find RecordKey-discrete key r.records ≡ some rec =
        ap (λ j. find RecordKey-discrete j r.records) (sym fit.keyed) ∙ found in
      put-Sound p key rec' r r' h same_records
        (rw (same_ownership, same_connections)
          (record {
            keyed = rw (same_registration, same_user) refl;
            held = rw (same_registration, same_user, same_state) fit.held;
            gone = rw (same_state, same_connection) fit.gone;
            live = rw (same_state, same_connection) fit.live;
            linked = rw (same_registration, same_user, same_connection) fit.linked;
          }))
        (rw (same_ownership, same_connections) (λ j other ne. h.fits j other))
        (rw same_ownership (λ j id owned.
          let o = h.owned j id owned in
          elim (RecordKey-discrete key (j.0, id)) [
            | yes same ↦
                let itself : some rec ≡ some o.owner =
                  sym at_key ∙ ap (λ i. find RecordKey-discrete i r.records) same ∙ o.found in
                let its : rec ≡ o.owner = ground arith in
                record {
                  owner = rec';
                  found = find_same RecordKey-discrete (j.0, id) key rec' r.records same;
                  controls = same_state ∙ ap (λ (x : InstanceRecord). x.state) its ∙ o.controls;
                  same_key =
                      rw (same_user, same_registration)
                        (ap (λ (x : InstanceRecord). key_of p x) its ∙ o.same_key);
                }
            | no apart ↦ record {
              owner = o.owner;
              found = find_other RecordKey-discrete (j.0, id) key rec' r.records apart ∙ o.found;
              controls = o.controls;
              same_key = o.same_key;
            }
          ]))

  -- The record of a connection changes so.
  pub soften_own-Sound :
      (c : ControlConnection) (rec rec' : InstanceRecord) (r r' : InstanceRegistry)
      → Sound p r
      → record_of p c r ≡ some rec
      → rec'.registration ≡ rec.registration
      → rec'.user_id ≡ rec.user_id
      → rec'.state ≡ rec.state
      → rec'.connection ≡ rec.connection
      → r'.records
        ≡ put RecordKey-discrete
            (record_key rec.user_id rec.registration.instance_id)
            rec'
            r.records
      → r'.ownership ≡ r.ownership
      → r'.connections ≡ r.connections
      → Sound p r'
  soften_own-Sound c rec rec' r r' h holds =
      let of_c = record_of-RecordOf p c r rec holds in
      soften-Sound (c.user_id, of_c.id) rec rec' r r' h of_c.found

  pub amend-Sound :
      (f : ControlConnection → ControlConnection) (uid : ℕ) (r : InstanceRegistry)
      → ((d : ControlConnection) → (f d).uid ≡ d.uid)
      → ((d : ControlConnection) → (f d).user_id ≡ d.user_id)
      → ((d : ControlConnection) → (f d).instance_id ≡ d.instance_id)
      → Sound p r
      → Sound p (amend uid f r)
  unfolding amend
  amend-Sound f uid r same_uid same_user same_name h = record {
    unique = h.unique;
    owned = h.owned;
    fits = λ k rec found.
        let fit = h.fits k rec found in
        record {
          keyed = fit.keyed;
          held = fit.held;
          gone = fit.gone;
          live = fit.live;
          linked = λ j linked.
              let (owner, held, user, name) = fit.linked j linked in
              let got = find_connection-amend f uid j r.connections owner same_uid held in
              let u = same_user owner in
              let n = same_name owner in
              (
                _,
                got,
                if_either (λ (x : ControlConnection). x.user_id ≡ rec.user_id) (owner.uid == uid)
                    (f owner) owner (u ∙ user) user,
                if_either
                    (λ (x : ControlConnection). x.instance_id ≡ some rec.registration.instance_id)
                    (owner.uid == uid) (f owner) owner (n ∙ name) name,
              );
        };
  }

  pub amend-Present :
      (f : ControlConnection → ControlConnection) (uid : ℕ) (c : ControlConnection)
      (r : InstanceRegistry)
      → ((d : ControlConnection) → (f d).uid ≡ d.uid)
      → ((d : ControlConnection) → (f d).user_id ≡ d.user_id)
      → ((d : ControlConnection) → (f d).instance_id ≡ d.instance_id)
      → Present c r
      → Present c (amend uid f r)
  unfolding amend
  amend-Present f uid c r same_uid same_user same_name h = record {
    held = if h.held.uid == uid then f h.held else h.held;
    found = find_connection-amend f uid c.uid r.connections h.held same_uid h.found;
    same_user =
        if_either (λ (x : ControlConnection). x.user_id ≡ c.user_id) (h.held.uid == uid) (f h.held)
          h.held (same_user h.held ∙ h.same_user) h.same_user;
    same_name =
        if_either (λ (x : ControlConnection). x.instance_id ≡ c.instance_id) (h.held.uid == uid)
          (f h.held) h.held (same_name h.held ∙ h.same_name) h.same_name;
  }
