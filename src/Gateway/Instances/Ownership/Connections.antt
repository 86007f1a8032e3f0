-- ===== src/Gateway/Instances/Ownership/Connections.antt =====
-- The connections of instance-registry.ts come and go, and its state stays sound.
use opencode_notify_hub.Shared.{
  ℕ, String, ◌≡◌, refl, sym, ap, ◌∙◌, ◌≢◌, inl, inr, true, false, not, ◌||◌, some, List, [], ◌∷◌,
  ◌++◌, arith, if_either, is_none, Bool-cases, Option-cases, keep,
}
use opencode_notify_hub.Shared.Table.{find, erase, erase_other, erase_found, erase-Unique}
use opencode_notify_hub.Gateway.Instances.State.{
  ControlConnection, controllable, RecordKey, RecordKey-discrete, InstanceRecord, InstanceRegistry,
  Surroundings, ServerMessage, control_close_key_revoked,
}
use opencode_notify_hub.Gateway.Connections.{ws_close_server_shutdown}
use opencode_notify_hub.Gateway.Instances.Keys.{Platform, record_key}
use opencode_notify_hub.Gateway.Instances.Presence.{
  find_connection, is_offline, publish_snapshot, same_text,
}
use opencode_notify_hub.Gateway.Instances.Links.{disconnect, record_of, send}
use opencode_notify_hub.Gateway.Instances.Register.{
  amend, add, touch, mark_alive, heartbeat_tick, revoke_key, close_all, disconnect_each,
}
use opencode_notify_hub.Gateway.Instances.Forget.{forget_offline}
use opencode_notify_hub.Gateway.Instances.Ownership.{Sound}
use opencode_notify_hub.Gateway.Instances.Ownership.After.{send_with-After, core_same}
use opencode_notify_hub.Gateway.Instances.Ownership.Disconnect.{disconnect-After}
use opencode_notify_hub.Gateway.Instances.Ownership.Updates.{soften_own-Sound, amend-Sound}

find_connection-append :
    (j : ℕ) (cs ds : List ControlConnection) (c : ControlConnection)
    → find_connection j cs ≡ some c
    → find_connection j (cs ++ ds) ≡ some c
unfolding find_connection
find_connection-append j [] ds c h = ground arith
find_connection-append j (d ∷ cs) ds c h = ground (arith, find_connection-append j cs ds c)

module _ (p : Platform) where
  pub add-Sound :
      (user_id key_id : String) (r : InstanceRegistry) → Sound p r → Sound p (add user_id key_id r)
  unfolding add
  add-Sound user_id key_id r h = record {
    unique = h.unique;
    owned = h.owned;
    fits = λ k rec found.
        let fit = h.fits k rec found in
        record {
          keyed = fit.keyed;
          held = fit.held;
          gone = fit.gone;
          live = fit.live;
          linked = λ j linked.
              let (owner, held, user, name) = fit.linked j linked in
              (owner, find_connection-append j r.connections _ owner held, user, name);
        };
  }

  pub disconnect-Sound :
      (s : Surroundings) (uid : ℕ) (r : InstanceRegistry)
      → Sound p r
      → Sound p (disconnect p s uid r)
  disconnect-Sound s uid r h = (disconnect-After p s uid r h).sound

  pub send-Sound :
      (s : Surroundings) (uid : ℕ) (message : ServerMessage) (r : InstanceRegistry)
      → Sound p r
      → Sound p (send p s uid message r)
  unfolding send
  send-Sound s uid message r h =
      (send_with-After p (disconnect p s) s uid message r (disconnect-After p s) h).sound

  pub touch-Sound :
      (s : Surroundings) (c : ControlConnection) (r : InstanceRegistry)
      → Sound p r
      → Sound p (touch p s c r)
  unfolding touch
  touch-Sound s c r h = elim (Option-cases (record_of p c r)) [
    | inl free ↦ rw (free, touch) h
    | inr (rec, holds) ↦
        rw (holds, touch)
          (soften_own-Sound p c rec (record rec { last_seen_at = s.now_ms }) r _ h holds refl refl
            refl refl refl refl refl)
  ]

  pub mark_alive-Sound :
      (s : Surroundings) (c : ControlConnection) (r : InstanceRegistry)
      → Sound p r
      → Sound p (mark_alive p s c r)
  unfolding mark_alive
  mark_alive-Sound s c r h =
      touch-Sound s c (amend c.uid (λ d. record d { alive = true }) r) (
        amend-Sound p (λ d. record d { alive = true }) c.uid r (λ d. refl) (λ d. refl) (λ d. refl)
          h)

  pub heartbeat_tick-Sound :
      (s : Surroundings) (c : ControlConnection) (r : InstanceRegistry)
      → Sound p r
      → Sound p (heartbeat_tick p s c r)
  unfolding heartbeat_tick
  heartbeat_tick-Sound s c r h =
      let gone = disconnect-Sound s c.uid r h in
      if_either (Sound p) _ _ _ gone (
        if_either (Sound p) (not c.alive) _ _ (core_same p _ _ gone refl refl refl) (
          core_same p _ _
            (amend-Sound p (λ d. record d { alive = false }) c.uid r (λ d. refl) (λ d. refl)
              (λ d. refl) h)
            refl refl refl))

  disconnect_each-Sound :
      (s : Surroundings) (code : ℕ) (cs : List ControlConnection) (r : InstanceRegistry)
      → Sound p r
      → Sound p (disconnect_each p s code cs r)
  disconnect_each-Sound s code [] r h = h
  disconnect_each-Sound s code (c ∷ cs) r h =
      disconnect_each-Sound s code cs _
        (core_same p _ _ (disconnect-Sound s c.uid r h) refl refl refl)

  pub revoke_key-Sound :
      (s : Surroundings) (key_id : String) (r : InstanceRegistry)
      → Sound p r
      → Sound p (revoke_key p s key_id r)
  unfolding revoke_key
  revoke_key-Sound s key_id r h =
      disconnect_each-Sound s control_close_key_revoked
        (keep (λ c. same_text c.key_id key_id) r.connections) r h

  pub close_all-Sound :
      (s : Surroundings) (r : InstanceRegistry) → Sound p r → Sound p (close_all p s r)
  unfolding close_all
  close_all-Sound s r h = disconnect_each-Sound s ws_close_server_shutdown r.connections r h

  -- An offline record owns nothing, so it can go.
  erased-Sound :
      (k : RecordKey) (rec : InstanceRecord) (r r' : InstanceRegistry)
      → Sound p r
      → find RecordKey-discrete k r.records ≡ some rec
      → rec.state ≢ controllable
      → r'.records ≡ erase RecordKey-discrete k r.records
      → r'.ownership ≡ r.ownership
      → r'.connections ≡ r.connections
      → Sound p r'
  erased-Sound k rec r r' h at_k idles same_records same_ownership same_connections = record {
    unique = rw same_records (erase-Unique RecordKey-discrete k r.records h.unique);
    fits =
        rw (same_records, same_ownership, same_connections)
          (λ j other found.
            h.fits j other (erase_found RecordKey-discrete j k other r.records found).0);
    owned =
        rw (same_records, same_ownership)
          (λ j id found.
            let o = h.owned j id found in
            let apart : ¬ (k ≡ (j.0, id)) = λ same.
              let itself : some rec ≡ some o.owner =
                sym at_k ∙ ap (λ i. find RecordKey-discrete i r.records) same ∙ o.found in
              let controls = o.controls in idles (ground arith) in
            record {
              owner = o.owner;
              found = erase_other RecordKey-discrete (j.0, id) k r.records apart ∙ o.found;
              controls = o.controls;
              same_key = o.same_key;
            });
  }

  pub forget_offline-Sound :
      (s : Surroundings) (user_id instance_id : String) (r : InstanceRegistry)
      → Sound p r
      → Sound p (forget_offline s user_id instance_id r).0
  unfolding forget_offline publish_snapshot
  forget_offline-Sound s user_id instance_id r h =
      elim (Option-cases (find RecordKey-discrete (record_key user_id instance_id) r.records)) [
        | inl absent ↦ rw (absent, forget_offline) h
        | inr (rec, found) ↦
            elim (Bool-cases (not (is_offline rec.state) || not (is_none rec.connection))) [
              | inl refused ↦ rw (found, forget_offline) (rw refused h)
              | inr allowed ↦
                  let idles : rec.state ≢ controllable = λ on. ground arith in
                  rw (found, forget_offline)
                    (rw allowed (
                      erased-Sound (record_key user_id instance_id) rec r _ h found idles refl refl
                        refl))
            ]
      ]
