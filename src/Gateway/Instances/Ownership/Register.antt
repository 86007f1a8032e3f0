-- ===== src/Gateway/Instances/Ownership/Register.antt =====
-- `register` of instance-registry.ts keeps its state sound.
use opencode_notify_hub.Shared.{
  ℕ, String, ◌≡◌, refl, sym, ap, ◌∙◌, inl, inr, Bool, true, false, not, none, some, List, [], ◌∷◌,
  arith, ◌==◌, if◌then◌else◌, Option-cases, ==_refl, ==_ne,
}
use opencode_notify_hub.Shared.Table.{find, find-keep, find-keep-some, keep-Unique}
use opencode_notify_hub.Gateway.Instances.State.{
  ControlConnection, RecordKey, RecordKey-discrete, OwnershipKey, InstanceRecord, InstanceRegistry,
  Surroundings, RegisterMessage, raises,
}
use opencode_notify_hub.Gateway.Instances.Keys.{Platform, ownership_key, record_key}
use opencode_notify_hub.Gateway.Instances.Presence.{find_connection, publish_snapshot, call}
use opencode_notify_hub.Gateway.Instances.Links.{disconnect, send}
use opencode_notify_hub.Gateway.Instances.Register.{
  enroll, prune_offline_ownership, is_prunable, amend, amend_connection, register, replace_existing,
  connection_at,
}
use opencode_notify_hub.Gateway.Instances.Ownership.{Linked, Sound}
use opencode_notify_hub.Gateway.Instances.Ownership.Ties.{uid-find_connection, only}
use opencode_notify_hub.Gateway.Instances.Ownership.After.{send_with-After, core_same}
use opencode_notify_hub.Gateway.Instances.Ownership.Disconnect.{disconnect-After}
use opencode_notify_hub.Gateway.Instances.Ownership.Ended.{disconnect-IsEnded}
use opencode_notify_hub.Gateway.Instances.Ownership.Enroll.{entry-Sound}

prune-Sound :
    (p : Platform) (user_id : String) (key : OwnershipKey) (except : String)
    (r r' : InstanceRegistry)
    → Sound p r
    → r'.records ≡ prune_offline_ownership p user_id key except r.records
    → r'.ownership ≡ r.ownership
    → r'.connections ≡ r.connections
    → Sound p r'
unfolding prune_offline_ownership
prune-Sound p user_id key except r r' h same_records same_ownership same_connections =
    let kept : InstanceRecord → Bool = λ rec. not (is_prunable p user_id key except rec) in
    record {
      unique = rw same_records (keep-Unique RecordKey-discrete kept r.records h.unique);
      fits =
          rw (same_records, same_ownership, same_connections)
            (λ k rec found.
              h.fits k rec
                (find-keep-some RecordKey-discrete kept k rec r.records h.unique found).0);
      owned =
          rw (same_records, same_ownership)
            (λ j id found.
              let o = h.owned j id found in
              let live = o.controls in
              record {
                owner = o.owner;
                found =
                    find-keep RecordKey-discrete kept (j.0, id) o.owner r.records o.found
                      (ground arith);
                controls = o.controls;
                same_key = o.same_key;
              });
    }

-- A change of a connection that keeps its uid.
pub find_connection-amend :
    (f : ControlConnection → ControlConnection) (uid j : ℕ) (cs : List ControlConnection)
    (c : ControlConnection)
    → ((d : ControlConnection) → (f d).uid ≡ d.uid)
    → find_connection j cs ≡ some c
    → find_connection j (amend_connection uid f cs) ≡ some (if c.uid == uid then f c else c)
unfolding find_connection
find_connection-amend f uid j [] c k h = ground arith
find_connection-amend f uid j (d ∷ cs) c k h =
    let same = k d in ground (arith, find_connection-amend f uid j cs c k)

-- The connection of a handler: the registry holds it, with the user and the name that it has.
pub record Present (c : ControlConnection) (r : InstanceRegistry) : Type 0 where
  pub held : ControlConnection
  pub found : find_connection c.uid r.connections ≡ some held
  pub same_user : held.user_id ≡ c.user_id
  pub same_name : held.instance_id ≡ c.instance_id

module _ (p : Platform) (s : Surroundings) (c : ControlConnection) (m : RegisterMessage)
    (r : InstanceRegistry) (h : Sound p r) (here : Present c r) (fresh : c.instance_id ≡ none) where
  abbrev k : RecordKey
  k = record_key c.user_id m.instance_id

  -- An older connection of the instance is dropped, and reading it again raises.
  replace_existing-raises :
      (other : ℕ)
      → connection_at p k r ≡ some other
      → replace_existing p s c.uid k r ≡ (disconnect p s other r, false)
  unfolding replace_existing
  replace_existing-raises other linked = elim (Option-cases (find RecordKey-discrete k r.records)) [
    | inl absent ↦ let no : ⊥ = ground arith in elim no [ ]
    | inr (old, is) ↦
        let old_linked : old.connection ≡ some other = ground arith in
        let (owner, held, same_user, names) = (h.fits k old is).linked other old_linked in
        let apart : ¬ (other ≡ c.uid) = λ same.
          let present : find_connection other r.connections ≡ some here.held =
            ap (λ (x : ℕ). find_connection x r.connections) same ∙ here.found in
          let free = here.same_name ∙ fresh in ground arith in
        let ended =
          disconnect-IsEnded p s other owner old r h held
            (only p s other owner r h held k old is old_linked) in
        let at_end =
          ap (λ j. find RecordKey-discrete j (disconnect p s other r).records)
            (h.fits k old is).keyed
          ∙ ended in
        let gone : connection_at p k (disconnect p s other r) ≡ none =
          rw (at_end, connection_at) refl in
        rw (linked, replace_existing)
          (rw (==_ne other c.uid apart) (rw (gone, replace_existing) refl))
  ]

  pub register-raises :
      (other : ℕ)
      → connection_at p k r ≡ some other
      → register p s c m r ≡ call raises (disconnect p s other r)
  unfolding register
  register-raises other linked = rw (replace_existing-raises other linked) refl

  module _ (free_key : connection_at p k r ≡ none) where
    goes_on : replace_existing p s c.uid k r ≡ (r, true)
    unfolding replace_existing
    goes_on = rw (free_key, replace_existing) refl

    vacant :
        (rec : InstanceRecord)
        → find RecordKey-discrete (c.user_id, m.instance_id) r.records ≡ some rec
        → rec.connection ≡ none
    vacant rec found = ground arith

    kept :
        (rec : InstanceRecord) (i : RecordKey)
        → find RecordKey-discrete i r.records ≡ some rec
        → (j : ℕ) → rec.connection ≡ some j
        → Linked
            (amend_connection c.uid
              (λ d. record d { instance_id = some m.instance_id })
              r.connections)
            rec
            j
    kept rec i found j linked =
        let (owner, held, same_user, names) = (h.fits i rec found).linked j linked in
        let free = here.same_name ∙ fresh in
        let present = here.found in
        let at_j = uid-find_connection j r.connections owner held in
        let apart : ¬ (owner.uid ≡ c.uid) = λ same.
          let again : find_connection c.uid r.connections ≡ some owner =
            ap (λ (x : ℕ). find_connection x r.connections) (sym same ∙ at_j) ∙ held in
          ground arith in
        (
          owner,
          find_connection-amend (λ d. record d { instance_id = some m.instance_id }) c.uid j
                r.connections owner (λ d. refl) held
              ∙ rw (==_ne owner.uid c.uid apart) refl,
          same_user,
          names,
        )

    abbrev enrolled : InstanceRegistry
    enrolled =
        enroll p s c m (find RecordKey-discrete k r.records)
          (amend c.uid (λ d. record d { instance_id = some m.instance_id }) r)

    enrolled-Sound : Sound p enrolled
    unfolding enroll amend prune_offline_ownership
    enrolled-Sound =
        let key = ownership_key p c.user_id m in
        let kept_one : InstanceRecord → Bool =
          λ rec. not (is_prunable p c.user_id key m.instance_id rec) in
        let pruned = record r {
          records = prune_offline_ownership p c.user_id key m.instance_id r.records;
        } in
        let before : (rec : InstanceRecord) (i : RecordKey)
            → find RecordKey-discrete i pruned.records ≡ some rec
            → find RecordKey-discrete i r.records ≡ some rec =
          λ rec i found.
            (find-keep-some RecordKey-discrete kept_one i rec r.records h.unique found).0 in
        entry-Sound p s c m (find RecordKey-discrete k r.records) pruned
          (prune-Sound p c.user_id key m.instance_id r pruned h refl refl refl)
          (amend_connection c.uid (λ d. record d { instance_id = some m.instance_id })
            r.connections)
          (λ rec i found. kept rec i (before rec i found))
          (
            record here.held { instance_id = some m.instance_id },
            find_connection-amend (λ d. record d { instance_id = some m.instance_id }) c.uid c.uid
                  r.connections here.held (λ d. refl) here.found
                ∙ rw (uid-find_connection c.uid r.connections here.held here.found, ==_refl c.uid)
                    refl,
            here.same_user,
            refl,
          )
          (λ rec found. vacant rec (before rec (c.user_id, m.instance_id) found)) _ refl refl refl

    register_free-Sound : Sound p (register p s c m r)
    unfolding register send publish_snapshot
    register_free-Sound =
        let sent =
          send_with-After p (disconnect p s) s c.uid _ enrolled (disconnect-After p s)
            enrolled-Sound in
        rw goes_on (core_same p _ _ sent.sound refl refl refl)

  pub register-Sound : Sound p (register p s c m r)
  register-Sound = elim (Option-cases (connection_at p k r)) [
    | inl free_key ↦ register_free-Sound free_key
    | inr (other, linked) ↦ rw (register-raises other linked) (
        core_same p (disconnect p s other r) _ (disconnect-After p s other r h).sound refl refl
          refl)
  ]
