-- ===== src/Gateway/Instances/Ownership/Enroll.antt =====
-- `register` of instance-registry.ts keeps its state sound.
use opencode_notify_hub.Shared.{
  ℕ, String, ◌≡◌, refl, sym, ap, ◌∙◌, ◌≢◌, ◌⊎◌, inl, inr, true, false, Option, none, some, List, [],
  arith, Bool-cases, Option-cases,
}
use opencode_notify_hub.Shared.Table.{Table, find, put, find_same, find_other}
use opencode_notify_hub.Gateway.Instances.State.{
  ControlConnection, controllable, conflicting, incompatible, offline, RecordKey,
  RecordKey-discrete, OwnershipKey, OwnershipKey-discrete, InstanceRecord, InstanceRegistry,
  Surroundings, RegisterMessage, InstanceState,
}
use opencode_notify_hub.Gateway.Instances.Keys.{Platform, ownership_key}
use opencode_notify_hub.Gateway.Instances.Presence.{find_connection, is_controllable}
use opencode_notify_hub.Gateway.Instances.Register.{state_for, claim, sequence_of}
use opencode_notify_hub.Gateway.Instances.Ownership.{key_of, Linked, Fits, Owner, Sound, put-Sound}

claim_idle :
    (p : Platform) (t : InstanceState) (key : OwnershipKey) (id : String)
    (ow : Table OwnershipKey String)
    → is_controllable t ≡ false
    → claim p t key id ow ≡ ow
claim_idle p controllable key id ow h = ground arith
claim_idle p conflicting key id ow h = refl
claim_idle p incompatible key id ow h = refl
claim_idle p offline key id ow h = refl

in_control : (t : InstanceState) → is_controllable t ≡ true → t ≡ controllable
in_control t h = ground arith

-- Which registration may be stored: the connection is named after it, and its key holds no instance
-- in control.
module _ (p : Platform) (s : Surroundings) (c : ControlConnection) (m : RegisterMessage)
    (existing : Option InstanceRecord) (r : InstanceRegistry) (h : Sound p r)
    (cs : List ControlConnection)
    (kept : (rec : InstanceRecord) (k : RecordKey)
      → find RecordKey-discrete k r.records ≡ some rec
      → (j : ℕ) → rec.connection ≡ some j
      → Linked cs rec j)
    (named : (c' : ControlConnection) × (find_connection c.uid cs ≡ some c')
      × (c'.user_id ≡ c.user_id)
      × (c'.instance_id ≡ some m.instance_id))
    (vacant : (rec : InstanceRecord)
      → find RecordKey-discrete (c.user_id, m.instance_id) r.records ≡ some rec
      → rec.connection ≡ none) where
  abbrev key : OwnershipKey
  key = ownership_key p c.user_id m

  abbrev state : InstanceState
  state = state_for m (find OwnershipKey-discrete key r.ownership)

  abbrev entry : InstanceRecord
  entry = record {
    registration = m;
    user_id = c.user_id;
    sequence = sequence_of p existing r.next_sequence;
    state = state;
    last_seen_at = s.now_ms;
    connection = some c.uid;
    projected_requests = [];
    stale_requests = [];
  }

  abbrev claimed : Table OwnershipKey String
  claimed = claim p state key m.instance_id r.ownership

  -- The instance that registers controls no key before.
  idle_before :
      (rec : InstanceRecord)
      → find RecordKey-discrete (c.user_id, m.instance_id) r.records ≡ some rec
      → rec.state ≢ controllable
  idle_before rec found controls =
      let off = (h.fits _ rec found).gone (vacant rec found) in ground arith

  never_offline : state ≢ offline
  unfolding state_for
  never_offline e = ground arith

  unowned : state ≡ controllable → find OwnershipKey-discrete key r.ownership ≡ none
  unfolding state_for ownership_key
  unowned e = elim (Option-cases (find OwnershipKey-discrete key r.ownership)) [
    | inl free ↦ free
    | inr (id, found) ↦
        let o = h.owned key id found in
        let same : id ≡ m.instance_id = ground arith in
        let at_key : find RecordKey-discrete (c.user_id, m.instance_id) r.records ≡ some o.owner =
          ap (λ (x : String). find RecordKey-discrete (c.user_id, x) r.records) (sym same)
          ∙ o.found in
        elim (idle_before o.owner at_key o.controls) [ ]
  ]

  claimed_mine : state ≡ controllable → find OwnershipKey-discrete key claimed ≡ some m.instance_id
  claimed_mine e = rw e (find_same OwnershipKey-discrete key key m.instance_id r.ownership refl)

  claimed_keeps :
      (j : OwnershipKey) (id : String)
      → find OwnershipKey-discrete j r.ownership ≡ some id
      → find OwnershipKey-discrete j claimed ≡ some id
  claimed_keeps j id found = elim (Bool-cases (is_controllable state)) [
    | inl controls ↦
        let is = in_control state controls in
        let free = unowned is in
        let apart : ¬ (key ≡ j) = λ same. ground arith in
        rw is (find_other OwnershipKey-discrete j key m.instance_id r.ownership apart ∙ found)
    | inr idles ↦ rw (claim_idle p state key m.instance_id r.ownership idles) found
  ]

  claimed_from :
      (j : OwnershipKey) (id : String)
      → find OwnershipKey-discrete j claimed ≡ some id
      → ((key ≡ j) × (state ≡ controllable) × (m.instance_id ≡ id))
        ⊎ (find OwnershipKey-discrete j r.ownership ≡ some id)
  claimed_from j id found = elim (Bool-cases (is_controllable state)) [
    | inl controls ↦
        let is = in_control state controls in
        let put_in : find OwnershipKey-discrete j
              (put OwnershipKey-discrete key m.instance_id r.ownership)
            ≡ some id =
          ap
            (λ (t : InstanceState).
              find OwnershipKey-discrete j (claim p t key m.instance_id r.ownership))
            (sym is)
          ∙ found in
        elim (OwnershipKey-discrete key j) [
          | yes here ↦ inl (
            here,
            is,
            ground (arith, find_same OwnershipKey-discrete j key m.instance_id r.ownership here),
          )
          | no there ↦ inr (
              sym (find_other OwnershipKey-discrete j key m.instance_id r.ownership there) ∙ put_in)
        ]
    | inr idles ↦ inr (
        ap (find OwnershipKey-discrete j)
          (sym (claim_idle p state key m.instance_id r.ownership idles))
        ∙ found)
  ]

  entry-Fits : Fits p claimed cs (c.user_id, m.instance_id) entry
  entry-Fits = record {
    keyed = refl;
    held = claimed_mine;
    gone = λ e. ground arith;
    live = λ e. elim (never_offline e) [ ];
    linked = λ j e.
        let (own_connection, found, same_user, names) = named in
        let same : c.uid ≡ j = ground arith in
        (own_connection, ap (λ (x : ℕ). find_connection x cs) (sym same) ∙ found, same_user, names);
  }

  other-Fits :
      (k : RecordKey) (other : InstanceRecord)
      → find RecordKey-discrete k r.records ≡ some other
      → Fits p claimed cs k other
  other-Fits k other found =
      let fit = h.fits k other found in
      record {
        keyed = fit.keyed;
        held = λ e. claimed_keeps (key_of p other) other.registration.instance_id (fit.held e);
        gone = fit.gone;
        live = fit.live;
        linked = kept other k found;
      }

  claimed-Owner :
      (j : OwnershipKey) (id : String)
      → find OwnershipKey-discrete j claimed ≡ some id
      → Owner p (put RecordKey-discrete (c.user_id, m.instance_id) entry r.records) j id
  unfolding ownership_key
  claimed-Owner j id found = elim (claimed_from j id found) [
    | inl (here, controls, same_id) ↦
        let user : c.user_id ≡ j.0 = ap (λ (x : OwnershipKey). x.0) here in
        record {
          owner = entry;
          found =
              find_same RecordKey-discrete (j.0, id) _ entry r.records (λ i. (user i, same_id i));
          controls = controls;
          same_key = here;
        }
    | inr old ↦
        let o = h.owned j id old in
        let apart : ¬ (◌≡◌ {A = RecordKey} (c.user_id, m.instance_id) (j.0, id)) = λ same.
          idle_before o.owner (ap (λ k. find RecordKey-discrete k r.records) same ∙ o.found)
            o.controls in
        record {
          owner = o.owner;
          found =
              find_other RecordKey-discrete (j.0, id) (c.user_id, m.instance_id) entry r.records
                apart
              ∙ o.found;
          controls = o.controls;
          same_key = o.same_key;
        }
  ]

  pub entry-Sound :
      (r' : InstanceRegistry)
      → r'.records ≡ put RecordKey-discrete (c.user_id, m.instance_id) entry r.records
      → r'.ownership ≡ claimed
      → r'.connections ≡ cs
      → Sound p r'
  entry-Sound r' same_records same_ownership same_connections =
      put-Sound p (c.user_id, m.instance_id) entry r r' h same_records
        (rw (same_ownership, same_connections) entry-Fits)
        (rw (same_ownership, same_connections) (λ j other ne. other-Fits j other))
        (rw same_ownership claimed-Owner)
