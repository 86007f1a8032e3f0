-- ===== src/Gateway/Instances/Ownership/Candidates.antt =====
-- Who may be promoted in instance-registry.ts: the records that wait for a key.
use opencode_notify_hub.Shared.{
  String, ◌≡◌, sym, ap, ◌∙◌, ◌≢◌, inl, inr, Bool, true, none, some, List, [], ◌∷◌, arith,
  Bool-cases, keep, All, All-mono,
}
use opencode_notify_hub.Shared.Table.{Table, find, Unique-All}
use opencode_notify_hub.Gateway.Instances.State.{
  conflicting, RecordKey, RecordKey-discrete, OwnershipKey, InstanceRecord, InstanceRegistry,
  InstanceState,
}
use opencode_notify_hub.Gateway.Instances.Keys.{Platform, record_key}
use opencode_notify_hub.Gateway.Instances.Presence.{
  is_conflicting, values, sort_by_sequence, insert_by_sequence,
}
use opencode_notify_hub.Gateway.Instances.Links.{candidates}
use opencode_notify_hub.Gateway.Instances.Ownership.{key_of, Sound}

module _ (P : InstanceRecord → Type 0) where
  insert_by_sequence-All :
      (rec : InstanceRecord) (recs : List InstanceRecord)
      → P rec
      → All P recs
      → All P (insert_by_sequence rec recs)
  unfolding insert_by_sequence
  insert_by_sequence-All rec [] h hs = (h, tt)
  insert_by_sequence-All rec (other ∷ rest) h hs =
      ground (arith, insert_by_sequence-All rec rest h hs.1)

  sort_by_sequence-All : (recs : List InstanceRecord) → All P recs → All P (sort_by_sequence recs)
  unfolding sort_by_sequence
  sort_by_sequence-All [] h = tt
  sort_by_sequence-All (rec ∷ rest) h =
      insert_by_sequence-All rec (sort_by_sequence rest) h.0 (sort_by_sequence-All rest h.1)

keep-All :
    (P Q : InstanceRecord → Type 0) (f : InstanceRecord → Bool)
    → ((rec : InstanceRecord) → P rec → f rec ≡ true → Q rec)
    → (recs : List InstanceRecord) → All P recs
    → All Q (keep f recs)
keep-All P Q f g [] h = tt
keep-All P Q f g (rec ∷ rest) h = elim (Bool-cases (f rec)) [
  | inl yes_kept ↦ rw yes_kept (g rec h.0 yes_kept, keep-All P Q f g rest h.1)
  | inr dropped ↦ rw dropped (keep-All P Q f g rest h.1)
]

values-All :
    (P : InstanceRecord → Type 0) (m : Table RecordKey InstanceRecord)
    → All (λ e. P e.1) m
    → All P (values m)
values-All P [] h = tt
values-All P (e ∷ m) h = (h.0, values-All P m h.1)

-- An instance that waits for the key.
pub record Candidate (p : Platform) (key : OwnershipKey) (r : InstanceRegistry)
    (rec : InstanceRecord) : Type 0 where
  pub stands :
      find RecordKey-discrete (record_key rec.user_id rec.registration.instance_id) r.records
      ≡ some rec
  pub waits : rec.state ≡ conflicting
  pub connected : rec.connection ≢ none
  pub same_key : key_of p rec ≡ key

waits_is : (t : InstanceState) → is_conflicting t ≡ true → t ≡ conflicting
waits_is t h = ground arith

pub candidates-All :
    (p : Platform) (key : OwnershipKey) (user_id : String) (r : InstanceRegistry)
    → Sound p r
    → All (Candidate p key r) (candidates p key user_id r.records)
unfolding candidates
candidates-All p key user_id r h =
    let Stands : InstanceRecord → Type 0 = λ rec.
      find RecordKey-discrete (record_key rec.user_id rec.registration.instance_id) r.records
      ≡ some rec in
    sort_by_sequence-All (Candidate p key r) _ (
      keep-All Stands (Candidate p key r) _
        (λ rec stands test. record {
          stands = stands;
          waits = ground arith;
          connected = λ e. ground arith;
          same_key = ground arith;
        })
        (values r.records)
        (values-All Stands r.records (
          All-mono
            (λ e found.
              ap (λ k. find RecordKey-discrete k r.records) (sym (h.fits e.0 e.1 found).keyed)
              ∙ found)
            r.records (Unique-All RecordKey-discrete r.records h.unique))))
