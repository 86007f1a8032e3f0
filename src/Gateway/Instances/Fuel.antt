-- ===== src/Gateway/Instances/Fuel.antt =====
-- The mutual recursion of `disconnect`, `promote` and `send` in instance-registry.ts ends.
use opencode_notify_hub.Shared.{
  ℕ, zero, suc, ◌≤◌, ◌<◌, ◌≡◌, refl, sym, ◌∙◌, inl, inr, not, none, some, List, [], ◌∷◌, arith,
  ◌==◌, Option-cases, length, length-keep-le,
}
use opencode_notify_hub.Shared.Table.{erase}
use opencode_notify_hub.Gateway.Instances.State.{
  ControlConnection, OwnershipKey, OwnershipKey-discrete, InstanceRecord, ServerMessage,
  InstanceRegistry, Surroundings,
}
use opencode_notify_hub.Gateway.Instances.Keys.{Platform, ownership_key}
use opencode_notify_hub.Gateway.Instances.Presence.{find_connection, others}
use opencode_notify_hub.Gateway.Instances.Pending.{drop_pending}
use opencode_notify_hub.Gateway.Instances.Links.{
  send_with, candidates, promote_first, promote, go_offline, release, record_of, disconnect_with,
  disconnect,
}

pub length-others-le : (uid : ℕ) (cs : List ControlConnection) → length (others uid cs) ≤ length cs
unfolding others
length-others-le uid cs = length-keep-le _ cs

pub length-others-lt :
    (uid : ℕ) (cs : List ControlConnection) (c : ControlConnection)
    → find_connection uid cs ≡ some c
    → length (others uid cs) < length cs
unfolding find_connection others
length-others-lt uid [] c h = ground arith
length-others-lt uid (d ∷ cs) c h = ground (
  arith,
  length-others-lt uid cs c,
  length-keep-le (λ (e : ControlConnection). not (e.uid == uid)) cs,
)

-- Two ways to drop a connection that agree on the registries with given connections.
abbrev Agree :
    (ℕ → InstanceRegistry → InstanceRegistry)
    → (ℕ → InstanceRegistry → InstanceRegistry)
    → List ControlConnection
    → Type 0
Agree d e cs = (uid : ℕ) (r : InstanceRegistry) → r.connections ≡ cs → d uid r ≡ e uid r

module _ (p : Platform) (s : Surroundings) (d e : ℕ → InstanceRegistry → InstanceRegistry) where
  send_with-Agree :
      (uid : ℕ) (message : ServerMessage) (r : InstanceRegistry)
      → Agree d e r.connections
      → send_with d s uid message r ≡ send_with e s uid message r
  unfolding send_with
  send_with-Agree uid message r h = rw (h uid r refl) refl

  promote_first-Agree :
      (key : OwnershipKey) (recs : List InstanceRecord) (r : InstanceRegistry)
      → Agree d e r.connections
      → promote_first p d s key recs r ≡ promote_first p e s key recs r
  unfolding promote_first
  promote_first-Agree key [] r h = refl
  promote_first-Agree key (rec ∷ rest) r h = elim (Option-cases rec.connection) [
    | inl gone ↦ rw (gone, promote_first) refl
    | inr (uid, there) ↦ rw (there, promote_first) (send_with-Agree uid _ _ h)
  ]

  release-Agree :
      (rec : InstanceRecord) (r : InstanceRegistry)
      → Agree d e r.connections
      → release p d s rec r ≡ release p e s rec r
  unfolding release promote go_offline
  release-Agree rec r h =
      let key = ownership_key p rec.user_id rec.registration in
      let gone = go_offline p s rec r in
      let freed = record gone { ownership = erase OwnershipKey-discrete key gone.ownership } in
      rw (promote_first-Agree key (candidates p key rec.user_id freed.records) freed h) refl

module _ (p : Platform) (s : Surroundings) (uid : ℕ) (r : InstanceRegistry) where
  pub disconnect_with-gone :
      (fuel : ℕ) → find_connection uid r.connections ≡ none → disconnect_with p fuel s uid r ≡ r
  unfolding disconnect_with
  disconnect_with-gone zero h = refl
  disconnect_with-gone (suc fuel) h = rw (h, disconnect_with) refl

  pub disconnect_with-free :
      (fuel : ℕ) (c : ControlConnection)
      → find_connection uid r.connections ≡ some c
      → record_of p c r ≡ none
      → disconnect_with p (suc fuel) s uid r ≡ drop_pending s uid r
  unfolding disconnect_with
  disconnect_with-free fuel c h k = rw (h, disconnect_with) (rw (k, disconnect_with) refl)

  pub disconnect_with-holds :
      (fuel : ℕ) (c : ControlConnection) (rec : InstanceRecord)
      → find_connection uid r.connections ≡ some c
      → record_of p c r ≡ some rec
      → disconnect_with p (suc fuel) s uid r
        ≡ release p (disconnect_with p fuel s) s rec (drop_pending s uid r)
  unfolding disconnect_with
  disconnect_with-holds fuel c rec h k = rw (h, disconnect_with) (rw (k, disconnect_with) refl)

connections-drop_pending :
    (s : Surroundings) (uid : ℕ) (r : InstanceRegistry)
    → (drop_pending s uid r).connections ≡ others uid r.connections
unfolding drop_pending
connections-drop_pending s uid r = refl

module _ (p : Platform) (s : Surroundings) where
  fewer :
      (f uid : ℕ) (r : InstanceRegistry) (c : ControlConnection)
      → find_connection uid r.connections ≡ some c
      → length r.connections ≤ suc f
      → (cs : List ControlConnection) → cs ≡ others uid r.connections
      → length cs ≤ f
  fewer f uid r c h hf cs e = rw e (ground (arith, length-others-lt uid r.connections c h))

  -- Any two amounts of fuel that are at least the number of connections agree.
  enough :
      (f g uid : ℕ) (r : InstanceRegistry)
      → length r.connections ≤ f
      → length r.connections ≤ g
      → disconnect_with p f s uid r ≡ disconnect_with p g s uid r
  enough zero g uid r hf hg = elim (Option-cases (find_connection uid r.connections)) [
    | inl gone ↦
        disconnect_with-gone p s uid r zero gone ∙ sym (disconnect_with-gone p s uid r g gone)
    | inr (c, there) ↦ ground (arith, length-others-lt uid r.connections c there)
  ]
  enough (suc f) zero uid r hf hg = elim (Option-cases (find_connection uid r.connections)) [
    | inl gone ↦
        disconnect_with-gone p s uid r (suc f) gone ∙ sym (disconnect_with-gone p s uid r zero gone)
    | inr (c, there) ↦ ground (arith, length-others-lt uid r.connections c there)
  ]
  enough (suc f) (suc g) uid r hf hg = elim (Option-cases (find_connection uid r.connections)) [
    | inl gone ↦
        disconnect_with-gone p s uid r (suc f) gone
        ∙ sym (disconnect_with-gone p s uid r (suc g) gone)
    | inr (c, there) ↦ elim (Option-cases (record_of p c r)) [
      | inl free ↦
          disconnect_with-free p s uid r f c there free
          ∙ sym (disconnect_with-free p s uid r g c there free)
      | inr (rec, holds) ↦
          disconnect_with-holds p s uid r f c rec there holds
          ∙ release-Agree p s (disconnect_with p f s) (disconnect_with p g s) rec
              (drop_pending s uid r)
              (λ (other : ℕ) (r' : InstanceRegistry) same.
                let e = same ∙ connections-drop_pending s uid r in
                enough f g other r' (fewer f uid r c there hf r'.connections e)
                  (fewer g uid r c there hg r'.connections e))
          ∙ sym (disconnect_with-holds p s uid r g c rec there holds)
    ]
  ]

  -- The recursion of disconnect through promote and send ends: any fuel that is at least the number
  -- of connections gives the result of disconnect.
  pub disconnect_with-enough :
      (fuel uid : ℕ) (r : InstanceRegistry)
      → length r.connections ≤ fuel
      → disconnect_with p fuel s uid r ≡ disconnect p s uid r
  unfolding disconnect
  disconnect_with-enough fuel uid r h = enough fuel (length r.connections) uid r h (ground arith)
