-- ===== src/Gateway/Connections/Fanout.antt =====
-- The fanout of connection-registry.ts: who gets a message, and who stays.
use opencode_notify_hub.Shared.{
  ℕ, String, ◌≡◌, refl, sym, ap, ◌∙◌, ◌≢◌, inl, inr, ite, Bool, true, false, not, ◌&&◌, ◌||◌, List,
  [], ◌∷◌, arith, ℕ_discrete, leb, ◌==◌, if◌then◌else◌, Bool-cases, Option-cases, String-discrete,
  ==_refl, ==_ne, keep, All, All-mono,
}
use opencode_notify_hub.Gateway.Connections.{
  Connection, ConnectionRegistry, Sockets, members, has, others, remove, send_one, send_each, send,
  ws_max_buffered_bytes, get,
}
use opencode_notify_hub.Gateway.Connections.Removal.{members-remove, has-All}

module _ (s : Sockets) where
  -- Open and not over the limit.
  abbrev pub is_reachable : ℕ → Bool
  is_reachable id = s.is_open id && leb (s.buffered_amount id) ws_max_buffered_bytes

  -- Gets the message.
  abbrev pub is_healthy : ℕ → Bool
  is_healthy id = is_reachable id && not (s.throws id)

  module _ (user_id payload : String) where
    members-send_one :
        (j : String) (id : ℕ) (r : ConnectionRegistry)
        → members j (send_one s user_id payload id r)
          ≡ (if is_healthy id then members j r else members j (remove user_id id r))
    unfolding send_one
    members-send_one j id r = ground arith

    -- The set after each of `cs` was tried.
    abbrev tried : List Connection → List Connection → List Connection
    tried [] m = m
    tried (c ∷ cs) m = tried cs (if is_healthy c.id then m else others c.id m)

    members-send_each :
        (cs : List Connection) (r : ConnectionRegistry)
        → members user_id (send_each s user_id payload cs r) ≡ tried cs (members user_id r)
    unfolding send_each
    members-send_each [] r = refl
    members-send_each (c ∷ cs) r = rw (members-send_each cs (send_one s user_id payload c.id r)) (
        ap (tried cs)
          (ground (arith, members-send_one user_id c.id r, members-remove user_id user_id c.id r)))

    others-send_each :
        (j : String) (cs : List Connection) (r : ConnectionRegistry)
        → user_id ≢ j
        → members j (send_each s user_id payload cs r) ≡ members j r
    unfolding send_each
    others-send_each j [] r h = refl
    others-send_each j (c ∷ cs) r h =
        rw (others-send_each j cs (send_one s user_id payload c.id r) h)
          (ground (arith, members-send_one j c.id r, members-remove j user_id c.id r))

    keep-others :
        (p : Connection → Bool) (id : ℕ) (m : List Connection)
        → keep p (others id m) ≡ keep (λ x. not (x.id == id) && p x) m
    keep-others p id [] = refl
    keep-others p id (x ∷ m) = ground (arith, keep-others p id m)

    keep-ext :
        (p q : Connection → Bool) (m : List Connection)
        → All (λ x. p x ≡ q x) m
        → keep p m ≡ keep q m
    keep-ext p q [] h = refl
    keep-ext p q (x ∷ m) h = ground (arith, h.0, keep-ext p q m h.1)

    everywhere :
        (p q : Connection → Bool) (m : List Connection)
        → ((x : Connection) → p x ≡ q x)
        → keep p m ≡ keep q m
    everywhere p q [] h = refl
    everywhere p q (x ∷ m) h = ground (arith, h x, everywhere p q m h)

    keep_all :
        (p : Connection → Bool) (m : List Connection)
        → ((x : Connection) → p x ≡ true)
        → keep p m ≡ m
    keep_all p [] h = refl
    keep_all p (x ∷ m) h = ground (arith, h x, keep_all p m h)

    skips_healthy :
        (c x : Connection) (cs : List Connection)
        → is_healthy c.id ≡ true
        → (is_healthy x.id || not (has x.id cs)) ≡ (is_healthy x.id || not (has x.id (c ∷ cs)))
    skips_healthy c x cs good = elim (ℕ_discrete c.id x.id) [
      | yes e ↦ let same : is_healthy x.id ≡ true = rw (sym e) good in rw same refl
      | no n ↦ rw (==_ne c.id x.id n) refl
    ]

    drops_unhealthy :
        (c x : Connection) (cs : List Connection)
        → is_healthy c.id ≡ false
        → (not (x.id == c.id) && (is_healthy x.id || not (has x.id cs)))
          ≡ (is_healthy x.id || not (has x.id (c ∷ cs)))
    drops_unhealthy c x cs bad = elim (ℕ_discrete c.id x.id) [
      | yes e ↦
          let same : is_healthy x.id ≡ false = rw (sym e) bad in rw (same, e, ==_refl x.id) refl
      | no n ↦ rw (==_ne c.id x.id n, ==_ne x.id c.id (λ e. n (sym e))) refl
    ]

    tried-keep :
        (cs m : List Connection) → tried cs m ≡ keep (λ x. is_healthy x.id || not (has x.id cs)) m
    tried-keep [] m = sym (keep_all _ m (λ x. ground arith))
    tried-keep (c ∷ cs) m = elim (Bool-cases (is_healthy c.id)) [
      | inl good ↦ rw good (tried-keep cs m ∙ everywhere _ _ m (λ x. skips_healthy c x cs good))
      | inr bad ↦ rw bad (
          tried-keep cs (others c.id m)
          ∙ keep-others _ c.id m
          ∙ everywhere _ _ m (λ x. drops_unhealthy c x cs bad))
    ]

    members_kept : (m : List Connection) → tried m m ≡ keep (λ x. is_healthy x.id) m
    members_kept m = tried-keep m m ∙ keep-ext _ _ m (All-mono (λ x h. ground arith) m (has-All m))

  members-send_self :
      (user_id payload : String) (r : ConnectionRegistry)
      → members user_id (send s user_id payload r) ≡ keep (λ c. is_healthy c.id) (members user_id r)
  unfolding send
  members-send_self user_id payload r = elim (Option-cases (get user_id r.by_user)) [
    | inl absent ↦ rw (absent, send) (rw absent refl)
    | inr (cs, found) ↦
        rw (found, send)
          (members-send_each user_id payload cs r ∙ rw found (members_kept user_id payload cs))
  ]

  members-send_other :
      (user_id payload j : String) (r : ConnectionRegistry)
      → user_id ≢ j
      → members j (send s user_id payload r) ≡ members j r
  unfolding send
  members-send_other user_id payload j r other = elim (Option-cases (get user_id r.by_user)) [
    | inl absent ↦ rw (absent, send) refl
    | inr (cs, found) ↦ rw (found, send) (others-send_each user_id payload j cs r other)
  ]

  -- After a send to a user, the user's registered connections are those of before that are open,
  -- not over the buffer limit and whose socket did not throw, in the same order; every other user's
  -- are as they were.
  pub members-send :
      (user_id payload j : String) (r : ConnectionRegistry)
      → members j (send s user_id payload r)
        ≡ ite (String-discrete user_id j) (keep (λ c. is_healthy c.id) (members j r)) (members j r)
  members-send user_id payload j r =
      ground (arith, members-send_self user_id payload r, members-send_other user_id payload j r)
