-- ===== src/Plugin/Queue/Order.antt =====
-- The invariant of the queue of queue.ts, and the order in which it gives its entries out.
use mathlib.Core.List.{Perm, perm_middle}
use opencode_notify_hub.Shared.{
  ℕ, suc, ◌+◌, ◌≤◌, ◌<◌, ◌≡◌, refl, ap, ◌≢◌, ◌⊎◌, inl, inr, some, List, [], ◌∷◌, ◌++◌, arith, ltb,
  Bool-cases, length, length-append, All, All-append, All-mono,
}
use opencode_notify_hub.Plugin.Queue.{
  Entry, BoundedQueue, create, push, erase_idx, enqueue, dequeue,
}
use opencode_notify_hub.Plugin.Queue.Scans.{Splits, best_index-Best, eviction_index-cases}

module _ {ℓ} {T : Type ℓ} where
  -- Sequence numbers rise along the entries, from `lo` on and below `hi`.
  abbrev pub Rising : ℕ → ℕ → List (Entry T) → Type 0
  Rising lo hi [] = lo ≤ hi
  Rising lo hi (e ∷ es) = (lo ≤ e.seq) × Rising (e.seq + 1) hi es

  Rising-weaken :
      (lo lo' hi : ℕ) (es : List (Entry T)) → lo' ≤ lo → Rising lo hi es → Rising lo' hi es
  Rising-weaken lo lo' hi [] h r = omega arith
  Rising-weaken lo lo' hi (e ∷ es) h r = (omega arith, r.1)

  Rising-push :
      (lo hi : ℕ) (es : List (Entry T)) (e : Entry T)
      → e.seq ≡ hi
      → Rising lo hi es
      → Rising lo (hi + 1) (es ++ e ∷ [])
  Rising-push lo hi [] e p r = omega arith
  Rising-push lo hi (x ∷ es) e p r = (r.0, Rising-push (x.seq + 1) hi es e p r.1)

  Rising-drop :
      (lo hi : ℕ) (xs : List (Entry T)) (e : Entry T) (ys : List (Entry T))
      → Rising lo hi (xs ++ e ∷ ys)
      → Rising lo hi (xs ++ ys)
  Rising-drop lo hi [] e ys r = Rising-weaken (e.seq + 1) lo hi ys (omega arith) r.1
  Rising-drop lo hi (x ∷ xs) e ys r = (r.0, Rising-drop (x.seq + 1) hi xs e ys r.1)

  Rising-later : (lo hi : ℕ) (ys : List (Entry T)) → Rising lo hi ys → All (λ y. lo ≤ y.seq) ys
  Rising-later lo hi [] r = tt
  Rising-later lo hi (y ∷ ys) r =
      (r.0, All-mono (λ z h. omega arith) ys (Rising-later (y.seq + 1) hi ys r.1))

  Rising-after :
      (lo hi : ℕ) (xs : List (Entry T)) (e : Entry T) (ys : List (Entry T))
      → Rising lo hi (xs ++ e ∷ ys)
      → All (λ y. e.seq < y.seq) ys
  Rising-after lo hi [] e ys r =
      All-mono (λ z h. omega arith) ys (Rising-later (e.seq + 1) hi ys r.1)
  Rising-after lo hi (x ∷ xs) e ys r = Rising-after (x.seq + 1) hi xs e ys r.1

  All-drop {κ} :
      (P : Entry T → Type κ) (xs : List (Entry T)) (e : Entry T) (ys : List (Entry T))
      → All P (xs ++ e ∷ ys)
      → All P (xs ++ ys)
  All-drop P [] e ys h = h.1
  All-drop P (x ∷ xs) e ys h = (h.0, All-drop P xs e ys h.1)

  length-middle :
      (xs : List (Entry T)) (e : Entry T) (ys : List (Entry T))
      → length (xs ++ e ∷ ys) ≡ suc (length (xs ++ ys))
  length-middle xs e ys = omega (arith, length-append xs (e ∷ ys), length-append xs ys)

  pub length-create :
      (capacity : ℕ) (q : BoundedQueue T) → create capacity ≡ some q → length q.entries ≡ 0
  unfolding create
  length-create capacity q h = ground arith

  module _ (priority_of : T → ℕ) where
    pub record IsValid (q : BoundedQueue T) : Type ℓ where
      pub positive : 0 < q.capacity
      pub bounded : length q.entries ≤ q.capacity
      pub rising : Rising 0 q.next_seq q.entries
      pub tagged : All (λ e. e.priority ≡ priority_of e.item) q.entries

    pub create-IsValid : (capacity : ℕ) (q : BoundedQueue T) → create capacity ≡ some q → IsValid q
    unfolding create
    create-IsValid capacity q h = ground arith

    erase-IsValid :
        (q : BoundedQueue T) (i : ℕ) (before : List (Entry T)) (e : Entry T)
        (after : List (Entry T))
        → Splits q.entries i before e after
        → IsValid q
        → IsValid (record q { entries = erase_idx q.entries i })
    erase-IsValid q i before e after s v = record {
      positive = v.positive;
      bounded = rw (s.without) (omega (arith, ap length s.whole, length-middle before e after));
      rising =
          rw (s.without) (Rising-drop 0 q.next_seq before e after (rw (s.whole) at (v.rising)));
      tagged = rw (s.without) (All-drop _ before e after (rw (s.whole) at (v.tagged)));
    }

    length-erase :
        (q : BoundedQueue T) (i : ℕ) (before : List (Entry T)) (e : Entry T)
        (after : List (Entry T))
        → Splits q.entries i before e after
        → suc (length (erase_idx q.entries i)) ≡ length q.entries
    length-erase q i before e after s =
        rw (s.without) (omega (arith, ap length s.whole, length-middle before e after))

    push-IsValid :
        (q : BoundedQueue T) (x : T)
        → length q.entries < q.capacity
        → IsValid q
        → IsValid (push q x (priority_of x))
    unfolding push
    push-IsValid q x room v = record {
      positive = v.positive;
      bounded = omega (
        arith,
        length-append q.entries
            ((record { item = x; priority = priority_of x; seq = q.next_seq }) ∷ []),
      );
      rising = Rising-push 0 q.next_seq q.entries _ refl v.rising;
      tagged = All-append _ q.entries _ v.tagged (refl, tt);
    }

    pub dequeue-IsValid : (q : BoundedQueue T) → IsValid q → IsValid (dequeue q).1
    unfolding dequeue
    dequeue-IsValid q v = elim (best_index-Best q.entries) [
      | inl (nothing, e) ↦ rw (e, dequeue) v
      | inr (i, e, b) ↦ rw (e, dequeue) (erase-IsValid q i b.before b.entry b.after b.splits v)
    ]

    pub enqueue-IsValid :
        (q : BoundedQueue T) (x : T) → IsValid q → IsValid (enqueue priority_of q x).0
    unfolding enqueue
    enqueue-IsValid q x v = elim (Bool-cases (ltb (length q.entries) q.capacity)) [
      | inl free ↦ rw (free, enqueue) (push-IsValid q x (ground arith) v)
      | inr full ↦ elim (eviction_index-cases q.entries (priority_of x)) [
        | inl (e, higher) ↦ rw (full, e, enqueue) v
        | inr (i, victim, e, le, low) ↦
            rw (full, e, enqueue)
              (push-IsValid (record q { entries = erase_idx q.entries i }) x
                (omega (arith, length-erase q i low.before victim low.after low.splits, v.bounded))
                (erase-IsValid q i low.before victim low.after low.splits v))
      ]
    ]

  -- `e` is given out before `x`: by priority, then by age.
  abbrev pub Precedes : Entry T → Entry T → Type 0
  Precedes e x = (x.priority < e.priority) ⊎ ((x.priority ≡ e.priority) × (e.seq < x.seq))

  All-zip :
      (e : Entry T) (ys : List (Entry T))
      → All (λ x. x.priority ≤ e.priority) ys
      → All (λ x. e.seq < x.seq) ys
      → All (Precedes e) ys
  All-zip e [] h k = tt
  All-zip e (y ∷ ys) h k = (ground arith, All-zip e ys h.1 k.1)

  -- A dequeue of a valid queue that is not empty returns the item of one entry, which precedes
  -- every entry that stays by a higher priority or the same and a lower sequence number; the other
  -- entries all stay.
  pub dequeue-Precedes :
      (priority_of : T → ℕ) (q : BoundedQueue T)
      → IsValid priority_of q
      → q.entries ≢ []
      → (e : Entry T) × ((dequeue q).0 ≡ some e.item)
        × Perm q.entries (e ∷ (dequeue q).1.entries)
        × All (Precedes e) (dequeue q).1.entries
  unfolding dequeue
  dequeue-Precedes priority_of q v full = elim (best_index-Best q.entries) [
    | inl (nothing, e) ↦ absurd (full nothing)
    | inr (i, e, b) ↦ (
      b.entry,
      rw (e, dequeue) (ground (arith, b.splits.found)),
      rw (e, dequeue) (rw (b.splits.without) (rw (b.splits.whole) (perm_middle b.before b.after))),
      rw (e, dequeue)
          (rw (b.splits.without) (
            All-append _ b.before b.after (All-mono (λ x h. inl h) b.before b.above) (
              All-zip b.entry b.after b.at_least (
                Rising-after 0 q.next_seq b.before b.entry b.after
                  (rw (b.splits.whole) at (v.rising)))))),
    )
  ]

-- Enqueue and dequeue keep a valid queue valid: the capacity positive and not exceeded, the
-- sequence numbers rising and below the next one, and each entry at the priority of its item.
pub operations-IsValid {ℓ} :
    {T : Type ℓ} (priority_of : T → ℕ) (q : BoundedQueue T) (x : T)
    → IsValid priority_of q
    → IsValid priority_of (enqueue priority_of q x).0 × IsValid priority_of (dequeue q).1
operations-IsValid priority_of q x v =
    (enqueue-IsValid priority_of q x v, dequeue-IsValid priority_of q v)
