-- ===== src/Plugin/Queue/Lanes.antt =====
-- The queue of queue.ts against its contract: one first-in first-out lane for each priority.
use mathlib.Core.List.{append-nil}
use opencode_notify_hub.Shared.{
  ℕ, ◌≤◌, ◌<◌, ◌≡◌, refl, sym, ap, ◌≢◌, inl, inr, Bool, true, false, Option, none, some, List, [],
  ◌∷◌, ◌++◌, arith, ℕ_discrete, ltb, leb, ◌==◌, if◌then◌else◌, Bool-cases, ==_refl, ==_ne, length,
  All, All-append, All-mono,
}
use opencode_notify_hub.Plugin.Queue.{
  Entry, BoundedQueue, EnqueueResult, erase_idx, enqueue, dequeue,
}
use opencode_notify_hub.Plugin.Queue.Scans.{Splits, best_index-Best, eviction_index-cases}

module _ {ℓ} {T : Type ℓ} where
  -- The items of one priority, oldest first.
  abbrev pub lane_of : ℕ → List (Entry T) → List T
  lane_of p [] = []
  lane_of p (e ∷ es) = if e.priority == p then e.item ∷ lane_of p es else lane_of p es

  abbrev pub lane : ℕ → BoundedQueue T → List T
  lane p q = lane_of p q.entries

  pub lane_of-append :
      (p : ℕ) (xs ys : List (Entry T)) → lane_of p (xs ++ ys) ≡ lane_of p xs ++ lane_of p ys
  lane_of-append p [] ys = refl
  lane_of-append p (x ∷ xs) ys = ground (arith, lane_of-append p xs ys)

  pub lane_of-nil : (p : ℕ) (xs : List (Entry T)) → All (λ x. x.priority ≢ p) xs → lane_of p xs ≡ []
  lane_of-nil p [] h = refl
  lane_of-nil p (x ∷ xs) h = ground (arith, h.0, lane_of-nil p xs h.1)

  -- Taking from the lanes: the oldest item of the highest lane that is not empty.
  pub data Take (before after : ℕ → List T) (taken : Option T) : Type ℓ where
    empty :
        taken ≡ none
        → ((p : ℕ) → before p ≡ [])
        → ((p : ℕ) → after p ≡ [])
        → Take before after taken
    oldest :
        (p : ℕ) (x : T)
        → taken ≡ some x
        → before p ≡ x ∷ after p
        → ((h : ℕ) → p < h → before h ≡ [])
        → ((o : ℕ) → o ≢ p → after o ≡ before o)
        → Take before after taken

  -- Offering an item of priority `p` to the lanes of a queue that is full or is not. A full queue
  -- drops the oldest item of its lowest lane that is not empty, or refuses when that lane is higher
  -- than `p`.
  pub data Offer (full : Bool) (p : ℕ) (x : T) (before after : ℕ → List T) (r : EnqueueResult T)
      : Type ℓ where
    room :
        full ≡ false
        → r ≡ record { accepted = true; evicted = none }
        → after p ≡ before p ++ x ∷ []
        → ((o : ℕ) → o ≢ p → after o ≡ before o)
        → Offer full p x before after r
    refused :
        full ≡ true
        → r ≡ record { accepted = false; evicted = none }
        → ((o : ℕ) → o ≤ p → before o ≡ [])
        → ((o : ℕ) → after o ≡ before o)
        → Offer full p x before after r
    replaced :
        (v : ℕ) (y : T) (rest : List T)
        → full ≡ true
        → r ≡ record { accepted = true; evicted = some y }
        → v ≤ p
        → before v ≡ y ∷ rest
        → ((o : ℕ) → o < v → before o ≡ [])
        → ((o : ℕ)
            → after o ≡ (if o == v then rest else before o) ++ (if o == p then x ∷ [] else []))
        → Offer full p x before after r

  lane_of-push :
      (o : ℕ) (es : List (Entry T)) (e : Entry T)
      → lane_of o (es ++ e ∷ []) ≡ lane_of o es ++ (if o == e.priority then e.item ∷ [] else [])
  lane_of-push o es e = rw (lane_of-append o es (e ∷ [])) (ground arith)

  -- A split list, lane by lane.
  lane_of-Splits :
      (o : ℕ) (es : List (Entry T)) (i : ℕ) (before : List (Entry T)) (e : Entry T)
      (after : List (Entry T))
      → Splits es i before e after
      → All (λ x. x.priority ≢ e.priority) before
      → lane_of o es ≡ (
          if o == e.priority
          then e.item ∷ lane_of o (erase_idx es i)
          else lane_of o (erase_idx es i))
  lane_of-Splits o es i before e after s h = rw (s.without) (
      rw (s.whole) (
        rw (lane_of-append o before (e ∷ after), lane_of-append o before after)
          (elim (ℕ_discrete e.priority o) [
            | yes here ↦
                let none_before : lane_of o before ≡ [] =
                  lane_of-nil o before (All-mono (λ x n. ground arith) before h) in
                ground arith
            | no there ↦ ground arith
          ])))

  lane_of-erase :
      (o p : ℕ) (x : T) (old new rest : List T)
      → (o ≡ p → new ≡ rest)
      → old ≡ (if o == p then x ∷ new else new)
      → new ≡ (if o == p then rest else old)
  lane_of-erase o p x old new rest h e = elim (ℕ_discrete o p) [
    | yes here ↦ rw (here, ==_refl p) (h here)
    | no there ↦ rw (==_ne o p there) (sym (rw (==_ne o p there) at e))
  ]

  -- Seen as lanes, dequeue on any queue returns nothing exactly from empty lanes, which it leaves
  -- empty, or takes the oldest item of the highest lane that holds one and leaves every other lane
  -- as it is.
  pub dequeue-Take :
      (q : BoundedQueue T) → Take (λ p. lane p q) (λ p. lane p (dequeue q).1) (dequeue q).0
  unfolding dequeue
  dequeue-Take q = elim (best_index-Best q.entries) [
    | inl (nothing, e) ↦ rw (e, dequeue) (empty refl (λ p. rw nothing) (λ p. rw nothing))
    | inr (i, e, b) ↦
        let lanes = λ (o : ℕ).
          lane_of-Splits o q.entries i b.before b.entry b.after b.splits
            (All-mono (λ x lt. ground arith) b.before b.above) in
        rw (e, dequeue)
          (oldest b.entry.priority b.entry.item (ground (arith, b.splits.found))
            (ground (arith, lanes b.entry.priority))
            (λ h lt. rw (b.splits.whole) (
              lane_of-nil h (b.before ++ b.entry ∷ b.after) (
                All-append _ b.before (b.entry ∷ b.after)
                  (All-mono (λ x k. ground arith) b.before b.above)
                  (ground arith, All-mono (λ x k. ground arith) b.after b.at_least))))
            (λ o ne. ground (arith, lanes o)))
  ]

  -- Seen as one first-in first-out lane for each priority, enqueue on any queue with room appends
  -- the item to its lane; on a full queue it drops the oldest item of the lowest lane that holds
  -- one and appends, or, when that lane is above the item's own or no lane holds anything, refuses
  -- and changes no lane; the returned result says which.
  pub enqueue-Offer :
      (priority_of : T → ℕ) (q : BoundedQueue T) (x : T)
      → Offer
          (leb q.capacity (length q.entries))
          (priority_of x)
          x
          (λ p. lane p q)
          (λ p. lane p (enqueue priority_of q x).0)
          (enqueue priority_of q x).1
  unfolding enqueue
  enqueue-Offer priority_of q x = elim (Bool-cases (ltb (length q.entries) q.capacity)) [
    | inl free ↦
        rw (free, enqueue)
          (room (ground arith) refl (rw (lane_of-push _ q.entries _) (ground arith)) (λ o ne.
            rw (lane_of-push o q.entries _) (ground (arith, append-nil (lane_of o q.entries)))))
    | inr full ↦ elim (eviction_index-cases q.entries (priority_of x)) [
      | inl (e, higher) ↦
          rw (full, e, enqueue)
            (refused (ground arith) refl
              (λ o le. lane_of-nil o q.entries (All-mono (λ y h. ground arith) q.entries higher))
              (λ o. refl))
      | inr (i, v, e, le, low) ↦
          let lanes = λ (o : ℕ).
            lane_of-Splits o q.entries i low.before v low.after low.splits
              (All-mono (λ y h. ground (arith, low.seen)) low.before low.above) in
          rw (full, e, enqueue)
            (replaced v.priority v.item (lane_of v.priority (erase_idx q.entries i)) (ground arith)
              (ground (arith, low.splits.found)) le (ground (arith, lanes v.priority))
              (λ o lt. rw (low.splits.whole) (
                lane_of-nil o (low.before ++ v ∷ low.after) (
                  All-append _ low.before (v ∷ low.after)
                    (All-mono (λ y k. ground (arith, low.seen)) low.before low.above)
                    (
                      ground arith,
                      All-mono (λ y k. ground (arith, low.seen)) low.after low.at_least,
                    ))))
              (λ o. rw (lane_of-push o (erase_idx q.entries i) _) (
                ap (λ l. l ++ (if o == priority_of x then x ∷ [] else []))
                  (lane_of-erase o v.priority v.item (lane o q) (lane_of o (erase_idx q.entries i))
                    (lane_of v.priority (erase_idx q.entries i))
                    (λ p. ap (λ k. lane_of k (erase_idx q.entries i)) p) (lanes o)))))
    ]
  ]
