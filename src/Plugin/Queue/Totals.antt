-- ===== src/Plugin/Queue/Totals.antt =====
-- What queue.ts keeps, gives out and drops, counted: for every weight of the items, the sum over
-- the entries. The queue neither loses nor doubles an item beyond what its results say.
use opencode_notify_hub.Shared.{
  ℕ, ◌+◌, ◌≡◌, ap, inl, inr, Option, none, some, List, [], ◌∷◌, ◌++◌, arith, ltb, if◌then◌else◌,
  Bool-cases, length,
}
use opencode_notify_hub.Plugin.Queue.{
  item_at, Entry, BoundedQueue, EnqueueResult, erase_idx, enqueue, dequeue,
}
use opencode_notify_hub.Plugin.Queue.Scans.{Splits, best_index-Best, eviction_index-cases}

module _ {ℓ} {T : Type ℓ} (w : T → ℕ) where
  abbrev pub total : List (Entry T) → ℕ
  total [] = 0
  total (e ∷ es) = w e.item + total es

  abbrev pub total_option : Option T → ℕ
  total_option none = 0
  total_option (some x) = w x

  total-append : (xs ys : List (Entry T)) → total (xs ++ ys) ≡ total xs + total ys
  total-append [] ys = omega arith
  total-append (x ∷ xs) ys = omega (arith, total-append xs ys)

  total-Splits :
      (es : List (Entry T)) (i : ℕ) (before : List (Entry T)) (e : Entry T) (after : List (Entry T))
      → Splits es i before e after
      → total es ≡ w e.item + total (erase_idx es i)
  total-Splits es i before e after s =
      rw (s.without) (
        omega (arith, ap total s.whole, total-append before (e ∷ after), total-append before after))

  total-item :
      (es : List (Entry T)) (i : ℕ) (before : List (Entry T)) (e : Entry T) (after : List (Entry T))
      → Splits es i before e after
      → total_option (item_at es i) ≡ w e.item
  total-item es i before e after s = ground (arith, s.found)

  pub dequeue-total :
      (q : BoundedQueue T)
      → total q.entries ≡ total_option (dequeue q).0 + total (dequeue q).1.entries
  unfolding dequeue
  dequeue-total q = elim (best_index-Best q.entries) [
    | inl (nothing, e) ↦ rw (e, dequeue) (omega arith)
    | inr (i, e, b) ↦
        rw (e, dequeue)
          (omega (
            arith,
            total-Splits q.entries i b.before b.entry b.after b.splits,
            total-item q.entries i b.before b.entry b.after b.splits,
          ))
  ]

  -- A refused item is the caller's again.
  abbrev pub total_result : T → EnqueueResult T → ℕ
  total_result x r = total_option r.evicted + (if r.accepted then 0 else w x)

  pub enqueue-total :
      (priority_of : T → ℕ) (q : BoundedQueue T) (x : T)
      → w x + total q.entries
        ≡ total_result x (enqueue priority_of q x).1 + total (enqueue priority_of q x).0.entries
  unfolding enqueue
  enqueue-total priority_of q x = elim (Bool-cases (ltb (length q.entries) q.capacity)) [
    | inl free ↦ rw (free, enqueue) (omega (arith, total-append q.entries))
    | inr full ↦ elim (eviction_index-cases q.entries (priority_of x)) [
      | inl (e, higher) ↦ rw (full, e, enqueue) (omega arith)
      | inr (i, victim, e, le, low) ↦
          rw (full, e, enqueue)
            (omega (
              arith,
              total-item q.entries i low.before victim low.after low.splits,
              total-append (erase_idx q.entries i),
              total-Splits q.entries i low.before victim low.after low.splits,
            ))
    ]
  ]
