-- ===== src/Gateway/Dedupe/Committed.antt =====
-- What a commit of dedupe.ts keeps and what it evicts.
use opencode_notify_hub.Shared.{
  ℕ, suc, ◌+◌, ◌≤◌, ◌<◌, String, ◌≡◌, refl, ap, ◌≢◌, ◌⊎◌, inl, inr, none, some, [], ◌∷◌, ◌++◌,
  arith, ltb, if_either, Bool-cases, Option-cases, length-snoc, keep-append,
}
use opencode_notify_hub.Shared.OrdMap.{
  OrdMap, get, delete, size, set-delete, get-append, get-delete,
}
use opencode_notify_hub.Gateway.Dedupe.{
  EventDedupe, Begun, is_live, fail, duplicate, begin, evict_expired, evict_oldest, commit, succeed,
}
use opencode_notify_hub.Gateway.Dedupe.Maps.{
  size-evict_oldest-le, evict_oldest_fits, get-evict_oldest_last, get-evict_expired,
}

-- A commit leaves at most the maximum number of entries.
pub size-commit-le :
    (now : ℕ) (key : String) (d : EventDedupe) → size (commit now key d).committed ≤ d.max_size
unfolding commit
size-commit-le now key d = size-evict_oldest-le d.max_size _

evict_expired_last :
    (now v : ℕ) (k : String) (m : OrdMap ℕ)
    → now < v
    → evict_expired now (m ++ (k, v) ∷ []) ≡ evict_expired now m ++ (k, v) ∷ []
unfolding evict_expired
evict_expired_last now v k m lt = rw (keep-append _ m ((k, v) ∷ [])) (ground arith)

get-evict_expired-none :
    (now : ℕ) (k : String) (m : OrdMap ℕ) → get k m ≡ none → get k (evict_expired now m) ≡ none
unfolding get evict_expired
get-evict_expired-none now k [] h = refl
get-evict_expired-none now k ((i, w) ∷ m) h = ground (arith, get-evict_expired-none now k m)

get-delete_self : (k : String) (m : OrdMap ℕ) → get k (delete k m) ≡ none
get-delete_self k m = ground (arith, get-delete k k m)

module _ (now : ℕ) (key : String) (d : EventDedupe) (lasts : 0 < d.ttl_ms) where
  -- The entries that a commit chooses from, the new one last.
  abbrev Committed : OrdMap ℕ → Type 0
  Committed m =
      (commit now key d).committed ≡ evict_oldest d.max_size (m ++ (key, now + d.ttl_ms) ∷ [])

  -- Either all fit, or the expired ones go first.
  commit-cases :
      ((size (delete key d.committed) < d.max_size) × Committed (delete key d.committed))
      ⊎ ((d.max_size ≤ size (delete key d.committed))
          × Committed (evict_expired now (delete key d.committed)))
  unfolding commit
  commit-cases = elim (Bool-cases (ltb d.max_size (suc (size (delete key d.committed))))) [
    | inl full ↦ inr (
      ground arith,
      rw
          (
            set-delete key (now + d.ttl_ms) d.committed,
            length-snoc (delete key d.committed) (key, now + d.ttl_ms),
            full,
          )
          (ap (evict_oldest d.max_size)
            (evict_expired_last now (now + d.ttl_ms) key (delete key d.committed) (omega arith))),
    )
    | inr room ↦ inl (
      ground arith,
      rw
          (
            set-delete key (now + d.ttl_ms) d.committed,
            length-snoc (delete key d.committed) (key, now + d.ttl_ms),
            room,
          )
          refl,
    )
  ]

  get-commit : 0 < d.max_size → get key (commit now key d).committed ≡ some (now + d.ttl_ms)
  get-commit room = elim commit-cases [
    | inl (fits, e) ↦
        rw e (get-evict_oldest_last d.max_size _ key _ room (get-delete_self key d.committed))
    | inr (full, e) ↦ rw e (
        get-evict_oldest_last d.max_size _ key _ room
          (get-evict_expired-none now key _ (get-delete_self key d.committed)))
  ]

  fits_with :
      (m : OrdMap ℕ)
      → size m < d.max_size
      → evict_oldest d.max_size (m ++ (key, now + d.ttl_ms) ∷ []) ≡ m ++ (key, now + d.ttl_ms) ∷ []
  fits_with m h =
      evict_oldest_fits d.max_size (m ++ (key, now + d.ttl_ms) ∷ [])
        (omega (arith, length-snoc m (key, now + d.ttl_ms)))

  -- With a positive window, a commit keeps a committed entry of another key that is live, as long
  -- as the live entries and the new one fit within the maximum.
  pub get-commit_live :
      (j : String) (v : ℕ)
      → j ≢ key
      → get j d.committed ≡ some v
      → now < v
      → size (evict_expired now (delete key d.committed)) < d.max_size
      → get j (commit now key d).committed ≡ some v
  get-commit_live j v other found live fits =
      let before : get j (delete key d.committed) ≡ some v =
        ground (arith, get-delete j key d.committed) in
      elim commit-cases [
        | inl (room, e) ↦
            rw (e, fits_with (delete key d.committed) room)
              (ground (arith, get-append j (delete key d.committed) ((key, now + d.ttl_ms) ∷ [])))
        | inr (full, e) ↦
            rw (e, fits_with (evict_expired now (delete key d.committed)) fits)
              (ground (
                arith,
                get-evict_expired now j v (delete key d.committed) before live,
                get-append j (evict_expired now (delete key d.committed))
                    ((key, now + d.ttl_ms) ∷ []),
              ))
      ]

-- The states that calls of any keys lead to while the stamp of one key lasts. Each dispatch of another
-- key that succeeds on the way finds room for its entry among the entries that are live.
pub data Since (key : String) (expires_at : ℕ) (start : EventDedupe) : EventDedupe → Type 0 where
  at_once : Since key expires_at start start
  begins :
      {d : EventDedupe} (now : ℕ) (j : String)
      → Since key expires_at start d
      → Since key expires_at start (begin now j d).0
  fails :
      {d : EventDedupe} (j : String)
      → Since key expires_at start d
      → Since key expires_at start (fail j d)
  succeeds :
      {d : EventDedupe} (now : ℕ) (j : String)
      → Since key expires_at start d
      → key ≢ j
      → now < expires_at
      → size (evict_expired now (delete j d.committed)) < d.max_size
      → Since key expires_at start (succeed now j d)

record Stamped (key : String) (expires_at : ℕ) (d : EventDedupe) : Type 0 where
  stamp : get key d.committed ≡ some expires_at
  lasts : 0 < d.ttl_ms

module _ (key : String) (v : ℕ) where
  begin-Stamped :
      (now : ℕ) (j : String) (d : EventDedupe) → Stamped key v d → Stamped key v (begin now j d).0
  unfolding begin
  begin-Stamped now j d h =
      if_either (λ (x : EventDedupe × Begun). Stamped key v x.0) (is_live now (get j d.committed)) _
        _ h
        (elim (Option-cases (get j d.in_flight)) [
          | inl free ↦ rw free (record { stamp = h.stamp; lasts = h.lasts })
          | inr (_, busy) ↦ rw busy h
        ])

  Since-Stamped :
      (start d : EventDedupe) → Since key v start d → Stamped key v start → Stamped key v d
  unfolding succeed fail commit
  Since-Stamped start d at_once h = h
  Since-Stamped start d (begins now j run) h = begin-Stamped now j _ (Since-Stamped start _ run h)
  Since-Stamped start d (fails j run) h =
      let before = Since-Stamped start _ run h in
      record { stamp = before.stamp; lasts = before.lasts }
  Since-Stamped start d (succeeds {d = d'} now j run other soon room) h =
      let before = Since-Stamped start d' run h in
      record {
        stamp =
            get-commit_live now j (record d' { in_flight = delete j d'.in_flight }) before.lasts key
              v other before.stamp soon room;
        lasts = before.lasts;
      }

-- With a positive window and maximum size, once the dispatch of a key has succeeded, a call for
-- that key inside the window is a duplicate at once and changes nothing, whichever calls of any
-- keys begin, fail or succeed in between, as long as the dispatches of other keys that succeed do
-- so inside the window and each finds fewer live entries than the maximum size when it commits.
pub begin-succeed :
    (now later : ℕ) (key : String) (d d' : EventDedupe)
    → 0 < d.ttl_ms
    → 0 < d.max_size
    → Since key (now + d.ttl_ms) (succeed now key d) d'
    → later < now + d.ttl_ms
    → begin later key d' ≡ (d', duplicate)
unfolding begin succeed commit
begin-succeed now later key d d' lasts room run h =
    let stamped : Stamped key (now + d.ttl_ms) (succeed now key d) = record {
      stamp = get-commit now key (record d { in_flight = delete key d.in_flight }) lasts room;
      lasts = lasts;
    } in
    let still = (Since-Stamped key (now + d.ttl_ms) (succeed now key d) d' run stamped).stamp in
    rw still (ground arith)
