-- ===== src/Gateway/Dedupe/Flights.antt =====
-- The calls of dedupe.ts that are under way, over any order of calls and settlements.
use opencode_notify_hub.Shared.{
  ℕ, suc, ◌+◌, String, ◌≡◌, refl, ite, Option, none, some, List, [], ◌∷◌, ◌++◌, arith,
  if◌then◌else◌, String-discrete,
}
use opencode_notify_hub.Shared.OrdMap.{get, delete, get-set, get-delete}
use opencode_notify_hub.Gateway.Dedupe.{
  EventDedupe, Begun, duplicate, waits, owns, begin, commit, succeed, fail, is_live,
}

-- How many running calls own a dispatch of the key.
unfoldable pub running : String → List String → ℕ
running key [] = 0
running key (k ∷ ks) = ite (String-discrete k key) (suc (running key ks)) (running key ks)

abbrev owners_after : String → Begun → List String → List String
owners_after key duplicate ks = ks
owners_after key waits ks = ks
owners_after key owns ks = key ∷ ks

-- The states that calls lead to, with the keys of the calls whose own dispatch is under way.
pub data Calls (start : EventDedupe) : EventDedupe → List String → Type 0 where
  none_yet : Calls start start []
  begins :
      {d : EventDedupe} {ks : List String} (now : ℕ) (key : String)
      → Calls start d ks
      → Calls start (begin now key d).0 (owners_after key (begin now key d).1 ks)
  succeeds :
      {d : EventDedupe} (now : ℕ) (key : String) (before after : List String)
      → Calls start d (before ++ key ∷ after)
      → Calls start (succeed now key d) (before ++ after)
  fails :
      {d : EventDedupe} (key : String) (before after : List String)
      → Calls start d (before ++ key ∷ after)
      → Calls start (fail key d) (before ++ after)

running-append :
    (key : String) (xs ys : List String) → running key (xs ++ ys) ≡ running key xs + running key ys
unfolding running
running-append key [] ys = omega arith
running-append key (x ∷ xs) ys = ground (arith, running-append key xs ys)

abbrev pub flag : Option (Unit {0}) → ℕ
flag none = 0
flag (some _) = 1

abbrev Single : EventDedupe → List String → Type 0
Single d ks = (key : String) → running key ks ≡ flag (get key d.in_flight)

begin-Single :
    (now : ℕ) (key : String) (d : EventDedupe) (ks : List String)
    → Single d ks
    → Single (begin now key d).0 (owners_after key (begin now key d).1 ks)
unfolding begin running
begin-Single now key d ks h k = ground (arith, h k, h key, get-set k key tt d.in_flight)

settle-Single :
    (key : String) (d : EventDedupe) (before after : List String)
    → Single d (before ++ key ∷ after)
    → (k : String) → running k (before ++ after) ≡ flag (get k (delete key d.in_flight))
unfolding running
settle-Single key d before after h k = ground (
  arith,
  h k,
  h key,
  get-delete k key d.in_flight,
  running-append k before (key ∷ after),
  running-append k before after,
)

succeed-in_flight :
    (now : ℕ) (key : String) (d : EventDedupe)
    → (succeed now key d).in_flight ≡ delete key d.in_flight
unfolding succeed commit
succeed-in_flight now key d = refl

fail-in_flight : (key : String) (d : EventDedupe) → (fail key d).in_flight ≡ delete key d.in_flight
unfolding fail
fail-in_flight key d = refl

Calls-Single :
    (start d : EventDedupe) (ks : List String)
    → start.in_flight ≡ []
    → Calls start d ks
    → Single d ks
unfolding running get
Calls-Single start d ks h none_yet = λ k. ground arith
Calls-Single start _ _ h (begins {d} {ks} now key c) =
    begin-Single now key d ks (Calls-Single start d ks h c)
Calls-Single start _ _ h (succeeds {d} now key before after c) = λ k.
    rw (succeed-in_flight now key d)
      (settle-Single key d before after (Calls-Single start d _ h c) k)
Calls-Single start _ _ h (fails {d} key before after c) =
    λ k. rw (fail-in_flight key d) (settle-Single key d before after (Calls-Single start d _ h c) k)

-- Single flight: from a dedupe with nothing in flight, over any order of calls beginning,
-- succeeding and failing, a key has one running dispatch if it is marked in flight and none if it
-- is not.
pub running-in_flight :
    (start d : EventDedupe) (ks : List String) (key : String)
    → start.in_flight ≡ []
    → Calls start d ks
    → running key ks ≡ flag (get key d.in_flight)
running-in_flight start d ks key h c = Calls-Single start d ks h c key

-- After a failed dispatch nothing is committed, and the next call for the key is a duplicate if an
-- earlier entry of the key is still live and owns a new dispatch if not.
pub begin-fail :
    (now : ℕ) (key : String) (d : EventDedupe)
    → ((fail key d).committed ≡ d.committed)
      × ((begin now key (fail key d)).1
          ≡ (if is_live now (get key d.committed) then duplicate else owns))
unfolding begin fail
begin-fail now key d = (refl, ground (arith, get-delete key key d.in_flight))
