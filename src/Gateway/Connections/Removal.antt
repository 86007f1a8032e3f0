-- ===== src/Gateway/Connections/Removal.antt =====
-- What a removal from connection-registry.ts leaves.
use opencode_notify_hub.Shared.{
  ℕ, String, ◌≡◌, refl, inl, inr, ite, true, false, List, [], ◌∷◌, arith, or_else, Bool-cases,
  String-discrete, ==_refl, All, All-mono,
}
use opencode_notify_hub.Shared.OrdMap.{get, get-set, get-delete}
use opencode_notify_hub.Gateway.Connections.{
  Connection, ConnectionRegistry, members, has, others, store, remove,
}

others-has : (id : ℕ) (cs : List Connection) → has id cs ≡ false → others id cs ≡ cs
others-has id [] h = refl
others-has id (c ∷ cs) h = ground (arith, others-has id cs)

members-store :
    (j user_id : String) (cs : List Connection) (r : ConnectionRegistry)
    → or_else (get j (store user_id cs r.by_user)) []
      ≡ ite (String-discrete user_id j) cs (members j r)
members-store j user_id [] r = ground (arith, get-delete j user_id r.by_user)
members-store j user_id (c ∷ cs) r = ground (arith, get-set j user_id (c ∷ cs) r.by_user)

-- The set of every user after a removal: the connection is gone from its own user's.
pub members-remove :
    (j user_id : String) (id : ℕ) (r : ConnectionRegistry)
    → members j (remove user_id id r)
      ≡ ite (String-discrete user_id j) (others id (members user_id r)) (members j r)
unfolding remove
members-remove j user_id id r = elim (Bool-cases (has id (members user_id r))) [
  | inl found ↦ rw (found, remove) (members-store j user_id (others id (members user_id r)) r)
  | inr absent ↦ rw (absent, remove) (ground (arith, others-has id (members user_id r) absent))
]

has-cons :
    (y : Connection) (ys m : List Connection)
    → All (λ x. has x.id ys ≡ true) m
    → All (λ x. has x.id (y ∷ ys) ≡ true) m
has-cons y ys m = All-mono (λ x h. ground arith) m

pub has-All : (m : List Connection) → All (λ x. has x.id m ≡ true) m
has-All [] = tt
has-All (x ∷ m) = (ground (arith, ==_refl x.id), has-cons x m m (has-All m))

pub calls-remove :
    (user_id : String) (id : ℕ) (r : ConnectionRegistry) → (remove user_id id r).calls ≡ r.calls
unfolding remove
calls-remove user_id id r = ground arith
