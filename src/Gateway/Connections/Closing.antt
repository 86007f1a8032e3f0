-- ===== src/Gateway/Connections/Closing.antt =====
-- How connection-registry.ts lets sockets go: at shutdown, and after a silent interval.
use opencode_notify_hub.Shared.{
  ℕ, String, ◌≡◌, refl, sym, ap, ◌∙◌, ◌≢◌, inl, inr, ite, Bool, true, false, List, [], ◌∷◌, arith,
  ℕ_discrete, or_else, Option-cases, String-discrete, ==_refl, ==_ne, All,
}
use opencode_notify_hub.Shared.OrdMap.{OrdMap, get, get-set}
use opencode_notify_hub.Gateway.Connections.{
  Connection, ConnectionRegistry, members, has, others, remove, close_each, close_users, close_all,
  call, closes, set_alive, write_alive, Sockets, is_alive, heartbeat_tick, terminates, mark_alive,
  pings,
}
use opencode_notify_hub.Gateway.Connections.Removal.{members-remove, has-All, calls-remove}

module _ (code : ℕ) (reason : String) where
  -- The set without the connections of `cs`.
  abbrev without : List Connection → List Connection → List Connection
  without [] m = m
  without (c ∷ cs) m = without cs (others c.id m)

  members-close_each :
      (j user_id : String) (cs : List Connection) (r : ConnectionRegistry)
      → members j (close_each code reason user_id cs r)
        ≡ ite (String-discrete user_id j) (without cs (members j r)) (members j r)
  unfolding close_each
  members-close_each j user_id [] r = ground arith
  members-close_each j user_id (c ∷ cs) r = ground (
    arith,
    members-close_each j user_id cs (call (closes c.id code reason) (remove user_id c.id r)),
    members-remove j user_id c.id r,
  )

  others_same :
      (x : Connection) (id : ℕ) (m : List Connection) → id ≡ x.id → others id (x ∷ m) ≡ others id m
  others_same x id m e = ground (arith, e, ==_refl x.id)

  others_else :
      (x : Connection) (id : ℕ) (m : List Connection)
      → id ≢ x.id
      → others id (x ∷ m) ≡ x ∷ others id m
  others_else x id m n = rw (==_ne x.id id (λ e. n (sym e))) refl

  without_cons :
      (x : Connection) (cs m : List Connection)
      → has x.id cs ≡ true
      → without cs (x ∷ m) ≡ without cs m
  without_cons x [] m h = ground arith
  without_cons x (c ∷ cs) m h = elim (ℕ_discrete c.id x.id) [
    | yes e ↦ ap (without cs) (others_same x c.id m e)
    | no n ↦
        ap (without cs) (others_else x c.id m n)
        ∙ without_cons x cs (others c.id m) (rw (==_ne c.id x.id n) at h)
  ]

  without_nil : (cs : List Connection) → without cs [] ≡ []
  without_nil [] = refl
  without_nil (c ∷ cs) = without_nil cs

  without-All : (cs m : List Connection) → All (λ x. has x.id cs ≡ true) m → without cs m ≡ []
  without-All cs [] h = without_nil cs
  without-All cs (x ∷ m) h = without_cons x cs m h.0 ∙ without-All cs m h.1

  stays_empty :
      (j : String) (m : OrdMap (List Connection)) (r : ConnectionRegistry)
      → members j r ≡ []
      → members j (close_users code reason m r) ≡ []
  unfolding close_users
  stays_empty j [] r h = h
  stays_empty j ((user_id, cs) ∷ m) r h =
      stays_empty j m (close_each code reason user_id cs r)
        (ground (arith, members-close_each j user_id cs r, without_nil cs))

  members-close_users :
      (j : String) (m : OrdMap (List Connection)) (r : ConnectionRegistry)
      → members j r ≡ or_else (get j m) []
      → members j (close_users code reason m r) ≡ []
  unfolding close_users get
  members-close_users j [] r h = h
  members-close_users j ((user_id, cs) ∷ m) r h = elim (String-discrete user_id j) [
    | yes same ↦
        stays_empty j m (close_each code reason user_id cs r)
          (ground (arith, members-close_each j user_id cs r, without-All cs cs (has-All cs)))
    | no other ↦
        members-close_users j m (close_each code reason user_id cs r)
          (ground (arith, members-close_each j user_id cs r))
  ]

  -- After closeAll, with any code and reason, no user has a registered connection.
  pub members-close_all :
      (j : String) (r : ConnectionRegistry) → members j (close_all code reason r) ≡ []
  unfolding close_all
  members-close_all j r = members-close_users j r.by_user r refl

has-set_alive : (id j : ℕ) (b : Bool) (cs : List Connection) → has j (set_alive id b cs) ≡ has j cs
has-set_alive id j b [] = refl
has-set_alive id j b (c ∷ cs) = ground (arith, has-set_alive id j b cs)

is_alive-set_alive :
    (id : ℕ) (b : Bool) (cs : List Connection)
    → has id cs ≡ true
    → is_alive id (set_alive id b cs) ≡ b
is_alive-set_alive id b [] h = ground arith
is_alive-set_alive id b (c ∷ cs) h = ground (arith, is_alive-set_alive id b cs)

calls-write_alive :
    (user_id : String) (id : ℕ) (b : Bool) (r : ConnectionRegistry)
    → (write_alive user_id id b r).calls ≡ r.calls
unfolding write_alive
calls-write_alive user_id id b r = ground arith

members-write_alive :
    (user_id : String) (id : ℕ) (b : Bool) (r : ConnectionRegistry)
    → members user_id (write_alive user_id id b r) ≡ set_alive id b (members user_id r)
unfolding write_alive
members-write_alive user_id id b r = elim (Option-cases (get user_id r.by_user)) [
  | inl absent ↦ rw (absent, write_alive) (rw absent refl)
  | inr (cs, found) ↦
      rw (found, write_alive)
        (ground (arith, get-set user_id user_id (set_alive id b cs) r.by_user))
]

has-others : (id : ℕ) (cs : List Connection) → has id (others id cs) ≡ false
has-others id [] = refl
has-others id (c ∷ cs) = ground (arith, has-others id cs)

module _ (s : Sockets) (user_id : String) (id : ℕ) where
  ticks_silent :
      (r : ConnectionRegistry)
      → s.is_open id ≡ true
      → is_alive id (members user_id r) ≡ false
      → heartbeat_tick s user_id id r ≡ call (terminates id) (remove user_id id r)
  unfolding heartbeat_tick
  ticks_silent r opened silent = rw (opened, silent, heartbeat_tick) refl

  ticks_alive :
      (r : ConnectionRegistry)
      → s.is_open id ≡ true
      → is_alive id (members user_id r) ≡ true
      → heartbeat_tick s user_id id r ≡ call (pings id) (write_alive user_id id false r)
  unfolding heartbeat_tick
  ticks_alive r opened alive = rw (opened, alive, heartbeat_tick) refl

  has-remove : (r : ConnectionRegistry) → has id (members user_id (remove user_id id r)) ≡ false
  has-remove r =
      ground (arith, members-remove user_id user_id id r, has-others id (members user_id r))

  has-write_alive :
      (b : Bool) (r : ConnectionRegistry)
      → has id (members user_id (write_alive user_id id b r)) ≡ has id (members user_id r)
  has-write_alive b r =
      rw (members-write_alive user_id id b r) (has-set_alive id id b (members user_id r))

  is_alive-write_alive :
      (b : Bool) (r : ConnectionRegistry)
      → has id (members user_id r) ≡ true
      → is_alive id (members user_id (write_alive user_id id b r)) ≡ b
  is_alive-write_alive b r h =
      rw (members-write_alive user_id id b r) (is_alive-set_alive id b (members user_id r) h)

  -- For a registered connection that is open and alive, a second heartbeat tick without a pong or
  -- ping of the peer since the first removes it, and the calls made are one ping and then one
  -- terminate; with one between, the connection stays registered.
  pub heartbeat_tick-twice :
      (r : ConnectionRegistry)
      → s.is_open id ≡ true
      → has id (members user_id r) ≡ true
      → is_alive id (members user_id r) ≡ true
      → (has id (members user_id (heartbeat_tick s user_id id (heartbeat_tick s user_id id r)))
          ≡ false)
        × ((heartbeat_tick s user_id id (heartbeat_tick s user_id id r)).calls
            ≡ terminates id ∷ pings id ∷ r.calls)
        × (has id (
              members user_id (
                heartbeat_tick s user_id id
                  (mark_alive user_id id (heartbeat_tick s user_id id r))))
            ≡ true)
  unfolding mark_alive
  heartbeat_tick-twice r opened here alive =
      let pinged = write_alive user_id id false r in
      let known : has id (members user_id pinged) ≡ true =
        ground (arith, has-write_alive false r) in
      let answered = write_alive user_id id true (call (pings id) pinged) in
      rw (ticks_alive r opened alive) (
        rw
          (
            ticks_silent (call (pings id) pinged) opened (is_alive-write_alive false r here),
            ticks_alive answered opened (is_alive-write_alive true (call (pings id) pinged) known),
          )
          (
            has-remove (call (pings id) pinged),
            ap (λ cs. terminates id ∷ cs)
                (calls-remove user_id id (call (pings id) pinged)
                  ∙ ap (λ cs. pings id ∷ cs) (calls-write_alive user_id id false r)),
            ground (
              arith,
              has-write_alive false answered,
              has-write_alive true (call (pings id) pinged),
            ),
          ))
