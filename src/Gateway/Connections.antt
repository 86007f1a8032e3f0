-- ===== src/Gateway/Connections.antt =====
-- apps/gateway/src/modules/realtime/connection-registry.ts: the open sockets of each user. A
-- connection object is its identity and its `alive` flag; a socket is what the registry reads of it
-- (`Sockets`, the platform's) and the calls it gets, the latest first. The interval and the timeout
-- of a connection are lists of the connections for which they run.
pub mod Removal
pub mod Fanout
pub mod Closing
use opencode_notify_hub.Shared.{
  ℕ, ◌+◌, ◌-◌, ◌*◌, min, String, Bool, true, false, not, none, some, List, [], ◌∷◌, ◌++◌, ltb, ◌==◌,
  if◌then◌else◌, or_else, length, keep,
}
use opencode_notify_hub.Shared.OrdMap.{OrdMap, get, set, delete, keys}

abbrev pub ws_max_buffered_bytes : ℕ
ws_max_buffered_bytes = 1024 * 1024

abbrev pub ws_close_token_expired : ℕ
ws_close_token_expired = 4401

abbrev pub ws_close_server_shutdown : ℕ
ws_close_server_shutdown = 1012

pub record Connection : Type 0 where
  pub id : ℕ
  pub alive : Bool

-- What the registry reads of a socket when it is about to use it, and whether `send` throws.
pub record Sockets : Type 0 where
  pub is_open : ℕ → Bool
  pub buffered_amount : ℕ → ℕ
  pub throws : ℕ → Bool

pub data SocketCall : Type 0 where
  sends : ℕ → String → SocketCall
  pings terminates : ℕ → SocketCall
  closes : ℕ → ℕ → String → SocketCall

pub record ConnectionRegistry : Type 0 where
  pub by_user : OrdMap (List Connection)
  pub heartbeats : List ℕ
  pub expiries : List ℕ
  pub calls : List SocketCall

abbrev pub call : SocketCall → ConnectionRegistry → ConnectionRegistry
call c r = record r { calls = c ∷ r.calls }

-- The set of a user, empty if there is none.
abbrev pub members : String → ConnectionRegistry → List Connection
members user_id r = or_else (get user_id r.by_user) []

abbrev pub has : ℕ → List Connection → Bool
has id [] = false
has id (c ∷ cs) = if c.id == id then true else has id cs

abbrev pub others : ℕ → List Connection → List Connection
others id cs = keep (λ c. not (c.id == id)) cs

-- `sockets.size === 0` deletes the user.
abbrev pub store : String → List Connection → OrdMap (List Connection) → OrdMap (List Connection)
store user_id [] m = delete user_id m
store user_id (c ∷ cs) m = set user_id (c ∷ cs) m

unfoldable pub remove : String → ℕ → ConnectionRegistry → ConnectionRegistry
remove user_id id r =
    if has id (members user_id r)
    then record r {
      by_user = store user_id (others id (members user_id r)) r.by_user;
      heartbeats = keep (λ h. not (h == id)) r.heartbeats;
      expiries = keep (λ h. not (h == id)) r.expiries;
    }
    else r

-- A new connection object, with both its timers.
unfoldable pub add : String → ℕ → ConnectionRegistry → ConnectionRegistry
add user_id id r = record r {
  by_user = set user_id (members user_id r ++ record { id = id; alive = true } ∷ []) r.by_user;
  heartbeats = id ∷ r.heartbeats;
  expiries = id ∷ r.expiries;
}

-- The delay of the expiry timer.
unfoldable pub expiry_delay : ℕ → ℕ → ℕ
expiry_delay expires_at_ms now = min (expires_at_ms - now) 2147483647

abbrev pub set_alive : ℕ → Bool → List Connection → List Connection
set_alive id alive [] = []
set_alive id alive (c ∷ cs) =
    (if c.id == id then record c { alive = alive } else c) ∷ set_alive id alive cs

unfoldable pub write_alive : String → ℕ → Bool → ConnectionRegistry → ConnectionRegistry
write_alive user_id id alive r = elim (get user_id r.by_user) [
  | none ↦ r
  | some cs ↦ record r { by_user = set user_id (set_alive id alive cs) r.by_user }
]

-- `markAlive`, on a pong or ping of the peer.
unfoldable pub mark_alive : String → ℕ → ConnectionRegistry → ConnectionRegistry
unfolding write_alive
mark_alive user_id id r = write_alive user_id id true r

abbrev pub is_alive : ℕ → List Connection → Bool
is_alive id [] = false
is_alive id (c ∷ cs) = if c.id == id then c.alive else is_alive id cs

-- The callback of the heartbeat interval.
unfoldable pub heartbeat_tick : Sockets → String → ℕ → ConnectionRegistry → ConnectionRegistry
unfolding remove write_alive
heartbeat_tick s user_id id r =
    if not (s.is_open id)
    then remove user_id id r
    else if not (is_alive id (members user_id r))
    then call (terminates id) (remove user_id id r)
    else call (pings id) (write_alive user_id id false r)

-- The callback of the expiry timeout.
unfoldable pub expire : String → ℕ → ConnectionRegistry → ConnectionRegistry
unfolding remove
expire user_id id r =
    call (closes id ws_close_token_expired "access token expired") (remove user_id id r)

-- One socket of the fanout.
unfoldable pub send_one : Sockets → String → String → ℕ → ConnectionRegistry → ConnectionRegistry
unfolding remove
send_one s user_id payload id r =
    if not (s.is_open id)
    then remove user_id id r
    else if ltb ws_max_buffered_bytes (s.buffered_amount id)
    then call (terminates id) (remove user_id id r)
    else if s.throws id
    then remove user_id id r
    else call (sends id payload) r

unfoldable pub send_each :
    Sockets → String → String → List Connection → ConnectionRegistry → ConnectionRegistry
send_each s user_id payload [] r = r
send_each s user_id payload (c ∷ cs) r =
    send_each s user_id payload cs (send_one s user_id payload c.id r)

-- `send` and `dispatch`, with the serialized message.
unfoldable pub send : Sockets → String → String → ConnectionRegistry → ConnectionRegistry
unfolding send_each send_one
send s user_id payload r = elim (get user_id r.by_user) [
  | none ↦ r
  | some cs ↦ send_each s user_id payload cs r
]

unfoldable pub close_each :
    ℕ → String → String → List Connection → ConnectionRegistry → ConnectionRegistry
unfolding remove
close_each code reason user_id [] r = r
close_each code reason user_id (c ∷ cs) r =
    close_each code reason user_id cs (call (closes c.id code reason) (remove user_id c.id r))

unfoldable pub close_users :
    ℕ → String → OrdMap (List Connection) → ConnectionRegistry → ConnectionRegistry
unfolding close_each
close_users code reason [] r = r
close_users code reason ((user_id, cs) ∷ m) r =
    close_users code reason m (close_each code reason user_id cs r)

-- `closeAll`: the map is walked while users leave it, which skips none of the others.
unfoldable pub close_all : ℕ → String → ConnectionRegistry → ConnectionRegistry
unfolding close_users
close_all code reason r = close_users code reason r.by_user r

abbrev pub user_ids : ConnectionRegistry → List String
user_ids r = keys r.by_user

unfoldable pub count_user : String → ConnectionRegistry → ℕ
count_user user_id r = length (members user_id r)

abbrev pub total : OrdMap (List Connection) → ℕ
total [] = 0
total ((user_id, cs) ∷ m) = length cs + total m

unfoldable pub count : ConnectionRegistry → ℕ
count r = total r.by_user
