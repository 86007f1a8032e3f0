-- ===== src/Tests/Connections.antt =====
-- apps/gateway/src/modules/realtime/connection-registry.ts: one user, two sockets of which one lags.
use opencode_notify_hub.Shared.{
  ◌≡◌, refl, true, false, [], ◌∷◌, ◌==◌, if◌then◌else◌, String-discrete,
}
use opencode_notify_hub.Shared.OrdMap.{get, set}
use opencode_notify_hub.Gateway.Connections.{
  Connection, ConnectionRegistry, Sockets, members, send, heartbeat_tick, mark_alive, has, sends,
  terminates, pings, send_each, send_one, remove,
}
use opencode_notify_hub.Gateway.Connections.Fanout.{members-send}
use opencode_notify_hub.Gateway.Connections.Closing.{heartbeat_tick-twice}

abbrev sockets : Sockets
sockets = record {
  is_open = λ id. true;
  buffered_amount = λ id. if id == 2 then 2000000 else 0;
  throws = λ id. false;
}

abbrev prompt : Connection
prompt = record { id = 1; alive = true }

abbrev lagging : Connection
lagging = record { id = 2; alive = true }

abbrev registry : ConnectionRegistry
registry = record {
  by_user = ("u", prompt ∷ lagging ∷ []) ∷ [];
  heartbeats = 1 ∷ 2 ∷ [];
  expiries = 1 ∷ 2 ∷ [];
  calls = [];
}

sent : send sockets "u" "m" registry ≡ record {
  by_user = ("u", prompt ∷ []) ∷ [];
  heartbeats = 1 ∷ [];
  expiries = 1 ∷ [];
  calls = terminates 2 ∷ sends 1 "m" ∷ [];
}
unfolding send send_each send_one remove get set String-discrete
sent = refl

members-send_example : members "u" (send sockets "u" "m" registry) ≡ prompt ∷ []
unfolding get String-discrete
members-send_example = members-send sockets "u" "m" "u" registry

heartbeat_tick-twice_example :
    (has 1 (members "u" (heartbeat_tick sockets "u" 1 (heartbeat_tick sockets "u" 1 registry)))
      ≡ false)
    × ((heartbeat_tick sockets "u" 1 (heartbeat_tick sockets "u" 1 registry)).calls
        ≡ terminates 1 ∷ pings 1 ∷ [])
    × (has 1 (
          members "u" (
            heartbeat_tick sockets "u" 1
              (mark_alive "u" 1 (heartbeat_tick sockets "u" 1 registry))))
        ≡ true)
unfolding get String-discrete
heartbeat_tick-twice_example = heartbeat_tick-twice sockets "u" 1 registry refl refl refl
