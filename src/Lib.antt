-- ===== src/Lib.antt =====
-- opencode-notify-hub: a notification path from OpenCode to a user's devices. A plugin in OpenCode
-- turns session events into notifications and delivers them, signed, to a gateway, which removes
-- duplicates and fans them out over sockets and push.
--
-- Parts, the file of each here, and the source (paths from the repository's root):
--   Plugin/Machine    packages/plugin/src/state-machine.ts   busy/idle rounds of each session
--   Plugin/Messages   packages/plugin/src/message-cache.ts   the latest assistant text
--   Plugin/Queue      packages/plugin/src/queue.ts           the bounded priority queue
--   Plugin/Pump       packages/plugin/src/pump.ts            the delivery loop over the queue
--   Gateway/Dedupe    apps/gateway/src/lib/dedupe.ts         single-flight deduplication
--   Plugin/Ancestry   packages/plugin/src/session-registry.ts  which sessions are top-level
--   Gateway/Limiter   apps/gateway/src/modules/events/events.routes.ts  the limit of a verified key
--   Gateway/Connections  apps/gateway/src/modules/realtime/connection-registry.ts  open sockets
--   Plugin/Sender     packages/plugin/src/sender.ts            the retries of a delivery
--   Gateway/Shutdown  apps/gateway/src/shutdown.ts             the drain and the exit
--   Gateway/Instances  apps/gateway/src/modules/control/instance-registry.ts
--                     the plugins' control sockets: instances, commands, snapshots, tunnels
--   Gateway/Payload   apps/gateway/src/modules/fcm/payload.ts  the content of a push, within its budget
--   Gateway/Dispatch  apps/gateway/src/modules/events/dispatcher.ts  the fanout to the devices
--   Gateway/Ingress   apps/gateway/src/modules/events/ingest-auth.ts  who may post an event
-- The machine's callbacks hand notifications to the pump, which queues them and sends one at a
-- time; a summary comes from the message cache. On the gateway an event passes the dedupe, whose
-- owner dispatches it.
--
-- How code corresponds to definitions. A class is a record of its fields, a method a function from
-- the record, under the source's name in lower case with underscores (onTerminalSignal is
-- on_terminal_signal); QueuePump.enqueue is `offer`, since the queue has an `enqueue` of its own. A
-- JavaScript Map is a list of key and value in insertion order (Shared/OrdMap). An async method is
-- cut at its awaits: each piece is a function, and a step relation says which piece may run next
-- (Plugin/Pump/Steps, Gateway/Dedupe/Flights). Promises are values of a data type, such as
-- `sending e`. Time, the outcome of a send, and which timer fires next are arguments, so that a
-- theorem holds for any of them. Timers are a table from handles to callbacks.
--
-- Fuel: the recursion of `disconnect` in Gateway/Instances takes the number of connections, since each
-- round drops one (Instances/Fuel); the loop of Gateway/Payload takes nine passes, since the caps are at
-- their floor then (Payload/Passes). Every other loop is structural on the list that it scans or
-- shortens, or on the attempts that are left. `advance_n` of Plugin/Pump/Completion repeats a
-- step a given number of times, and its theorem takes any number from `steps_left` on.
--
-- Parameters: the digest of a provider action (SHA-256 of a JSON text), which code points are white
-- space, trimming and lower case, JSON and its bytes, node:path, the HMAC of a request, the store of
-- ingest keys, what a socket's state is when it is read, and what fetch, FCM and the device store give.
-- The store of keys and the device store are the repository's own and may answer anything; the rest is
-- platform or third-party code. No law of them is used.
--
-- Numbers are natural numbers: clocks and counters of the source are whole and do not reach 2^53.
--
-- Objects of the instance registry are told apart by numbers: a connection by its uid. Its handlers run
-- to their end one after the other (Instances/Steps). Frames may come late, on a connection that is
-- already dropped, but for one: the first registration of a connection comes while the registry holds
-- it. Tests/Instances has a run where it does not, which leaves a controllable record without an owner
-- that can drop it.
--
-- Not modelled: callbacks that call back into the session machine while it runs; texts below their
-- code points; of the sender the signature, the jitter and the redaction of error texts; of the event
-- ingress the handler that answers the request; of the instance registry the decoding of frames and the
-- renewal of a client's authentication; the other routes, the database, authentication of users, the
-- FCM transport, the plugin's end of the control channel, and the client.
mod Shared
pub mod Plugin
pub mod Gateway
mod Tests
