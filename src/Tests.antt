-- ===== src/Tests.antt =====
-- Runs of the model on concrete inputs, and instances of the theorems.
mod Queue
mod Payload
mod Pump
mod Connections
mod Dedupe
mod Machine
mod Messages
mod Ingress
mod Instances
mod Limiter
mod Ancestry
mod Sender
mod Shutdown
