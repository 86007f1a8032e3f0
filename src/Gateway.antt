-- ===== src/Gateway.antt =====
-- apps/gateway: the self-hosted gateway, which authenticates and fans out events.
pub mod Connections
pub mod Dedupe
pub mod Dispatch
pub mod Ingress
pub mod Instances
pub mod Limiter
pub mod Payload
pub mod Shutdown
