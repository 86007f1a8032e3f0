-- ===== src/Gateway/Instances.antt =====
-- apps/gateway/src/modules/control/instance-registry.ts: the control connections of the plugins, the
-- instances that they register, and the commands routed to them.
pub mod State
pub mod Keys
pub mod Outcomes
pub mod Presence
pub mod Pending
pub mod Links
pub mod Register
pub mod Commands
pub mod Prompts
pub mod Snapshots
pub mod Catalogs
pub mod Forget
pub mod Tunnels
pub mod Frames
pub mod Fuel
pub mod Ownership
pub mod Steps
pub mod Control
pub mod Handover
pub mod Routing
pub mod Once
pub mod Correlation
