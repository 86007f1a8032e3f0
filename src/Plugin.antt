-- ===== src/Plugin.antt =====
-- packages/plugin: the OpenCode plugin, which observes sessions and delivers events.
pub mod Ancestry
pub mod Queue
pub mod Pump
pub mod Machine
pub mod Messages
pub mod Sender
