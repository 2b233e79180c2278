-- ===== src/Flow.antt =====
-- The ways of an object from the controller to the agent and to the DNS plugin.
pub mod Frontends
pub mod Backends
pub mod Traffic
pub mod Names
