-- ===== src/Agent.antt =====
-- internal/agent: the agent of a node, which turns gateways and endpoint slices into nftables rules.
pub mod Frontends
pub mod Endpoints
pub mod Ruleset
pub mod Netlink
pub mod Proxier
pub mod Options
pub mod Handlers
