-- ===== src/Streams.antt =====
-- packages/tori-py-persistent-streams-core: portable persistent logs.
pub mod Errors
pub mod Models
pub mod Routing
pub mod Limits
pub mod Log
pub mod Checkpoints
pub mod Ownership
pub mod Leases
pub mod Consumers
