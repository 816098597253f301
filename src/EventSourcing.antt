-- ===== src/EventSourcing.antt =====
-- packages/tori-py-cqrs-event-sourcing-core: events, the in-memory event store and its transactions,
-- and event-sourced aggregates.
pub mod Errors
pub mod Events
pub mod Limits
pub mod Schemas
pub mod Store
pub mod Aggregate
pub mod UnitOfWork
