-- ===== src/Lib.antt =====
-- The persistent streams core and the event sourcing core of tori-py, two packages of the repository
-- without a dependency on one another:
--
--   packages/tori-py-persistent-streams-core/src/tori_py_persistent_streams_core   Streams
--   packages/tori-py-cqrs-event-sourcing-core/src/tori_py_cqrs_event_sourcing_core EventSourcing
--
-- Streams. Streams.Models and its children are the value classes of models.py with their
-- `__post_init__`, as functions that return the value or the error; Streams.Errors is errors.py,
-- Streams.Routing is routing.py and Streams.Limits validation.py. Streams.Log is the state of
-- `InMemoryPersistentLog` of inmemory.py: streams of partitions of records, with the last request of
-- each producer. Streams.Log.Declare, Append, Read and Trim are `declare_stream`, `append`, `bounds` and
-- `read`, and `trim`; `append` first asks the stream's router for a partition, then looks for the
-- producer's last publishing id, then writes. Streams.Checkpoints is `InMemoryCheckpointStore` of
-- checkpoints.py: cursors that only the fenced owner of a key moves.
--
-- Streams.Leases has the leases of the log. Their methods wait several times, for the lock, for another
-- lease's delivery or for a checkpoint store, and other calls go on meanwhile: Leases.Acquire and
-- Leases.Deliver have one function for each block between two waits, Leases.Tasks the waits themselves,
-- and Leases.Scheduler a log with all its calls, in which an action begins a call, lets one go on or
-- cancels it. Leases.Run says what a relation must hold of for a whole run to keep it, Leases.View what
-- most blocks leave alone. Streams.Log.Growth compares a log with the log before it, by each of its
-- streams, partitions and producers, and Leases.History is about that and whole runs.
-- Streams.Ownership is the specification of the owners: leases are issued with generations that
-- count on, dropped and cleared; Leases.Refines is that the log implements it, and Leases.Owners,
-- Cursors, Streams, Next, Handover, Acquired and Ends are what it means for leases.
--
-- Streams.Consumers is `ConsumerRunner` of consumers.py over any lease and any handler: both are records or
-- functions on a state of which the runner knows nothing.
--
-- EventSourcing. EventSourcing.Events is events.py, Errors errors.py and Limits `EventSourcingLimits` of
-- codec.py. EventSourcing.Schemas is the rest of codec.py: a schema with an upcaster for each earlier
-- version, the registry of schemas by alias and by class, `encode`, and `decode` with its loop over the
-- upcasters. EventSourcing.Store is `InMemoryEventStore` of store.py, Store.Transaction its
-- transactions, Store.Commit their commit, and Store.Sessions any interleaving of the calls of many
-- transactions. EventSourcing.Aggregate is `AggregateRoot` of aggregate.py: Apply has `raise_event` and `_replay`,
-- Commit the protocol by which a unit of work owns an aggregate and commits its events, and Lifecycle
-- any sequence of these calls. EventSourcing.UnitOfWork is `EventSourcingUnitOfWork` of repository.py over
-- any transaction: it stages the events of aggregates, commits them, and says what became of them;
-- UnitOfWork.Settled and Outcomes compare what it says with what the transaction's commit returned or raised.
--
-- Value is what a Python argument can be where the code checks its type. An exception is an `err` beside
-- the state that the code leaves behind. A moment is a number of microseconds in UTC, a UUID its number,
-- bytes a list of numbers. A method that holds a lock is one function, and a wait for a lock is a step
-- that a cancellation may end. Objects that the code compares by identity have a number for it.
-- Recursion is on lists, or on how many versions or records are left to a loop, so no fuel is needed;
-- integers are unbounded, as Python's are.
--
-- Parameters: the partition router, SHA-256, the clock, `str.strip` and `str.isprintable`, an
-- application's `_apply`, its codecs, and the equality and classes of its events.
--
-- Not modelled: a second cancellation while a cancelled `acquire` cleans up; calls of one unit of work
-- that interleave; `EventSourcedRepository`; and the other packages, which are framework, transport
-- and rendering code.
--
-- Prelude has the shared list, dictionary and result types with their lemmas; Tests has concrete runs.
pub mod Prelude
pub mod Value
pub mod Streams
pub mod EventSourcing
pub mod Tests
