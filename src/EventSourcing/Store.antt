-- ===== src/EventSourcing/Store.antt =====
-- `InMemoryEventStore` of store.py of
-- packages/tori-py-cqrs-event-sourcing-core/src/tori_py_cqrs_event_sourcing_core: the committed state
-- and its two reads. The store's lock is held for each read and for the whole of a commit, so each is
-- one function.
pub mod Transaction
pub mod Commit
pub mod Valid
pub mod Sessions
use tori_py.Prelude.Dict
use tori_py.Prelude.Dict.{Dict}
use tori_py.Prelude.{
  ℕ, zero, suc, Option, none, some, List, [], ok, err, ◌>>=◌, take, drop, if◌then◌else◌, ltb,
}
use tori_py.Value.{Value, int}
use tori_py.EventSourcing.Errors.{
  StreamId, stream_id_eq, Fallible, event_store_transaction, resource_limit,
}
use tori_py.EventSourcing.Events.{StoredEvent}
use tori_py.EventSourcing.Limits.{EventSourcingLimits}

pub record StoreState : Type 0 where
  pub streams : Dict StreamId (List StoredEvent)
  pub events : List StoredEvent
  pub event_ids : List ℕ

pub record Store : Type 0 where
  pub limits : EventSourcingLimits
  pub state : StoreState

unfoldable pub init : EventSourcingLimits → Store
init limits = record {
  limits = limits;
  state = record { streams = []; events = []; event_ids = [] };
}

unfoldable pub position : Value → Fallible ℕ
position (int n) = ok n
position _ = err event_store_transaction

unfoldable pub limit_value : Value → ℕ → Fallible ℕ
limit_value (int (suc n)) maximum = if ltb maximum (suc n) then err resource_limit else ok (suc n)
limit_value _ maximum = err resource_limit

abbrev pub or_empty : Option (List StoredEvent) → List StoredEvent
or_empty none = []
or_empty (some events) = events

-- `streams.get(stream_id, ())`
unfoldable pub stream_of : Dict StreamId (List StoredEvent) → StreamId → List StoredEvent
stream_of streams stream_id = or_empty (Dict.get streams stream_id)

-- `events[after : after + page_size]`
abbrev pub page : ℕ → ℕ → List StoredEvent → List StoredEvent
page after page_size events = take page_size (drop after events)

unfoldable pub read_stream : StreamId → Value → Value → Store → Fallible (List StoredEvent)
unfolding position limit_value stream_of
read_stream stream_id after_version limit store = do
  after ← position after_version
  page_size ← limit_value limit store.limits.read_page_size
  ok (page after page_size (stream_of store.state.streams stream_id))

unfoldable pub read_all : Value → Value → Store → Fallible (List StoredEvent)
unfolding position limit_value
read_all after_position limit store = do
  after ← position after_position
  page_size ← limit_value limit store.limits.read_page_size
  ok (page after page_size store.state.events)
