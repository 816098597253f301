-- ===== src/Tests/Units.antt =====
-- A unit of work with one staged event.
use tori_py.Prelude.{ℕ, ◌+◌, ◌==◌, nat_eq, false, some, none, [], ◌∷◌, Bool, true, ok}
use tori_py.EventSourcing.Errors.{Fallible, StreamId}
use tori_py.EventSourcing.Events.{PendingEvent, AppendEvent, EventMetadata, CommitResult}
use tori_py.EventSourcing.Aggregate.{Aggregate}
use tori_py.EventSourcing.UnitOfWork.{active, World, EventStoreTransaction, commit}

abbrev orders_stream : StreamId
orders_stream = record { category = "orders"; key = "7" }

abbrev metadata : EventMetadata
metadata = record {
  event_id = 9;
  occurred_at = 100;
  correlation_id = none;
  causation_id = none;
  headers = [];
}

abbrev paid : PendingEvent ℕ
paid = record { event = 40; metadata = metadata }

abbrev written : AppendEvent
written = record {
  encoded = record { event_type = "paid"; schema_version = 1; payload = 40 ∷ [] };
  metadata = metadata;
}

abbrev order : Aggregate ℕ ℕ
order = record {
  state = 40;
  version = 0;
  stream_id = some orders_stream;
  pending_events = paid ∷ [];
  faulted = false;
  enlistment = some (record { owner = 1; stream_id = orders_stream; events = paid ∷ [] });
  prepared_commit = none;
}

-- The store counts its calls.
abbrev call : ℕ → Fallible (Unit {0}) × ℕ
call n = (ok tt, n + 1)

abbrev result : CommitResult
result = record {
  events =
      record { stream_id = orders_stream; stream_version = 1; global_position = 1; event = written }
      ∷ [];
}

abbrev transaction : EventStoreTransaction ℕ
transaction = record {
  enter = call;
  exit = call;
  append = λ sid version events. call;
  commit = λ n. (ok (some result), n + 1);
  rollback = call;
}

abbrev world : World ℕ ℕ ℕ
world = record {
  state = active;
  entered = true;
  plans =
      record {
        aggregate = 0;
        stream_id = orders_stream;
        expected_version = 0;
        pending = paid ∷ [];
        append_events = written ∷ [];
      }
      ∷ [];
  commit_result = none;
  outcome = none;
  aggregates = order ∷ [];
  store = 0;
  next_identity = 0;
}

abbrev event_equal : PendingEvent ℕ → PendingEvent ℕ → Bool
event_equal a b = a.event == b.event

abbrev append_equal : AppendEvent → AppendEvent → Bool
append_equal a b = a.metadata.event_id == b.metadata.event_id
