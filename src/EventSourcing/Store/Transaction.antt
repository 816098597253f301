-- ===== src/EventSourcing/Store/Transaction.antt =====
-- `_InMemoryTransaction` of store.py, but for its commit. A transaction is a value beside the store.
pub mod Fits
pub mod Staged
pub mod Kept
use Prim.Native.String.{len}
use tori_py.Prelude.Dict
use tori_py.Prelude.Dict.{Dict}
use tori_py.Prelude.{
  ℕ, ◌+◌, String, Option, none, some, List, [], ◌∷◌, ◌++◌, Bool, true, false, ok, err, ◌>>=◌, ◌>>◌,
  raise_if, if◌then◌else◌, ltb, not, length, contains, nat_eq, map,
}
use tori_py.Value.{Value}
use tori_py.EventSourcing.Errors.{
  StreamId, stream_id_eq, Fallible, event_store_transaction, duplicate_stream_append,
  duplicate_event_id, resource_limit, cancelled,
}
use tori_py.EventSourcing.Events.{Headers, AppendEvent, StoredEvent, event_id}
use tori_py.EventSourcing.Limits.{EventSourcingLimits}
use tori_py.EventSourcing.Store.{Store, position, limit_value, stream_of, page}

pub data TransactionState : Type 0 where
  new entering active committing committed rolled_back : TransactionState

pub record StagedAppend : Type 0 where
  pub stream_id : StreamId
  pub expected_version : ℕ
  pub events : List AppendEvent

pub record Transaction : Type 0 where
  pub state : TransactionState
  pub snapshot : Dict StreamId (List StoredEvent)
  pub staged : List StagedAppend
  pub staged_streams : List StreamId
  pub staged_event_ids : List ℕ
  pub staged_event_count : ℕ
  pub staged_bytes : ℕ

-- `InMemoryEventStore.transaction()`
abbrev pub transaction : Transaction
transaction = record {
  state = new;
  snapshot = [];
  staged = [];
  staged_streams = [];
  staged_event_ids = [];
  staged_event_count = 0;
  staged_bytes = 0;
}

abbrev pub is_new : TransactionState → Bool
is_new new = true
is_new _ = false

abbrev pub is_active : TransactionState → Bool
is_active active = true
is_active _ = false

-- `__aenter__`; `interrupted` says that the wait for the store's lock was cancelled.
unfoldable pub enter : Bool → Store → Transaction → Fallible (Unit {0}) × Transaction
enter interrupted store t =
    if is_new t.state
    then (if interrupted
        then (err cancelled, record t { state = rolled_back })
        else (ok tt, record t { state = active; snapshot = store.state.streams }))
    else (err event_store_transaction, t)

unfoldable pub require_active : Transaction → Fallible (Unit {0})
require_active t = if is_active t.state then ok tt else err event_store_transaction

unfoldable pub clear_staged : Transaction → Transaction
clear_staged t = record t {
  staged = [];
  staged_streams = [];
  staged_event_ids = [];
  staged_event_count = 0;
  staged_bytes = 0;
}

rollback_in : TransactionState → Transaction → Fallible (Unit {0}) × Transaction
rollback_in rolled_back t = (ok tt, t)
rollback_in active t = (ok tt, clear_staged (record t { state = rolled_back }))
rollback_in _ t = (err event_store_transaction, t)

unfoldable pub rollback : Transaction → Fallible (Unit {0}) × Transaction
unfolding rollback_in clear_staged
rollback t = rollback_in t.state t

-- `__aexit__`
unfoldable pub leave : Transaction → Fallible (Unit {0}) × Transaction
unfolding rollback
leave t = if is_active t.state then rollback t else (ok tt, t)

unfoldable pub read_stream :
    StreamId → Value → Value → Store → Transaction → Fallible (List StoredEvent)
unfolding require_active position limit_value stream_of
read_stream stream_id after_version limit store t = do
  require_active t
  after ← position after_version
  page_size ← limit_value limit store.limits.read_page_size
  ok (page after page_size (stream_of t.snapshot stream_id))

-- The loop over the batch that looks for an id seen before; it returns the ids seen.
unfoldable pub check_event_ids : List AppendEvent → List ℕ → Fallible (List ℕ)
check_event_ids [] seen = ok seen
check_event_ids (e ∷ events) seen =
    let rest = check_event_ids events (event_id e ∷ seen) in
    if contains seen (event_id e) then err (duplicate_event_id (event_id e)) else rest

check_headers : EventSourcingLimits → Headers → Fallible (Unit {0})
check_headers limits [] = ok tt
check_headers limits ((name, value) ∷ headers) =
    let rest = check_headers limits headers in
    raise_if (ltb limits.max_header_name_bytes (len name)) resource_limit
    >> raise_if (ltb limits.max_header_value_bytes (len value)) resource_limit
    >> rest

unfoldable pub validate_event_limits : EventSourcingLimits → AppendEvent → Fallible (Unit {0})
unfolding check_headers
validate_event_limits limits event =
    raise_if (ltb limits.max_payload_bytes (length event.encoded.payload)) resource_limit
    >> raise_if (ltb limits.max_headers (length event.metadata.headers)) resource_limit
    >> check_headers limits event.metadata.headers

headers_size : Headers → ℕ
headers_size [] = 0
headers_size ((name, value) ∷ headers) = len name + len value + headers_size headers

unfoldable pub encoded_size : AppendEvent → ℕ
unfolding headers_size
encoded_size event =
    len event.encoded.event_type
    + length event.encoded.payload
    + headers_size event.metadata.headers

-- The loop that checks each event and adds up `batch_bytes`.
unfoldable pub batch_size : EventSourcingLimits → List AppendEvent → ℕ → Fallible ℕ
batch_size limits [] bytes = ok bytes
batch_size limits (e ∷ events) bytes =
    let rest = batch_size limits events (bytes + encoded_size e) in
    validate_event_limits limits e >> rest

is_empty : List AppendEvent → Bool
is_empty [] = true
is_empty (e ∷ events) = false

-- The checks of `append`, with the size of the batch.
unfoldable pub check_append :
    StreamId → Value → List AppendEvent → Store → Transaction → Fallible (ℕ × ℕ)
unfolding is_empty
check_append stream_id expected_version events store t = do
  require_active t
  expected ← position expected_version
  raise_if (contains t.staged_streams stream_id) (duplicate_stream_append stream_id)
  raise_if (is_empty events) event_store_transaction
  raise_if (ltb store.limits.max_events_per_append (length events)) resource_limit
  seen ← check_event_ids events t.staged_event_ids
  raise_if (ltb store.limits.max_events_per_transaction (t.staged_event_count + length events))
      resource_limit
  bytes ← batch_size store.limits events 0
  raise_if (ltb store.limits.max_transaction_bytes (t.staged_bytes + bytes)) resource_limit
  ok (expected, bytes)

unfoldable pub stage : StreamId → ℕ → ℕ → List AppendEvent → Transaction → Transaction
stage stream_id expected bytes events t = record t {
  staged =
      t.staged
      ++ record { stream_id = stream_id; expected_version = expected; events = events } ∷ [];
  staged_streams = t.staged_streams ++ stream_id ∷ [];
  staged_event_ids = t.staged_event_ids ++ map event_id events;
  staged_event_count = t.staged_event_count + length events;
  staged_bytes = t.staged_bytes + bytes;
}

unfoldable pub append :
    StreamId → Value → List AppendEvent → Store → Transaction → Fallible (Unit {0}) × Transaction
append stream_id expected_version events store t =
    elim (check_append stream_id expected_version events store t) [
      | err e ↦ (err e, t)
      | ok (expected, bytes) ↦ (ok tt, stage stream_id expected bytes events t)
    ]
