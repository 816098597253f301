-- ===== src/Tests/Logs.antt =====
-- A log with one stream of one partition: records that its methods lead to.
mod Runs
use Prim.Native.Nat.{min}
use tori_py.Prelude.Dict
use tori_py.Prelude.{
  ℕ, ◌≡◌, refl, Option, none, some, List, [], ◌∷◌, Bool, true, false, ok, err, arith, get_elem?,
  string_eq, ◌<◌, pair_eq, nat_eq, ◌++◌, length, set, ◌<◌, ◌≤◌, All,
}
use tori_py.Value.{Value, int, moment, text}
use tori_py.Streams.Models.Limits.{defaults}
use tori_py.Streams.Models.Requests.{
  StreamDefinition, AppendRequest, PublishReceipt, request_equal, deduplicated,
}
use tori_py.Streams.Routing.{PartitionRouter}
use tori_py.Streams.Log.{Log, StreamState, PartitionState, when_open, update_stream}
use tori_py.Streams.Log.Declare.{declare_stream, declare, new_stream, empty_partition}
use tori_py.Streams.Models.{aware}
use tori_py.Streams.Limits.{validate_append_request_limits}
use tori_py.Streams.Log.Append.{
  append, append_stream, admit, route_partition, check_producer, append_new, store_record,
  append_time, new_record, remember, confirmed_receipt, remembered, check_existing,
}
use tori_py.Streams.Log.Append.Retry.{append-append}
use tori_py.Streams.Log.Read.{read}
use tori_py.Streams.Log.Read.Pages.{read_lem}
use tori_py.Streams.Log.Read.Fresh.{append-read, IsCopy}
use tori_py.Streams.Models.Records.{StoredRecord, stored_record, RecordPage}
use tori_py.Streams.Log.Trim.{trim}
use tori_py.Streams.Log.Trim.Exact.{trim-splits, read-trim}
use tori_py.Streams.Log.Valid.{LogIsValid}
use tori_py.Streams.Log.Valid.Append.{append-LogIsValid}
use tori_py.Streams.Log.Valid.Trim.{declare_stream-LogIsValid, trim-LogIsValid}

abbrev pub first_partition : PartitionRouter
first_partition = record {
  identity = text "first";
  compatibility_key = "first" ∷ [];
  route = λ key count. ok (int 0);
}

abbrev pub orders : StreamDefinition
orders = record {
  name = "orders";
  partition_count = 1;
  limits = defaults;
  router = first_partition;
  router_identity = "first";
  router_compatibility_key = "first" ∷ [];
}

abbrev pub request : AppendRequest
request = record {
  record_id = 7;
  partition_key = 1 ∷ [];
  payload = 2 ∷ 3 ∷ [];
  headers = [];
  producer_name = some "shop";
  publishing_id = some 5;
}

abbrev pub empty_log : Log
empty_log = record {
  max_active_leases = 4;
  streams = [];
  owners = [];
  leases = [];
  transfers = [];
  generations = [];
  broker_cursors = [];
  group_strategies = [];
  pending_group_strategies = [];
  closed = false;
  started = false;
  quiescing = false;
  objects = [];
  next_marker = 0;
}

pub empty_log-IsValid : LogIsValid empty_log
unfolding Dict.get
empty_log-IsValid = record { streams = λ name state h. absurd (ground arith) }

abbrev pub orders_log : Log
orders_log = (declare_stream orders empty_log).1

pub orders_log-IsValid : LogIsValid orders_log
orders_log-IsValid = declare_stream-LogIsValid orders empty_log empty_log-IsValid

abbrev pub filled_log : Log
filled_log = (append (moment 100) "orders" request orders_log).1

pub filled_log-IsValid : LogIsValid filled_log
filled_log-IsValid = append-LogIsValid (moment 100) "orders" request orders_log orders_log-IsValid

abbrev pub stored : StoredRecord
stored = record {
  record_id = 7;
  stream = "orders";
  partition_key = 1 ∷ [];
  payload = 2 ∷ 3 ∷ [];
  headers = [];
  partition = 0;
  offset = 0;
  appended_at = 100;
}

abbrev pub filled_partition : PartitionState
filled_partition = record {
  records = stored ∷ [];
  next_offset = 2;
  earliest_offset = 0;
  last_timestamp = some 100;
  removed_through = none;
}

abbrev pub receipt : PublishReceipt
receipt = confirmed_receipt request 0

abbrev pub filled_state : StreamState
filled_state = record {
  definition = orders;
  partitions = filled_partition ∷ [];
  producers = ((0, "shop"), remembered request 0 5) ∷ [];
}

abbrev pub orders_state : StreamState
orders_state = new_stream orders

pub orders_log-state : Dict.get orders_log.streams "orders" ≡ some orders_state
unfolding declare_stream when_open declare Dict.get Dict.put
orders_log-state = refl

pub append-receipt : (append (moment 100) "orders" request orders_log).0 ≡ ok receipt
unfolding append when_open update_stream append_stream admit validate_append_request_limits
    route_partition check_producer append_new store_record append_time new_record stored_record
    remember declare_stream declare Dict.get Dict.put aware check_existing
append-receipt = refl

pub filled_log-state : Dict.get filled_log.streams "orders" ≡ some filled_state
unfolding append when_open update_stream append_stream admit validate_append_request_limits
    route_partition check_producer append_new store_record append_time new_record stored_record
    remember declare_stream declare Dict.get Dict.put aware check_existing
filled_log-state = refl

pub filled_log-open : filled_log.closed ≡ false
unfolding append when_open update_stream append_stream admit validate_append_request_limits
    route_partition check_producer append_new store_record append_time new_record stored_record
    remember declare_stream declare Dict.get Dict.put aware check_existing
filled_log-open = refl

-- A second record, while the clock went back.
abbrev pub second_request : AppendRequest
second_request = record request { record_id = 8; publishing_id = some 6 }

abbrev pub second_log : Log
second_log = (append (moment 90) "orders" second_request filled_log).1

pub second_log-IsValid : LogIsValid second_log
second_log-IsValid =
    append-LogIsValid (moment 90) "orders" second_request filled_log filled_log-IsValid

abbrev pub second_partition : PartitionState
second_partition = record filled_partition {
  records = stored ∷ record stored { record_id = 8; offset = 2 } ∷ [];
  next_offset = 4;
}

abbrev pub second_state : StreamState
second_state = record filled_state {
  partitions = second_partition ∷ [];
  producers = ((0, "shop"), remembered second_request 0 6) ∷ [];
}

pub second_log-state : Dict.get second_log.streams "orders" ≡ some second_state
unfolding append when_open update_stream append_stream admit validate_append_request_limits
    route_partition check_producer append_new store_record append_time new_record stored_record
    remember declare_stream declare Dict.get Dict.put aware check_existing remembered
second_log-state = refl

pub second_log-open : second_log.closed ≡ false
unfolding append when_open update_stream append_stream admit validate_append_request_limits
    route_partition check_producer append_new store_record append_time new_record stored_record
    remember declare_stream declare Dict.get Dict.put aware check_existing remembered
second_log-open = refl

pub request-routed : route_partition orders request ≡ ok 0
unfolding route_partition
request-routed = refl

pub second-known :
    Dict.get second_state.producers (0, "shop") ≡ some (remembered second_request 0 6)
unfolding Dict.get
second-known = refl

pub request-seen : 5 ≤ (remembered second_request 0 6).publishing_id
unfolding remembered
request-seen = omega arith
