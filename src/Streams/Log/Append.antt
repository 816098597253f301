-- ===== src/Streams/Log/Append.antt =====
-- `append` of inmemory.py, in its steps: the partition, the producer's last publishing id, the new
-- record, and the producer's entry. `clock` is what the log's clock returned.
pub mod Outcome
pub mod Duplicates
pub mod Retry
pub mod Grown
pub mod Seen
pub mod Confirmed
use tori_py.Prelude.Dict
use tori_py.Prelude.{
  ℕ, ◌+◌, ◌<◌, String, Option, some, none, List, [], ◌∷◌, ◌++◌, Bool, true, false, ok, err, ◌>>=◌,
  ◌>>◌, if◌then◌else◌, ltb, get_elem?, set, ◌==◌, string_eq, nat_eq, pair_eq,
}
use tori_py.Value.{Value, int}
use tori_py.Streams.Errors.{
  Fallible, lifecycle, unknown_stream, invalid_partition, publishing_conflict, stale_publishing_id,
  assertion, index_error,
}
use tori_py.Streams.Models.{aware}
use tori_py.Streams.Models.Requests.{
  StreamDefinition, AppendRequest, PublishReceipt, confirmed, deduplicated, request_equal,
}
use tori_py.Streams.Models.Records.{StoredRecord, stored_record}
use tori_py.Streams.Limits.{validate_append_request_limits}
use tori_py.Streams.Log.{Log, PartitionState, ProducerState, StreamState, when_open, update_stream}

in_range : Value → ℕ → Fallible ℕ
in_range (int p) count = if ltb p count then ok p else err invalid_partition
in_range _ count = err invalid_partition

-- The router's answer, checked against the partition count.
unfoldable pub route_partition : StreamDefinition → AppendRequest → Fallible ℕ
unfolding in_range
route_partition definition request = do
  answer ← definition.router.route request.partition_key definition.partition_count
  in_range answer definition.partition_count

unfoldable pub duplicate_receipt : ProducerState → ℕ → PublishReceipt
duplicate_receipt existing partition = record {
  record_id = existing.receipt.record_id;
  partition = partition;
  outcome = deduplicated;
  confirmation_facts = existing.receipt.confirmation_facts;
}

-- `existing` is the entry of the producer, `id` the request's publishing id.
unfoldable pub check_existing :
    AppendRequest → ℕ → Option ProducerState → Option ℕ → Fallible (Option PublishReceipt)
unfolding duplicate_receipt
check_existing request partition none id = ok none
check_existing request partition (some existing) none = err assertion
check_existing request partition (some existing) (some id) =
    if id == existing.publishing_id
    then (if request_equal request existing.request
        then ok (some (duplicate_receipt existing partition))
        else err publishing_conflict)
    else if ltb id existing.publishing_id
    then err stale_publishing_id
    else ok none

-- A receipt for a publishing id that was seen before, or none for a record to append.
unfoldable pub check_producer : StreamState → AppendRequest → ℕ → Fallible (Option PublishReceipt)
check_producer state request partition = elim request.producer_name [
  | none ↦ ok none
  | some producer ↦
      check_existing request partition (Dict.get state.producers (partition, producer))
        request.publishing_id
]

-- The timestamp never goes back within a partition.
unfoldable pub append_time : PartitionState → ℕ → ℕ
append_time part now = elim part.last_timestamp [
  | none ↦ now
  | some last ↦ if ltb now last then last else now
]

unfoldable pub new_record : String → AppendRequest → ℕ → PartitionState → ℕ → StoredRecord
new_record stream request partition part now = record {
  record_id = request.record_id;
  stream = stream;
  partition_key = request.partition_key;
  payload = request.payload;
  headers = request.headers;
  partition = partition;
  offset = part.next_offset;
  appended_at = append_time part now;
}

-- The offset is taken before the record is built; a record that is refused leaves it taken.
unfoldable pub store_record :
    String → AppendRequest → ℕ → ℕ → PartitionState → Fallible (Unit {0}) × PartitionState
store_record stream request partition now part =
    let taken = record part { next_offset = part.next_offset + 2 } in
    elim (stored_record (new_record stream request partition part now)) [
      | err e ↦ (err e, taken)
      | ok r ↦ (
        ok tt,
        record taken { records = part.records ++ r ∷ []; last_timestamp = some r.appended_at },
      )
    ]

unfoldable pub confirmed_receipt : AppendRequest → ℕ → PublishReceipt
confirmed_receipt request partition = record {
  record_id = request.record_id;
  partition = partition;
  outcome = confirmed;
  confirmation_facts = "in-memory-accepted" ∷ [];
}

unfoldable pub remembered : AppendRequest → ℕ → ℕ → ProducerState
remembered request partition id = record {
  publishing_id = id;
  request = request;
  receipt = confirmed_receipt request partition;
}

remember_id :
    StreamState → AppendRequest → ℕ → String → Option ℕ → Fallible PublishReceipt × StreamState
remember_id state request partition producer none = (err assertion, state)
remember_id state request partition producer (some id) = (
  ok (confirmed_receipt request partition),
  record state {
    producers = Dict.put state.producers (partition, producer) (remembered request partition id);
  },
)

-- The producer's entry after a record was appended.
unfoldable pub remember : StreamState → AppendRequest → ℕ → Fallible PublishReceipt × StreamState
unfolding remember_id
remember state request partition = elim request.producer_name [
  | none ↦ (ok (confirmed_receipt request partition), state)
  | some producer ↦ remember_id state request partition producer request.publishing_id
]

unfoldable pub append_new :
    Value → String → AppendRequest → ℕ → StreamState → Fallible PublishReceipt × StreamState
append_new clock stream request partition state = elim (get_elem? state.partitions partition) [
  | none ↦ (err index_error, state)
  | some part ↦ elim (aware clock) [
    | err e ↦ (err e, state)
    | ok now ↦
        let (r, part') = store_record stream request partition now part in
        let state' = record state { partitions = set state.partitions partition part' } in
        elim r [ err e ↦ (err e, state') | ok _ ↦ remember state' request partition ]
  ]
]

-- All that is checked before anything is written: the partition, and the receipt of a duplicate.
unfoldable pub admit : StreamState → AppendRequest → Fallible (ℕ × Option PublishReceipt)
admit state request = do
  validate_append_request_limits state.definition request
  p ← route_partition state.definition request
  duplicate ← check_producer state request p
  ok (p, duplicate)

unfoldable pub append_stream :
    Value → String → AppendRequest → StreamState → Fallible PublishReceipt × StreamState
append_stream clock stream request state = elim (admit state request) [
  | err e ↦ (err e, state)
  | ok (p, some receipt) ↦ (ok receipt, state)
  | ok (p, none) ↦ append_new clock stream request p state
]

unfoldable pub append : Value → String → AppendRequest → Log → Fallible PublishReceipt × Log
append clock stream request = when_open (update_stream stream (append_stream clock stream request))
