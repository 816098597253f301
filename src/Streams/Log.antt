-- ===== src/Streams/Log.antt =====
-- inmemory.py of packages/tori-py-persistent-streams-core/src/tori_py_persistent_streams_core: the
-- state of `InMemoryPersistentLog`, and the guards that its methods share. Every method holds the
-- log's lock while it reads or writes, so each locked block is one function here.
pub mod Partition
pub mod Growth
pub mod Valid
pub mod Guards
pub mod Append
pub mod Read
pub mod Trim
pub mod Declare
use tori_py.Prelude.Dict
use tori_py.Prelude.Dict.{Dict}
use tori_py.Prelude.{
  ℕ, ◌<◌, String, Option, some, none, List, Bool, true, false, Result, ok, err, ◌>>=◌,
  if◌then◌else◌, ltb, leb, get_elem?, length, string_eq, ◌==◌,
}
use tori_py.Value.{Value, int}
use tori_py.Streams.Errors.{
  Error, Fallible, AvailableBounds, RetentionGap, Requested, requested_offset, retention_gap,
  validation, resource_limit, unknown_stream, invalid_partition, lifecycle, ResumeCursor,
}
use tori_py.Streams.Models.{offset, positive}
use tori_py.Streams.Models.Requests.{StreamDefinition, AppendRequest, PublishReceipt}
use tori_py.Streams.Models.Records.{StoredRecord, available_bounds}
use tori_py.Streams.Models.Positions.{CheckpointKey, OwnershipToken, Subscription}

pub record PartitionState : Type 0 where
  pub records : List StoredRecord
  pub next_offset : ℕ
  pub earliest_offset : ℕ
  pub last_timestamp : Option ℕ
  pub removed_through : Option ℕ

pub record ProducerState : Type 0 where
  pub publishing_id : ℕ
  pub request : AppendRequest
  pub receipt : PublishReceipt

pub record StreamState : Type 0 where
  pub definition : StreamDefinition
  pub partitions : List PartitionState
  pub producers : Dict (ℕ × String) ProducerState

-- `store` is the identity of the store object.
pub record StrategyBinding : Type 0 where
  pub mode : String
  pub identity : Option String
  pub store : Option ℕ

-- An `InMemoryPartitionLease` object.
pub record Lease : Type 0 where
  pub subscription : Subscription
  pub key : CheckpointKey
  pub owner : OwnershipToken
  pub store : Option ℕ
  pub stopped : Bool
  pub released : Bool
  pub revocation_requested : Bool
  pub in_flight : Option StoredRecord
  pub delivery_completed : Bool

-- `objects` holds the lease objects by identity, and `next_marker` the next fresh `object()`.
pub record Log : Type 0 where
  pub max_active_leases : ℕ
  pub streams : Dict String StreamState
  pub owners : Dict CheckpointKey OwnershipToken
  pub leases : Dict CheckpointKey ℕ
  pub transfers : Dict CheckpointKey ℕ
  pub generations : Dict CheckpointKey ℕ
  pub broker_cursors : Dict CheckpointKey ResumeCursor
  pub group_strategies : Dict (String × String) StrategyBinding
  pub pending_group_strategies : Dict (String × String) (StrategyBinding × ℕ)
  pub closed : Bool
  pub started : Bool
  pub quiescing : Bool
  pub objects : List Lease
  pub next_marker : ℕ

-- The tests of the two comprehensions over a partition's records.
abbrev pub before : ℕ → StoredRecord → Bool
before n r = ltb r.offset n

abbrev pub at_or_after : ℕ → StoredRecord → Bool
at_or_after n r = leb n r.offset

unfoldable pub require_open : Log → Fallible (Unit {0})
require_open log = if log.closed then err lifecycle else ok tt

-- A locked block that begins with `_require_open`.
unfoldable pub when_open {ℓ} :
    {A : Type ℓ} → (Log → Result Error A × Log) → Log → Result Error A × Log
when_open body log = if log.closed then (err lifecycle, log) else body log

-- A block that looks a stream up and changes its state in place.
unfoldable pub update_stream {ℓ} :
    {A : Type ℓ}
    → String
    → (StreamState → Result Error A × StreamState)
    → Log
    → Result Error A × Log
update_stream name body log = elim (Dict.get log.streams name) [
  | none ↦ (err (unknown_stream name), log)
  | some state ↦ ((body state).0, record log { streams = Dict.put log.streams name (body state).1 })
]

unfoldable pub stream_state : Log → String → Fallible StreamState
stream_state log name = elim (Dict.get log.streams name) [
  | none ↦ err (unknown_stream name)
  | some state ↦ ok state
]

found : Option PartitionState → Fallible PartitionState
found none = err invalid_partition
found (some part) = ok part

-- Below zero, out of range, `bool` and other types are refused alike.
unfoldable pub partition_state : StreamState → Value → Fallible PartitionState
unfolding found
partition_state state (int n) = found (get_elem? state.partitions n)
partition_state state _ = err invalid_partition

unfoldable pub bounds_of : PartitionState → Fallible AvailableBounds
unfolding available_bounds
bounds_of part = available_bounds (int part.earliest_offset) (int part.next_offset)

unfoldable pub require_retained :
    String → ℕ → ℕ → PartitionState → Option String → Fallible (Unit {0})
unfolding bounds_of
require_retained stream partition offset part group =
    if ltb offset part.earliest_offset
    then (do
      b ← bounds_of part
      err (
          retention_gap (record {
            stream = stream;
            partition = partition;
            requested = requested_offset offset;
            bounds = b;
            group = group;
          })))
    else ok tt

unfoldable pub validate_read : StreamDefinition → Value → Value → Fallible (ℕ × ℕ)
unfolding offset positive
validate_read definition from_offset limit = do
  n ← offset from_offset
  k ← positive limit
  if ltb definition.limits.max_read_records k then err resource_limit else ok (n, k)
