-- ===== src/Streams/Log/Valid.antt =====
-- What makes the stored data of a log well formed.
pub mod Blocks
pub mod Append
pub mod Trim
use tori_py.Prelude.Dict
use tori_py.Prelude.{ℕ, String, ◌≡◌, some, get_elem?, length, string_eq, pair_eq, nat_eq, List}
use tori_py.Streams.Log.{PartitionState, ProducerState, StreamState, Log}
use tori_py.Streams.Log.Append.{confirmed_receipt}
use tori_py.Streams.Log.Partition.{PartitionIsValid}

-- A producer's entry holds the last request under its name, and the receipt that was given for it.
pub record ProducerIsValid (key : ℕ × String) (entry : ProducerState) : Type 0 where
  pub named : entry.request.producer_name ≡ some key.1
  pub numbered : entry.request.publishing_id ≡ some entry.publishing_id
  pub answered : entry.receipt ≡ confirmed_receipt entry.request key.0

abbrev pub PartitionsAreValid : String → List PartitionState → Type 0
PartitionsAreValid name partitions =
    (i : ℕ) (part : PartitionState)
    → get_elem? partitions i ≡ some part
    → PartitionIsValid name i part

pub record StreamIsValid (name : String) (state : StreamState) : Type 0 where
  pub named : state.definition.name ≡ name
  pub counted : length state.partitions ≡ state.definition.partition_count
  pub partitions : PartitionsAreValid name state.partitions
  pub producers :
      (key : ℕ × String) (entry : ProducerState)
      → Dict.get state.producers key ≡ some entry
      → ProducerIsValid key entry

pub record LogIsValid (log : Log) : Type 0 where
  pub streams :
      (name : String) (state : StreamState)
      → Dict.get log.streams name ≡ some state
      → StreamIsValid name state
