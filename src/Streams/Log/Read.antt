-- ===== src/Streams/Log/Read.antt =====
-- `bounds` and `read` of inmemory.py.
pub mod Fresh
pub mod Pages
use tori_py.Prelude.{
  ℕ, String, Option, none, some, List, Bool, ltb, leb, ok, err, ◌>>=◌, ◌>>◌, take, select,
}
use tori_py.Value.{Value}
use tori_py.Streams.Errors.{Fallible, AvailableBounds}
use tori_py.Streams.Models.Records.{StoredRecord, RecordPage, record_page}
use tori_py.Streams.Log.{
  Log, PartitionState, require_open, stream_state, partition_state, bounds_of, require_retained,
  validate_read, at_or_after,
}

unfoldable pub bounds : Log → String → Value → Fallible AvailableBounds
bounds log stream partition = do
  require_open log
  state ← stream_state log stream
  part ← partition_state state partition
  bounds_of part

-- `islice` over the records at or after the offset.
unfoldable pub page_of : PartitionState → ℕ → ℕ → List StoredRecord
page_of part from_offset limit = take limit (select (at_or_after from_offset) part.records)

unfoldable pub read_partition : String → ℕ → PartitionState → ℕ → ℕ → Fallible RecordPage
read_partition stream partition part from_offset limit = do
  require_retained stream partition from_offset part none
  b ← bounds_of part
  record_page (page_of part from_offset limit) (some b)

unfoldable pub index_of : Value → ℕ
index_of (Value.int n) = n
index_of _ = 0

unfoldable pub read : Log → String → Value → Value → Value → Fallible RecordPage
read log stream partition from_offset limit = do
  require_open log
  state ← stream_state log stream
  part ← partition_state state partition
  (n, k) ← validate_read state.definition from_offset limit
  read_partition stream (index_of partition) part n k
