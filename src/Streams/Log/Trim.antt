-- ===== src/Streams/Log/Trim.antt =====
-- `trim` of inmemory.py.
pub mod Exact
pub mod Grown
use Prim.Native.Nat.{min, max}
use tori_py.Prelude.Dict
use tori_py.Prelude.{
  ℕ, ◌<◌, String, Option, none, some, List, Bool, leb, ltb, ok, err, ◌>>=◌, ◌>>◌, select, length,
  last?, set, string_eq, [], ◌∷◌,
}
use tori_py.Value.{Value, int}
use tori_py.Streams.Errors.{Fallible}
use tori_py.Streams.Models.Records.{StoredRecord}
use tori_py.Streams.Log.{
  Log, PartitionState, StreamState, require_open, stream_state, partition_state, validate_read,
  when_open, update_stream, before, at_or_after,
}

unfoldable pub boundary : PartitionState → ℕ → ℕ
boundary part before_offset = min before_offset part.next_offset

unfoldable pub removed : PartitionState → ℕ → List StoredRecord
unfolding boundary
removed part before_offset = select (before (boundary part before_offset)) part.records

-- `removed[-1].appended_at`, if anything was removed.
unfoldable pub removed_through : PartitionState → List StoredRecord → Option ℕ
removed_through part removed = elim (last? removed) [
  | none ↦ part.removed_through
  | some r ↦ some r.appended_at
]

unfoldable pub trim_partition : PartitionState → ℕ → PartitionState
unfolding boundary removed removed_through
trim_partition part before_offset = record part {
  records = select (at_or_after (boundary part before_offset)) part.records;
  earliest_offset = max part.earliest_offset (boundary part before_offset);
  removed_through = removed_through part (removed part before_offset);
}

unfoldable pub index_of : Value → ℕ
index_of (int n) = n
index_of _ = 0

unfoldable pub trim_stream : Value → Value → StreamState → Fallible ℕ × StreamState
unfolding index_of
trim_stream partition before_offset state = elim (partition_state state partition) [
  | err e ↦ (err e, state)
  | ok part ↦ elim (validate_read state.definition before_offset (int 1)) [
    | err e ↦ (err e, state)
    | ok (n, _) ↦ (
      ok (length (removed part n)),
      record state {
        partitions = set state.partitions (index_of partition) (trim_partition part n);
      },
    )
  ]
]

unfoldable pub trim : String → Value → Value → Log → Fallible ℕ × Log
trim stream partition before_offset =
    when_open (update_stream stream (trim_stream partition before_offset))
