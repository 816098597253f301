-- ===== src/Streams/Log/Read/Pages.antt =====
-- What `read` returns, page by page.
use tori_py.Prelude.Dict
use tori_py.Prelude.{
  ℕ, ◌+◌, ◌≤◌, ◌<◌, String, ◌≡◌, some, false, List, [], ◌∷◌, arith, ok, leb, take, select,
  get_elem?, string_eq, le→ltb, leb→le, Bool-cases, inl, inr,
}
use tori_py.Value.{int}
use tori_py.Streams.Errors.{AvailableBounds}
use tori_py.Streams.Models.Records.{StoredRecord, available_bounds, record_page}
use tori_py.Streams.Log.{PartitionState, StreamState, Log, bounds_of, require_retained, at_or_after}
use tori_py.Streams.Log.Partition.{
  PartitionIsValid, Chain, Chain-le, select-at_or_after_all, increasing-take,
}
use tori_py.Streams.Log.Read.{page_of, read_partition, read, index_of}
use tori_py.Streams.Log.Valid.{LogIsValid}
use tori_py.Streams.Log.Guards.{
  require_open_lem, stream_state_lem, partition_state_lem, validate_read_lem,
}

abbrev pub bounds_lem : PartitionState → AvailableBounds
bounds_lem part = record { earliest_offset = part.earliest_offset; end_offset = part.next_offset }

pub bounds_of_lem :
    (part : PartitionState)
    → part.earliest_offset ≤ part.next_offset
    → bounds_of part ≡ ok (bounds_lem part)
unfolding bounds_of available_bounds
bounds_of_lem part h = ground arith

pub Chain-select_at :
    (n lo hi : ℕ) (rs : List StoredRecord)
    → Chain lo rs hi
    → (low : ℕ) × Chain low (select (at_or_after n) rs) hi
Chain-select_at n lo hi [] h = (lo, h)
Chain-select_at n lo hi (r ∷ rs) h = elim (Bool-cases (leb n r.offset)) [
  | inl kept ↦
      rw
        (
          kept,
          select-at_or_after_all n (r.offset + 2) hi rs (omega (arith, leb→le n r.offset kept)) h.1,
        )
        (lo, h)
  | inr dropped ↦ rw dropped (Chain-select_at n (r.offset + 2) hi rs h.1)
]

pub read_partition_lem :
    (stream name : String) (i n k : ℕ) (part : PartitionState)
    → PartitionIsValid name i part
    → part.earliest_offset ≤ n
    → read_partition stream i part n k
      ≡ ok (record { records = page_of part n k; bounds = some (bounds_lem part) })
unfolding read_partition require_retained record_page page_of
read_partition_lem stream name i n k part v retained =
    let (low, chain) =
      Chain-select_at n part.earliest_offset part.next_offset part.records v.chain in
    simp (
      le→ltb n part.earliest_offset retained,
      bounds_of_lem part (Chain-le part.earliest_offset part.next_offset part.records v.chain),
      increasing-take k low part.next_offset (select (at_or_after n) part.records) chain,
    )

-- In an open, well-formed log, a read of a known partition from a retained offset, with a positive
-- limit within the stream's limit, returns the first `k` records at or after the offset and the
-- partition's bounds: the page's own check on the order of its records never fails.
pub read_lem :
    (log : Log) (stream : String) (state : StreamState) (i n k : ℕ) (part : PartitionState)
    → LogIsValid log
    → log.closed ≡ false
    → Dict.get log.streams stream ≡ some state
    → get_elem? state.partitions i ≡ some part
    → part.earliest_offset ≤ n
    → 0 < k
    → k ≤ state.definition.limits.max_read_records
    → read log stream (int i) (int n) (int k)
      ≡ ok (record {
        records = take k (select (at_or_after n) part.records);
        bounds =
            some (record { earliest_offset = part.earliest_offset; end_offset = part.next_offset });
      })
unfolding read index_of page_of
read_lem log stream state i n k part v usable known present retained positive fits =
    simp
      (
        require_open_lem log usable,
        stream_state_lem log stream state known,
        partition_state_lem state i part present,
        validate_read_lem state.definition n k positive fits,
      )
      (read_partition_lem stream stream i n k part
        ((v.streams stream state known).partitions i part present) retained)
