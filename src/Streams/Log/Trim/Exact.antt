-- ===== src/Streams/Log/Trim/Exact.antt =====
-- What `trim` removes, and what it leaves readable.
use Prim.Native.Nat.{min}
use tori_py.Prelude.Dict
use tori_py.Prelude.{
  ℕ, ◌≤◌, ◌<◌, String, ◌≡◌, refl, sym, ap, ◌∙◌, All-map, some, false, List, [], ◌∷◌, ◌++◌, arith,
  ok, take, select, get_elem?, set, get_elem?-set_self, string_eq, ltb, leb, length, All,
  Bool-cases, inl, inr, leb→le, ltb→lt,
}
use tori_py.Value.{int}
use tori_py.Streams.Models.Records.{StoredRecord, RecordPage}
use tori_py.Streams.Log.{PartitionState, StreamState, Log, update_stream, before, at_or_after}
use tori_py.Streams.Log.Guards.{
  partition_state_lem, validate_read_lem, when_open_lem, update_stream_lem,
}
use tori_py.Streams.Log.Partition.{select-before-at_or_after}
use tori_py.Streams.Log.Read.{read}
use tori_py.Streams.Log.Read.Pages.{read_lem, bounds_lem}
use tori_py.Streams.Log.Trim.{boundary, removed, trim_partition, index_of, trim_stream, trim}
use tori_py.Streams.Log.Valid.{LogIsValid}
use tori_py.Streams.Log.Valid.Trim.{trim-LogIsValid}

All-select_self : (b : ℕ) (rs : List StoredRecord) → All (λ r. r.offset < b) (select (before b) rs)
All-select_self b [] = tt
All-select_self b (r ∷ rs) = elim (Bool-cases (ltb r.offset b)) [
  | inl e ↦ rw e (ltb→lt r.offset b e, All-select_self b rs)
  | inr e ↦ rw e (All-select_self b rs)
]

All-select_kept :
    (b : ℕ) (rs : List StoredRecord) → All (λ r. b ≤ r.offset) (select (at_or_after b) rs)
All-select_kept b [] = tt
All-select_kept b (r ∷ rs) = elim (Bool-cases (leb b r.offset)) [
  | inl e ↦ rw e (leb→le b r.offset e, All-select_kept b rs)
  | inr e ↦ rw e (All-select_kept b rs)
]

-- A later cut does not see an earlier one.
select-select :
    (m b : ℕ) (rs : List StoredRecord)
    → b ≤ m
    → select (at_or_after m) (select (at_or_after b) rs) ≡ select (at_or_after m) rs
select-select m b [] h = refl
select-select m b (r ∷ rs) h = ground (arith, select-select m b rs h)

abbrev pub trimmed_stream : StreamState → ℕ → PartitionState → ℕ → StreamState
trimmed_stream state i part n = record state {
  partitions = set state.partitions i (trim_partition part n);
}

trim_stream_lem :
    (state : StreamState) (i n : ℕ) (part : PartitionState)
    → get_elem? state.partitions i ≡ some part
    → 1 ≤ state.definition.limits.max_read_records
    → trim_stream (int i) (int n) state
      ≡ (ok (length (removed part n)), trimmed_stream state i part n)
unfolding trim_stream index_of
trim_stream_lem state i n part present fits = simp (
  trim_stream,
  partition_state_lem state i part present,
  validate_read_lem state.definition n 1 (omega arith) fits,
)

trim_lem :
    (log : Log) (stream : String) (state : StreamState) (i n : ℕ) (part : PartitionState)
    → log.closed ≡ false
    → Dict.get log.streams stream ≡ some state
    → get_elem? state.partitions i ≡ some part
    → 1 ≤ state.definition.limits.max_read_records
    → trim stream (int i) (int n) log ≡ (
      ok (length (removed part n)),
      record log { streams = Dict.put log.streams stream (trimmed_stream state i part n) },
    )
unfolding trim
trim_lem log stream state i n part usable known present fits =
    when_open_lem (update_stream stream (trim_stream (int i) (int n))) log usable
    ∙ update_stream_lem stream (trim_stream (int i) (int n)) log state known
    ∙ ap (λ x. (x.0, record log { streams = Dict.put log.streams stream x.1 }))
        (trim_stream_lem state i n part present fits)

-- In an open, well-formed log, for a stream whose read limit is positive, `trim` of a known
-- partition splits its records, in order, into those that it drops, all before the given offset,
-- and those that it keeps, none before the given offset or the end, whichever is lower; it returns
-- how many it dropped, and the next offset stays.
pub trim-splits :
    (log : Log) (stream : String) (state : StreamState) (i n : ℕ) (part : PartitionState)
    → LogIsValid log
    → log.closed ≡ false
    → Dict.get log.streams stream ≡ some state
    → get_elem? state.partitions i ≡ some part
    → 1 ≤ state.definition.limits.max_read_records
    → (dropped : List StoredRecord) × (part' : PartitionState) × ((trim stream
          (int i)
          (int n)
          log).0
        ≡ ok (length dropped))
      × (Dict.get (trim stream (int i) (int n) log).1.streams stream
          ≡ some (record state { partitions = set state.partitions i part' }))
      × (part.records ≡ dropped ++ part'.records)
      × All (λ r. r.offset < n) dropped
      × All (λ r. min n part.next_offset ≤ r.offset) part'.records
      × (part'.next_offset ≡ part.next_offset)
unfolding removed trim_partition boundary
trim-splits log stream state i n part v usable known present fits =
    let b = min n part.next_offset in
    let valid = (v.streams stream state known).partitions i part present in
    let done = trim_lem log stream state i n part usable known present fits in
    (
      select (before b) part.records,
      trim_partition part n,
      ap (λ x. x.0) done,
      ap (λ x. Dict.get x.1.streams stream) done
          ∙ Dict.get-put_self log.streams stream (trimmed_stream state i part n),
      sym (
          select-before-at_or_after b part.earliest_offset part.next_offset part.records
            valid.chain),
      All-map (λ r. r.offset < b) (λ r. r.offset < n) (λ r h. omega arith)
          (select (before b) part.records) (All-select_self b part.records),
      All-select_kept b part.records,
      refl,
    )

-- In an open, well-formed log, a read of a known partition from a retained offset, not below the
-- one that `trim` is given, with a positive limit within the stream's limit, succeeds before and
-- after the `trim`, and returns the same records.
pub read-trim :
    (log : Log) (stream : String) (state : StreamState) (i n m k : ℕ) (part : PartitionState)
    → LogIsValid log
    → log.closed ≡ false
    → Dict.get log.streams stream ≡ some state
    → get_elem? state.partitions i ≡ some part
    → part.earliest_offset ≤ m
    → n ≤ m
    → 0 < k
    → k ≤ state.definition.limits.max_read_records
    → (before after : RecordPage) × (read log stream (int i) (int m) (int k) ≡ ok before)
      × (read (trim stream (int i) (int n) log).1 stream (int i) (int m) (int k) ≡ ok after)
      × (after.records ≡ before.records)
unfolding trim_partition boundary
read-trim log stream state i n m k part v usable known present retained below positive fits =
    let b = min n part.next_offset in
    let done = trim_lem log stream state i n part usable known present (omega arith) in
    let log' = (trim stream (int i) (int n) log).1 in
    let part' = trim_partition part n in
    (
      record {
        records = take k (select (at_or_after m) part.records);
        bounds = some (bounds_lem part);
      },
      record {
        records = take k (select (at_or_after m) part'.records);
        bounds = some (bounds_lem part');
      },
      read_lem log stream state i m k part v usable known present retained positive fits,
      read_lem log' stream (trimmed_stream state i part n) i m k part'
          (trim-LogIsValid stream (int i) (int n) log v) (ap (λ x. x.1.closed) done ∙ usable)
          (ap (λ x. Dict.get x.1.streams stream) done
            ∙ Dict.get-put_self log.streams stream (trimmed_stream state i part n))
          (get_elem?-set_self state.partitions i part' part present) (omega arith) positive fits,
      ap (take k) (select-select m b part.records (omega arith)),
    )
