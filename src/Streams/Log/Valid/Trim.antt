-- ===== src/Streams/Log/Valid/Trim.antt =====
-- `trim`, `start`, `quiesce` and `declare_stream` of inmemory.py and the log's well-formedness.
use Prim.Native.Nat.{min}
use mathlib.Core.Path.{subst}
use tori_py.Prelude.Dict
use tori_py.Prelude.{
  ℕ, String, ◌≡◌, refl, Option, none, some, List, [], ◌∷◌, ◌++◌, arith, last?, select, get_elem?,
  inl, inr, string_eq, Option-cases, Bool-cases, Result-cases, ok, get_elem?-replicate,
  length-replicate,
}
use tori_py.Value.{Value, int}
use tori_py.Streams.Models.Requests.{StreamDefinition}
use tori_py.Streams.Models.Records.{StoredRecord}
use tori_py.Streams.Log.{
  PartitionState, StreamState, Log, update_stream, partition_state, validate_read, before,
  at_or_after,
}
use tori_py.Streams.Log.Declare.{empty_partition, new_stream, compatible, declare, declare_stream}
use tori_py.Streams.Log.Trim.{
  boundary, removed, removed_through, trim_partition, index_of, trim_stream, trim,
}
use tori_py.Streams.Log.Partition.{
  PartitionIsValid, moment_or_zero, Dated, Chain-select, select-before-at_or_after, All-select,
  BelongsTo,
}
use tori_py.Streams.Log.Valid.{StreamIsValid, LogIsValid}
use tori_py.Streams.Log.Valid.Blocks.{
  when_open-keeps, update_stream-LogIsValid, set-StreamIsValid, put-LogIsValid,
}

-- The last timestamp of a list, or the one before it.
abbrev end_of : ℕ → Option StoredRecord → ℕ
end_of lo none = lo
end_of lo (some r) = r.appended_at

end_of-last? :
    (a b : ℕ) (x : StoredRecord) (xs : List StoredRecord)
    → end_of a (last? (x ∷ xs)) ≡ end_of b (last? (x ∷ xs))
end_of-last? a b x [] = refl
end_of-last? a b x (y ∷ xs) = end_of-last? a b y xs

Dated-append :
    (lo hi : ℕ) (xs ys : List StoredRecord)
    → Dated lo (xs ++ ys) hi
    → Dated (end_of lo (last? xs)) ys hi
Dated-append lo hi [] ys h = h
Dated-append lo hi (x ∷ []) ys h = h.1
Dated-append lo hi (x ∷ y ∷ xs) ys h =
    subst (λ a. Dated a ys hi) (end_of-last? x.appended_at lo y xs)
      (Dated-append x.appended_at hi (y ∷ xs) ys h.1)

end_of-removed_through :
    (part : PartitionState) (rs : List StoredRecord)
    → end_of (moment_or_zero part.removed_through) (last? rs)
      ≡ moment_or_zero (removed_through part rs)
unfolding removed_through
end_of-removed_through part rs = ground arith

trim_partition-IsValid :
    (name : String) (i n : ℕ) (part : PartitionState)
    → PartitionIsValid name i part
    → PartitionIsValid name i (trim_partition part n)
unfolding trim_partition removed boundary
trim_partition-IsValid name i n part v =
    let b = min n part.next_offset in
    record {
      chain =
          Chain-select b part.earliest_offset part.next_offset part.records (omega arith) v.chain;
      dated =
          subst
            (λ lo.
              Dated lo (select (at_or_after b) part.records) (moment_or_zero part.last_timestamp))
            (end_of-removed_through part (select (before b) part.records))
            (Dated-append (moment_or_zero part.removed_through) (moment_or_zero part.last_timestamp)
              (select (before b) part.records) (select (at_or_after b) part.records)
              (rw
                (select-before-at_or_after b part.earliest_offset part.next_offset part.records
                  v.chain)
                v.dated));
      owned = All-select (BelongsTo name i) (at_or_after b) part.records v.owned;
    }

partition_state_lem :
    (state : StreamState) (partition : Value) (part : PartitionState)
    → partition_state state partition ≡ ok part
    → get_elem? state.partitions (index_of partition) ≡ some part
unfolding partition_state index_of
partition_state_lem state (int n) part h = ground arith
partition_state_lem state _ part h = cc

trim_stream-IsValid :
    (name : String) (partition before_offset : Value) (state : StreamState)
    → StreamIsValid name state
    → StreamIsValid name (trim_stream partition before_offset state).1
unfolding trim_stream
trim_stream-IsValid name partition before_offset state v =
    elim (Result-cases (partition_state state partition)) [
      | inl (e, invalid) ↦ simp (invalid, trim_stream) v
      | inr (part, present) ↦
          elim (Result-cases (validate_read state.definition before_offset (int 1))) [
            | inl (e, invalid) ↦ simp (present, invalid, trim_stream) v
            | inr ((n, k), checked) ↦
                simp (present, checked, trim_stream)
                  (set-StreamIsValid name state (index_of partition) (trim_partition part n) v (
                    trim_partition-IsValid name (index_of partition) n part (
                      v.partitions (index_of partition) part
                        (partition_state_lem state partition part present))))
          ]
    ]

-- From a well-formed log `trim` leaves a well-formed log, whether it returns or raises.
pub trim-LogIsValid :
    (name : String) (partition before_offset : Value) (log : Log)
    → LogIsValid log
    → LogIsValid (trim name partition before_offset log).1
unfolding trim
trim-LogIsValid name partition before_offset log v =
    when_open-keeps LogIsValid (update_stream name (trim_stream partition before_offset)) log v (
      update_stream-LogIsValid name (trim_stream partition before_offset) log
        (trim_stream-IsValid name partition before_offset) v)

empty_partition-IsValid : (name : String) (i : ℕ) → PartitionIsValid name i empty_partition
empty_partition-IsValid name i = record { chain = omega arith; dated = omega arith; owned = tt }

new_stream-IsValid :
    (definition : StreamDefinition) → StreamIsValid definition.name (new_stream definition)
unfolding Dict.get
new_stream-IsValid definition = record {
  named = refl;
  counted = length-replicate definition.partition_count empty_partition;
  partitions = λ i part h.
      subst (PartitionIsValid definition.name i)
        (get_elem?-replicate definition.partition_count i empty_partition part h)
        (empty_partition-IsValid definition.name i);
  producers = λ key entry h. cc;
}

declare-LogIsValid :
    (definition : StreamDefinition) (log : Log)
    → LogIsValid log
    → LogIsValid (declare definition log).1
unfolding declare
declare-LogIsValid definition log v = elim (Option-cases (Dict.get log.streams definition.name)) [
  | inl new ↦
      simp (new, declare)
        (put-LogIsValid log definition.name (new_stream definition) v
          (new_stream-IsValid definition))
  | inr (current, known) ↦ elim (Bool-cases (compatible current.definition definition)) [
    | inl same ↦ simp (known, same, declare) v
    | inr other ↦ simp (known, other, declare) v
  ]
]

-- From a well-formed log `declare_stream` leaves a well-formed log, whether it returns or raises.
pub declare_stream-LogIsValid :
    (definition : StreamDefinition) (log : Log)
    → LogIsValid log
    → LogIsValid (declare_stream definition log).1
unfolding declare_stream
declare_stream-LogIsValid definition log v =
    when_open-keeps LogIsValid (declare definition) log v (declare-LogIsValid definition log v)
