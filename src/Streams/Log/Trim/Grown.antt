-- ===== src/Streams/Log/Trim/Grown.antt =====
-- `trim` and `declare_stream` of inmemory.py beside the log before.
use Prim.Native.Nat.{max}
use mathlib.Core.List.{Memᴰ}
use mathlib.Core.List.Memᴰ
use tori_py.Prelude.Dict
use tori_py.Prelude.{
  ℕ, ◌≤◌, ◌<◌, String, ◌≡◌, refl, ap, ◌∙◌, inl, inr, ◌⊎◌, some, ok, arith, get_elem?, string_eq,
  Option-cases, Bool-cases, Result-cases, List, [], ◌∷◌, false, leb, select, Bool,
}
use tori_py.Value.{Value, int}
use tori_py.Streams.Models.Requests.{StreamDefinition}
use tori_py.Streams.Models.Records.{StoredRecord}
use tori_py.Streams.Log.{
  PartitionState, StreamState, Log, update_stream, partition_state, validate_read, at_or_after,
}
use tori_py.Streams.Log.Growth.{
  PartitionGrows, StreamGrows, StreamGrows-refl, set-StreamGrows, Grows, Grows-same, put_new-Grows,
  when_open-Grows, update_stream-Grows,
}
use tori_py.Streams.Log.Declare.{new_stream, compatible, declare, declare_stream}
use tori_py.Streams.Log.Trim.{boundary, index_of, trim_partition, trim_stream, trim}

partition_state_lem :
    (state : StreamState) (partition : Value) (part : PartitionState)
    → partition_state state partition ≡ ok part
    → get_elem? state.partitions (index_of partition) ≡ some part
unfolding partition_state index_of
partition_state_lem state (int n) part h = ground arith
partition_state_lem state _ part h = cc

select_tail :
    (p : StoredRecord → Bool) (r x : StoredRecord) (xs : List StoredRecord)
    → Memᴰ r (select p xs)
    → Memᴰ r (select p (x ∷ xs))
select_tail p r x xs m = elim (Bool-cases (p x)) [
  | inl chosen ↦ rw chosen (Memᴰ.tail m)
  | inr left ↦ rw left m
]

select-splits :
    (p : StoredRecord → Bool) (r : StoredRecord) (xs : List StoredRecord)
    → Memᴰ r xs
    → Memᴰ r (select p xs) ⊎ (p r ≡ false)
select-splits p r [] m = elim m [ ]
select-splits p r (x ∷ xs) (Memᴰ.head e) = elim (Bool-cases (p x)) [
  | inl chosen ↦ inl (rw chosen (Memᴰ.head e))
  | inr left ↦ inr (ap p e ∙ left)
]
select-splits p r (x ∷ xs) (Memᴰ.tail m) = elim (select-splits p r xs m) [
  | inl there ↦ inl (select_tail p r x xs there)
  | inr left ↦ inr left
]

mem_of_select :
    (p : StoredRecord → Bool) (r : StoredRecord) (xs : List StoredRecord)
    → Memᴰ r (select p xs)
    → Memᴰ r xs
mem_of_select p r [] m = m
mem_of_select p r (x ∷ xs) m = elim (Bool-cases (p x)) [
  | inl chosen ↦ elim (Memᴰ.cases_cons (rw chosen at m)) [
    | inl e ↦ Memᴰ.head e
    | inr rest ↦ Memᴰ.tail (mem_of_select p r xs rest)
  ]
  | inr left ↦ Memᴰ.tail (mem_of_select p r xs (rw left at m))
]

below_max : (o b e : ℕ) → leb b o ≡ false → o < max e b
below_max o b e h = ground arith

le-max : (e b : ℕ) → e ≤ max e b
le-max e b = ground arith

trim_partition-PartitionGrows :
    (part : PartitionState) (n : ℕ) → PartitionGrows part (trim_partition part n)
unfolding trim_partition
trim_partition-PartitionGrows part n =
    let b = boundary part n in
    record {
      next = omega arith;
      earliest = le-max part.earliest_offset b;
      kept = λ r m. elim (select-splits (at_or_after b) r part.records m) [
        | inl there ↦ inl there
        | inr trimmed ↦ inr (below_max r.offset b part.earliest_offset trimmed)
      ];
      added = λ r m. inl (mem_of_select (at_or_after b) r part.records m);
    }

trim_stream-StreamGrows :
    (partition before_offset : Value) (state : StreamState)
    → StreamGrows state (trim_stream partition before_offset state).1
unfolding trim_stream
trim_stream-StreamGrows partition before_offset state =
    elim (Result-cases (partition_state state partition)) [
      | inl (e, invalid) ↦ simp (invalid, trim_stream) (StreamGrows-refl state)
      | inr (part, present) ↦
          elim (Result-cases (validate_read state.definition before_offset (int 1))) [
            | inl (e, invalid) ↦ simp (present, invalid, trim_stream) (StreamGrows-refl state)
            | inr ((n, k), checked) ↦
                simp (present, checked, trim_stream)
                  (set-StreamGrows state (index_of partition) part (trim_partition part n)
                    (partition_state_lem state partition part present)
                    (trim_partition-PartitionGrows part n))
          ]
    ]

pub trim-Grows :
    (name : String) (partition before_offset : Value) (log : Log)
    → Grows log (trim name partition before_offset log).1
unfolding trim
trim-Grows name partition before_offset log =
    when_open-Grows (update_stream name (trim_stream partition before_offset)) log (
      update_stream-Grows name (trim_stream partition before_offset) log
        (trim_stream-StreamGrows partition before_offset))

declare-Grows : (definition : StreamDefinition) (log : Log) → Grows log (declare definition log).1
unfolding declare
declare-Grows definition log = elim (Option-cases (Dict.get log.streams definition.name)) [
  | inl new ↦ simp (new, declare) (put_new-Grows log definition.name (new_stream definition) new)
  | inr (current, known) ↦ elim (Bool-cases (compatible current.definition definition)) [
    | inl same ↦ simp (known, same, declare) (Grows-same log log refl)
    | inr other ↦ simp (known, other, declare) (Grows-same log log refl)
  ]
]

pub declare_stream-Grows :
    (definition : StreamDefinition) (log : Log) → Grows log (declare_stream definition log).1
unfolding declare_stream
declare_stream-Grows definition log =
    when_open-Grows (declare definition) log (declare-Grows definition log)
