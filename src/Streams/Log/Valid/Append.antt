-- ===== src/Streams/Log/Valid/Append.antt =====
-- `append` of inmemory.py and the log's well-formedness.
use tori_py.Prelude.Dict
use tori_py.Prelude.{
  ℕ, ◌+◌, ◌≤◌, String, ◌≡◌, refl, none, some, [], ◌∷◌, arith, All-append, get_elem?, set, inl, inr,
  ok, Result-cases, string_eq, pair_eq, nat_eq, Option-cases,
}
use tori_py.Value.{Value}
use tori_py.Streams.Models.{aware}
use tori_py.Streams.Models.Requests.{AppendRequest}
use tori_py.Streams.Models.Records.{StoredRecord, stored_record}
use tori_py.Streams.Log.{PartitionState, StreamState, Log, update_stream}
use tori_py.Streams.Log.Valid.Blocks.{when_open-keeps, update_stream-LogIsValid, set-StreamIsValid}
use tori_py.Streams.Log.Append.{
  append_time, new_record, store_record, remember, remembered, append_new, admit, append_stream,
  append,
}
use tori_py.Streams.Log.Partition.{
  PartitionIsValid, moment_or_zero, Chain-snoc, Chain-raise, Dated-snoc, BelongsTo,
}
use tori_py.Streams.Log.Valid.{ProducerIsValid, StreamIsValid, LogIsValid}

append_time-le :
    (part : PartitionState) (now : ℕ) → moment_or_zero part.last_timestamp ≤ append_time part now
unfolding append_time
append_time-le part now = ground arith

stored_record_lem : (r s : StoredRecord) → stored_record r ≡ ok s → s ≡ r
unfolding stored_record
stored_record_lem r s h = ground arith

store_record-IsValid :
    (stream : String) (request : AppendRequest) (partition now : ℕ) (part : PartitionState)
    → PartitionIsValid stream partition part
    → PartitionIsValid stream partition (store_record stream request partition now part).1
unfolding store_record new_record
store_record-IsValid stream request partition now part v =
    let r = new_record stream request partition part now in
    elim (Result-cases (stored_record r)) [
      | inl (e, failed) ↦
          rw (failed, store_record)
            (record {
              chain =
                  Chain-raise part.earliest_offset part.next_offset (part.next_offset + 2)
                    part.records (omega arith) v.chain;
              dated = v.dated;
              owned = v.owned;
            })
      | inr (s, stored) ↦
          rw (stored, store_record, stored_record_lem r s stored)
            (record {
              chain = Chain-snoc part.earliest_offset part.records r v.chain;
              dated =
                  Dated-snoc (moment_or_zero part.removed_through)
                    (moment_or_zero part.last_timestamp) part.records r v.dated
                    (append_time-le part now);
              owned =
                  All-append (BelongsTo stream partition) part.records (r ∷ []) v.owned
                    ((refl, refl), tt);
            })
    ]

remember_id-IsValid :
    (state : StreamState) (request : AppendRequest) (partition : ℕ) (producer : String) (id : ℕ)
    → request.producer_name ≡ some producer
    → request.publishing_id ≡ some id
    → ProducerIsValid (partition, producer) (remembered request partition id)
unfolding remembered
remember_id-IsValid state request partition producer id by_name numbered = record {
  named = by_name;
  numbered = numbered;
  answered = refl;
}

remember-IsValid :
    (name : String) (state : StreamState) (request : AppendRequest) (partition : ℕ)
    → StreamIsValid name state
    → StreamIsValid name (remember state request partition).1
unfolding remember
remember-IsValid name state request partition v = elim (Option-cases request.producer_name) [
  | inl anonymous ↦ simp (anonymous, remember) v
  | inr (producer, by_name) ↦ elim (Option-cases request.publishing_id) [
    | inl missing ↦ simp (by_name, missing, remember) v
    | inr (id, numbered) ↦
        simp (by_name, numbered, remember)
          (record {
            named = v.named;
            counted = v.counted;
            partitions = v.partitions;
            producers =
                Dict.put_keeps ProducerIsValid state.producers (partition, producer)
                  (remembered request partition id) v.producers
                  (remember_id-IsValid state request partition producer id by_name numbered);
          })
  ]
]

append_new-IsValid :
    (clock : Value) (name : String) (request : AppendRequest) (partition : ℕ) (state : StreamState)
    → StreamIsValid name state
    → StreamIsValid name (append_new clock name request partition state).1
unfolding append_new
append_new-IsValid clock name request partition state v =
    elim (Option-cases (get_elem? state.partitions partition)) [
      | inl missing ↦ simp (missing, append_new) v
      | inr (part, present) ↦ elim (Result-cases (aware clock)) [
        | inl (e, naive) ↦ simp (present, naive, append_new) v
        | inr (now, read) ↦
            let stored = store_record name request partition now part in
            let v' = set-StreamIsValid name state partition stored.1 v (
              store_record-IsValid name request partition now part
                (v.partitions partition part present)) in
            elim (Result-cases stored.0) [
              | inl (e, refused) ↦ simp (present, read, refused, append_new) v'
              | inr (u, accepted) ↦
                  simp (present, read, accepted, append_new)
                    (remember-IsValid name
                      (record state { partitions = set state.partitions partition stored.1 })
                      request partition v')
            ]
      ]
    ]

append_stream-IsValid :
    (clock : Value) (name : String) (request : AppendRequest) (state : StreamState)
    → StreamIsValid name state
    → StreamIsValid name (append_stream clock name request state).1
unfolding append_stream
append_stream-IsValid clock name request state v = elim (Result-cases (admit state request)) [
  | inl (e, refused) ↦ simp (refused, append_stream) v
  | inr ((p, none), fresh) ↦
      simp (fresh, append_stream) (append_new-IsValid clock name request p state v)
  | inr ((p, some receipt), duplicate) ↦ simp (duplicate, append_stream) v
]

-- From a well-formed log `append` leaves a well-formed log, whether it returns or raises.
pub append-LogIsValid :
    (clock : Value) (name : String) (request : AppendRequest) (log : Log)
    → LogIsValid log
    → LogIsValid (append clock name request log).1
unfolding append
append-LogIsValid clock name request log v =
    when_open-keeps LogIsValid (update_stream name (append_stream clock name request)) log v (
      update_stream-LogIsValid name (append_stream clock name request) log
        (append_stream-IsValid clock name request) v)
