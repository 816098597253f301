-- ===== src/Streams/Log/Append/Outcome.antt =====
-- What a successful `append_new` has done.
use tori_py.Prelude.Dict
use tori_py.Prelude.Dict.{Dict}
use tori_py.Prelude.{
  ℕ, ◌+◌, String, ◌≡◌, ap, ◌∙◌, Option, none, some, [], ◌∷◌, ◌++◌, arith, ok, Result-cases,
  Option-cases, inl, inr, get_elem?, set, string_eq, nat_eq, pair_eq,
}
use tori_py.Value.{Value}
use tori_py.Streams.Models.{aware}
use tori_py.Streams.Models.Requests.{AppendRequest, PublishReceipt}
use tori_py.Streams.Models.Records.{stored_record}
use tori_py.Streams.Log.{PartitionState, ProducerState, StreamState}
use tori_py.Streams.Log.Append.{
  new_record, store_record, confirmed_receipt, remembered, remember_id, remember, append_new,
}

-- The partition with its new record.
unfoldable pub appended : String → AppendRequest → ℕ → ℕ → PartitionState → PartitionState
appended stream request partition now part = record part {
  records = part.records ++ new_record stream request partition part now ∷ [];
  next_offset = part.next_offset + 2;
  last_timestamp = some (new_record stream request partition part now).appended_at;
}

abbrev pub by_id :
    Dict (ℕ × String) ProducerState
    → AppendRequest
    → ℕ
    → String
    → Option ℕ
    → Dict (ℕ × String) ProducerState
by_id producers request partition name none = producers
by_id producers request partition name (some id) =
    Dict.put producers (partition, name) (remembered request partition id)

abbrev pub by_name :
    Dict (ℕ × String) ProducerState
    → AppendRequest
    → ℕ
    → Option String
    → Dict (ℕ × String) ProducerState
by_name producers request partition none = producers
by_name producers request partition (some name) =
    by_id producers request partition name request.publishing_id

-- The new record is the partition's last, the receipt confirms it, and the definition and the other
-- partitions are as they were.
pub record Appended (clock : Value) (stream : String) (request : AppendRequest) (partition : ℕ)
    (state : StreamState) (receipt : PublishReceipt) (state' : StreamState) : Type 0 where
  pub part : PartitionState
  pub now : ℕ
  pub present : get_elem? state.partitions partition ≡ some part
  pub read : aware clock ≡ ok now
  pub confirms : receipt ≡ confirmed_receipt request partition
  pub numbered :
      (name : String)
      → request.producer_name ≡ some name
      → (id : ℕ) × (request.publishing_id ≡ some id)
  pub definition : state'.definition ≡ state.definition
  pub partitions :
      state'.partitions
      ≡ set state.partitions partition (appended stream request partition now part)
  pub producers : state'.producers ≡ by_name state.producers request partition request.producer_name

store_record_lem :
    (stream : String) (request : AppendRequest) (partition now : ℕ) (part : PartitionState)
    → (store_record stream request partition now part).0 ≡ ok tt
    → (store_record stream request partition now part).1
      ≡ appended stream request partition now part
unfolding store_record appended stored_record
store_record_lem stream request partition now part h = ground arith

remember_lem :
    (state : StreamState) (request : AppendRequest) (partition : ℕ) (receipt : PublishReceipt)
    → (remember state request partition).0 ≡ ok receipt
    → (receipt ≡ confirmed_receipt request partition)
      × ((name : String)
          → request.producer_name ≡ some name
          → (id : ℕ) × (request.publishing_id ≡ some id))
      × ((remember state request partition).1.definition ≡ state.definition)
      × ((remember state request partition).1.partitions ≡ state.partitions)
      × ((remember state request partition).1.producers
          ≡ by_name state.producers request partition request.producer_name)
unfolding remember remember_id
remember_lem state request partition receipt h = (
  ground arith,
  λ name named. elim (Option-cases request.publishing_id) [
    | inl missing ↦ absurd (ground arith)
    | inr numbered ↦ numbered
  ],
  ground arith,
  ground arith,
  ground arith,
)

-- A successful `append_new` ends in one of its outcomes.
pub append_new-Appended :
    (clock : Value) (stream : String) (request : AppendRequest) (partition : ℕ)
    (state : StreamState) (receipt : PublishReceipt)
    → (append_new clock stream request partition state).0 ≡ ok receipt
    → Appended clock stream request partition state receipt
        (append_new clock stream request partition state).1
unfolding append_new
append_new-Appended clock stream request partition state receipt h =
    elim (Option-cases (get_elem? state.partitions partition)) [
      | inl missing ↦ absurd (ground arith)
      | inr (part, present) ↦ elim (Result-cases (aware clock)) [
        | inl (e, naive) ↦ absurd (ground arith)
        | inr (now, read) ↦
            let stored = store_record stream request partition now part in
            elim (Result-cases stored.0) [
              | inl (e, refused) ↦ absurd (ground arith)
              | inr (u, accepted) ↦
                  let state' = record state {
                    partitions = set state.partitions partition stored.1;
                  } in
                  let (confirms, numbered, same_definition, same_partitions, new_producers) =
                    remember_lem state' request partition receipt
                      (simp (present, read, accepted, append_new) at h) in
                  simp (present, read, accepted, append_new)
                    (record {
                      part = part;
                      now = now;
                      present = present;
                      read = read;
                      confirms = confirms;
                      numbered = numbered;
                      definition = same_definition;
                      partitions =
                          same_partitions
                          ∙ ap (set state.partitions partition)
                              (store_record_lem stream request partition now part accepted);
                      producers = new_producers;
                    })
            ]
      ]
    ]
