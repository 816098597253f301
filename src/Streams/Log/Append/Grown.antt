-- ===== src/Streams/Log/Append/Grown.antt =====
-- `append` of inmemory.py beside the log before.
use mathlib.Core.List.Memᴰ
use mathlib.Core.Path.{subst}
use tori_py.Prelude.Dict
use tori_py.Prelude.{
  ℕ, ◌<◌, String, ◌≡◌, refl, sym, ap, ◌∙◌, inl, inr, none, some, ok, arith, get_elem?, set,
  string_eq, nat_eq, pair_eq, Option-cases, Bool-cases, Result-cases, ◌==◌, [], ◌∷◌,
}
use tori_py.Value.{Value}
use tori_py.Streams.Models.{aware}
use tori_py.Streams.Models.Requests.{AppendRequest}
use tori_py.Streams.Models.Records.{StoredRecord, stored_record}
use tori_py.Streams.Log.{PartitionState, ProducerState, StreamState, Log, update_stream}
use tori_py.Streams.Log.Growth.{
  PartitionGrows, StreamGrows, StreamGrows-refl, StreamGrows-trans, set-StreamGrows, Grows,
  when_open-Grows, update_stream-Grows, PartitionGrows-refl,
}
use tori_py.Streams.Log.Append.{
  check_existing, check_producer, new_record, store_record, remembered, remember_id, remember,
  append_new, admit, append_stream, append,
}

stored_record_same : (r r' : StoredRecord) → stored_record r ≡ ok r' → r' ≡ r
unfolding stored_record
stored_record_same r r' h = ground arith

store_record-PartitionGrows :
    (stream : String) (request : AppendRequest) (partition now : ℕ) (part : PartitionState)
    → PartitionGrows part (store_record stream request partition now part).1
unfolding store_record new_record
store_record-PartitionGrows stream request partition now part =
    let new = new_record stream request partition part now in
    elim (Result-cases (stored_record new)) [
      | inl (e, refused) ↦
          simp (refused, store_record)
            (record {
              next = omega arith;
              earliest = omega arith;
              kept = λ r. inl;
              added = λ r. inl;
            })
      | inr (r, accepted) ↦
          simp (accepted, store_record)
            (record {
              next = omega arith;
              earliest = omega arith;
              kept = λ x m. inl (Memᴰ.append_left (r ∷ []) m);
              added = λ x m. elim (Memᴰ.append_cases part.records m) [
                | inl there ↦ inl there
                | inr last ↦
                    let same : x ≡ new =
                      Memᴰ.eq_of_singleton last ∙ stored_record_same new r accepted in
                    let at_end : x.offset ≡ part.next_offset =
                      ap (λ (y : StoredRecord). y.offset) same in
                    inr (omega (arith, at_end))
              ];
            })
    ]

-- What the check of the publishing id lets through as new.
check_existing-new :
    (request : AppendRequest) (partition id : ℕ) (existing : ProducerState)
    → check_existing request partition (some existing) (some id) ≡ ok none
    → existing.publishing_id < id
unfolding check_existing
check_existing-new request partition id existing h = ground arith

pub check_producer-new :
    (state : StreamState) (request : AppendRequest) (partition id : ℕ) (name : String)
    (existing : ProducerState)
    → check_producer state request partition ≡ ok none
    → request.producer_name ≡ some name
    → request.publishing_id ≡ some id
    → Dict.get state.producers (partition, name) ≡ some existing
    → existing.publishing_id < id
unfolding check_producer
check_producer-new state request partition id name existing h named numbered there =
    check_existing-new request partition id existing
      (simp (named, numbered, there, check_producer) at h)

-- A producer's entry is written over one with a lower publishing id only.
put-StreamGrows :
    (state : StreamState) (key : ℕ × String) (entry : ProducerState)
    → ((p : ProducerState)
        → Dict.get state.producers key ≡ some p
        → p.publishing_id < entry.publishing_id)
    → StreamGrows state (record state { producers = Dict.put state.producers key entry })
put-StreamGrows state key entry higher = record {
  definition = refl;
  partitions = λ i part h. (part, h, PartitionGrows-refl part);
  producers = λ other p there. elim (Bool-cases (key == other)) [
    | inl same ↦ (
      entry,
      rw (Dict.get-put state.producers key other entry, same) refl,
      inr (
          higher p (
            subst (λ k. Dict.get state.producers k ≡ some p)
              (sym ((pair_eq.beq_iff key other).0 same)) there)),
    )
    | inr different ↦
        (p, rw (Dict.get-put state.producers key other entry, different) there, inl refl)
  ];
}

remember-StreamGrows :
    (state : StreamState) (request : AppendRequest) (partition : ℕ)
    → check_producer state request partition ≡ ok none
    → StreamGrows state (remember state request partition).1
unfolding remember remember_id remembered
remember-StreamGrows state request partition new = elim (Option-cases request.producer_name) [
  | inl anonymous ↦ simp (anonymous, remember) (StreamGrows-refl state)
  | inr (name, named) ↦ elim (Option-cases request.publishing_id) [
    | inl missing ↦ simp (named, missing, remember) (StreamGrows-refl state)
    | inr (id, numbered) ↦
        simp (named, numbered, remember)
          (put-StreamGrows state (partition, name) (remembered request partition id)
            (λ p there.
              check_producer-new state request partition id name p new named numbered there))
  ]
]

append_new-StreamGrows :
    (clock : Value) (stream : String) (request : AppendRequest) (partition : ℕ)
    (state : StreamState)
    → check_producer state request partition ≡ ok none
    → StreamGrows state (append_new clock stream request partition state).1
unfolding append_new check_producer
append_new-StreamGrows clock stream request partition state new =
    elim (Option-cases (get_elem? state.partitions partition)) [
      | inl missing ↦ simp (missing, append_new) (StreamGrows-refl state)
      | inr (part, present) ↦ elim (Result-cases (aware clock)) [
        | inl (e, naive) ↦ simp (present, naive, append_new) (StreamGrows-refl state)
        | inr (now, read) ↦
            let stored = store_record stream request partition now part in
            let state' = record state { partitions = set state.partitions partition stored.1 } in
            let grows : StreamGrows state state' =
              set-StreamGrows state partition part stored.1 present
                (store_record-PartitionGrows stream request partition now part) in
            elim (Result-cases stored.0) [
              | inl (e, refused) ↦ simp (present, read, refused, append_new) grows
              | inr (u, accepted) ↦
                  simp (present, read, accepted, append_new)
                    (StreamGrows-trans state state' (remember state' request partition).1 grows
                      (remember-StreamGrows state' request partition new))
            ]
      ]
    ]

admit-new :
    (state : StreamState) (request : AppendRequest) (p : ℕ)
    → admit state request ≡ ok (p, none)
    → check_producer state request p ≡ ok none
unfolding admit
admit-new state request p h = ground arith

append_stream-StreamGrows :
    (clock : Value) (name : String) (request : AppendRequest) (state : StreamState)
    → StreamGrows state (append_stream clock name request state).1
unfolding append_stream
append_stream-StreamGrows clock name request state = elim (Result-cases (admit state request)) [
  | inl (e, refused) ↦ simp (refused, append_stream) (StreamGrows-refl state)
  | inr ((p, none), fresh) ↦
      simp (fresh, append_stream)
        (append_new-StreamGrows clock name request p state (admit-new state request p fresh))
  | inr ((p, some receipt), duplicate) ↦ simp (duplicate, append_stream) (StreamGrows-refl state)
]

pub append-Grows :
    (clock : Value) (name : String) (request : AppendRequest) (log : Log)
    → Grows log (append clock name request log).1
unfolding append
append-Grows clock name request log =
    when_open-Grows (update_stream name (append_stream clock name request)) log (
      update_stream-Grows name (append_stream clock name request) log
        (append_stream-StreamGrows clock name request))
