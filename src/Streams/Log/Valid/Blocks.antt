-- ===== src/Streams/Log/Valid/Blocks.antt =====
-- The blocks that all methods share keep what their bodies keep.
use tori_py.Prelude.Dict
use tori_py.Prelude.{
  ℕ, String, ◌∙◌, List, set, get_elem?-set, length-set, inl, inr, string_eq, Option-cases,
  Bool-cases, Result,
}
use tori_py.Streams.Errors.{Error}
use tori_py.Streams.Log.{PartitionState, StreamState, Log, when_open, update_stream}
use tori_py.Streams.Log.Partition.{PartitionIsValid}
use tori_py.Streams.Log.Valid.{PartitionsAreValid, StreamIsValid, LogIsValid}

pub when_open-keeps {ℓ κ} :
    {A : Type ℓ} (P : Log → Type κ) (body : Log → Result Error A × Log) (log : Log)
    → P log
    → P (body log).1
    → P (when_open body log).1
unfolding when_open
when_open-keeps P body log before after = elim (Bool-cases log.closed) [
  | inl closed ↦ simp (closed, when_open) before
  | inr usable ↦ simp (usable, when_open) after
]

-- A stream that an operation replaces keeps the log well formed.
pub put-LogIsValid :
    (log : Log) (name : String) (state : StreamState)
    → LogIsValid log
    → StreamIsValid name state
    → LogIsValid (record log { streams = Dict.put log.streams name state })
put-LogIsValid log name state v s = record {
  streams = Dict.put_keeps StreamIsValid log.streams name state v.streams s;
}

pub update_stream-LogIsValid {ℓ} :
    {A : Type ℓ} (name : String) (body : StreamState → Result Error A × StreamState) (log : Log)
    → ((state : StreamState) → StreamIsValid name state → StreamIsValid name (body state).1)
    → LogIsValid log
    → LogIsValid (update_stream name body log).1
unfolding update_stream
update_stream-LogIsValid name body log keep v = elim (Option-cases (Dict.get log.streams name)) [
  | inl unknown ↦ simp (unknown, update_stream) v
  | inr (state, known) ↦
      simp (known, update_stream)
        (put-LogIsValid log name (body state).1 v (keep state (v.streams name state known)))
]

set-PartitionsAreValid :
    (name : String) (partitions : List PartitionState) (i : ℕ) (part : PartitionState)
    → PartitionsAreValid name partitions
    → PartitionIsValid name i part
    → PartitionsAreValid name (set partitions i part)
set-PartitionsAreValid name partitions i part vs v j w h =
    elim (get_elem?-set partitions i j part w h) [ inl e ↦ rw (← e.0, ← e.1) v | inr e ↦ vs j w e ]

pub set-StreamIsValid :
    (name : String) (state : StreamState) (i : ℕ) (part : PartitionState)
    → StreamIsValid name state
    → PartitionIsValid name i part
    → StreamIsValid name (record state { partitions = set state.partitions i part })
set-StreamIsValid name state i part v p = record {
  named = v.named;
  counted = length-set state.partitions i part ∙ v.counted;
  partitions = set-PartitionsAreValid name state.partitions i part v.partitions p;
  producers = v.producers;
}
