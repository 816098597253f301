-- ===== src/Streams/Log/Guards.antt =====
-- The guards of the log's methods, where they let a call pass, and what a passed guard says.
use tori_py.Prelude.Dict
use tori_py.Prelude.{
  ℕ, zero, suc, ◌≤◌, ◌<◌, String, ◌≡◌, some, arith, Result, ok, get_elem?, string_eq, false,
}
use tori_py.Value.{int}
use tori_py.Streams.Models.{positive}
use tori_py.Streams.Errors.{Error}
use tori_py.Streams.Models.Requests.{StreamDefinition}
use tori_py.Streams.Log.{
  when_open, update_stream, PartitionState, StreamState, Log, require_open, stream_state,
  partition_state, validate_read,
}

pub require_open_lem : (log : Log) → log.closed ≡ false → require_open log ≡ ok tt
unfolding require_open
require_open_lem log h = ground arith

pub stream_state_lem :
    (log : Log) (name : String) (state : StreamState)
    → Dict.get log.streams name ≡ some state
    → stream_state log name ≡ ok state
unfolding stream_state
stream_state_lem log name state h = ground arith

pub partition_state_lem :
    (state : StreamState) (i : ℕ) (part : PartitionState)
    → get_elem? state.partitions i ≡ some part
    → partition_state state (int i) ≡ ok part
unfolding partition_state
partition_state_lem state i part h = ground arith

pub validate_read_lem :
    (definition : StreamDefinition) (n k : ℕ)
    → 0 < k
    → k ≤ definition.limits.max_read_records
    → validate_read definition (int n) (int k) ≡ ok (n, k)
unfolding validate_read
validate_read_lem definition n zero positive fits = absurd (omega arith)
validate_read_lem definition n (suc k) positive fits = ground arith

pub when_open_lem {ℓ} :
    {A : Type ℓ} (body : Log → Result Error A × Log) (log : Log)
    → log.closed ≡ false
    → when_open body log ≡ body log
unfolding when_open
when_open_lem body log h = ground arith

pub update_stream_lem {ℓ} :
    {A : Type ℓ} (name : String) (body : StreamState → Result Error A × StreamState) (log : Log)
    (state : StreamState)
    → Dict.get log.streams name ≡ some state
    → update_stream name body log
      ≡ ((body state).0, record log { streams = Dict.put log.streams name (body state).1 })
unfolding update_stream
update_stream_lem name body log state h = ground arith
