-- ===== src/Streams/Leases/View/Methods.antt =====
-- The methods of inmemory.py that touch no lease: they leave leases and cursors as they are.
use tori_py.Prelude.Dict
use tori_py.Prelude.{
  ◌≡◌, refl, String, Result, arith, Option-cases, inl, inr, nat_eq, option_eq, string_eq,
}
use tori_py.Streams.Errors.{Error}
use tori_py.Value.{Value}
use tori_py.Streams.Models.Requests.{StreamDefinition, AppendRequest}
use tori_py.Streams.Models.Positions.{key_eq}
use tori_py.Streams.Log.{Log, StreamState, when_open, update_stream}
use tori_py.Streams.Log.Append.{append, append_stream}
use tori_py.Streams.Log.Trim.{trim, trim_stream}
use tori_py.Streams.Log.Declare.{declare, declare_stream, start, quiesce}
use tori_py.Streams.Leases.View.{held, view}

-- The methods that do not touch a lease.
held-when_open {ℓ} :
    {A : Type ℓ} (body : Log → Result Error A × Log) (log : Log)
    → held (body log).1 ≡ held log
    → held (when_open body log).1 ≡ held log
unfolding when_open
held-when_open body log same = ground arith

held-update_stream {ℓ} :
    {A : Type ℓ} (name : String) (body : StreamState → Result Error A × StreamState) (log : Log)
    → held (update_stream name body log).1 ≡ held log
unfolding update_stream
held-update_stream name body log = elim (Option-cases (Dict.get log.streams name)) [
  | inl missing ↦ simp (missing, update_stream) refl
  | inr (state, there) ↦ simp (there, update_stream) refl
]

pub held-append :
    (clock : Value) (name : String) (request : AppendRequest) (log : Log)
    → held (append clock name request log).1 ≡ held log
unfolding append
held-append clock name request log =
    held-when_open (update_stream name (append_stream clock name request)) log
      (held-update_stream name (append_stream clock name request) log)

pub held-trim :
    (name : String) (partition before_offset : Value) (log : Log)
    → held (trim name partition before_offset log).1 ≡ held log
unfolding trim
held-trim name partition before_offset log =
    held-when_open (update_stream name (trim_stream partition before_offset)) log
      (held-update_stream name (trim_stream partition before_offset) log)

pub held-declare_stream :
    (definition : StreamDefinition) (log : Log) → held (declare_stream definition log).1 ≡ held log
unfolding declare_stream declare
held-declare_stream definition log = held-when_open (declare definition) log (ground arith)

pub view-start : (log : Log) → view (start log).1 ≡ view log
unfolding start when_open
view-start log = ground arith

pub view-quiesce : (log : Log) → view (quiesce log) ≡ view log
unfolding quiesce
view-quiesce log = refl
