-- ===== src/Streams/Log/Append/Retry.antt =====
-- `append` called again with the request that it has just taken.
use tori_py.Prelude.Dict
use tori_py.Prelude.{
  String, ◌≡◌, some, arith, ok, Result, inl, inr, Option-cases, Bool-cases, string_eq,
}
use tori_py.Value.{Value}
use tori_py.Streams.Errors.{Error}
use tori_py.Streams.Models.Requests.{AppendRequest, PublishReceipt, deduplicated}
use tori_py.Streams.Log.{StreamState, Log, when_open, update_stream}
use tori_py.Streams.Log.Append.{append_stream, append}
use tori_py.Streams.Log.Append.Duplicates.{HasDistinctNames, append_stream-again}

-- A second block that finds nothing to write leaves the log of the first.
update_stream-again {ℓ} :
    {A : Type ℓ} (name : String) (f g : StreamState → Result Error A × StreamState) (log : Log)
    (r r' : A)
    → ((state : StreamState) → (f state).0 ≡ ok r → g (f state).1 ≡ (ok r', (f state).1))
    → (update_stream name f log).0 ≡ ok r
    → update_stream name g (update_stream name f log).1 ≡ (ok r', (update_stream name f log).1)
unfolding update_stream
update_stream-again name f g log r r' again h = elim (Option-cases (Dict.get log.streams name)) [
  | inl unknown ↦ absurd (ground arith)
  | inr (state, known) ↦
      let done : (f state).0 ≡ ok r = ground arith in
      simp (known, update_stream, Dict.get-put_self, again state done)
        (simp (
          Dict.put_same (Dict.put log.streams name (f state).1) name (f state).1
            (Dict.get-put_self log.streams name (f state).1)))
]

when_open-again {ℓ} :
    {A : Type ℓ} (f g : Log → Result Error A × Log) (log : Log) (r r' : A)
    → (f log).1.closed ≡ log.closed
    → ((f log).0 ≡ ok r → g (f log).1 ≡ (ok r', (f log).1))
    → (when_open f log).0 ≡ ok r
    → when_open g (when_open f log).1 ≡ (ok r', (when_open f log).1)
unfolding when_open
when_open-again f g log r r' same again h = elim (Bool-cases log.closed) [
  | inl closed ↦ absurd (ground arith)
  | inr usable ↦ simp (usable, when_open, same) (again (simp (usable, when_open) at h))
]

closed-update_stream {ℓ} :
    {A : Type ℓ} (name : String) (f : StreamState → Result Error A × StreamState) (log : Log)
    → (update_stream name f log).1.closed ≡ log.closed
unfolding update_stream
closed-update_stream name f log = ground arith

-- When `append` of a request under a producer's name, with distinct header names, has returned a
-- receipt, a repeated `append` of the same request returns the same receipt, marked as
-- deduplicated, whatever the clock says, and leaves the log exactly as it was.
pub append-append :
    (clock clock' : Value) (stream name : String) (request : AppendRequest) (log : Log)
    (receipt : PublishReceipt)
    → HasDistinctNames request.headers
    → request.producer_name ≡ some name
    → (append clock stream request log).0 ≡ ok receipt
    → append clock' stream request (append clock stream request log).1
      ≡ (ok (record receipt { outcome = deduplicated }), (append clock stream request log).1)
unfolding append
append-append clock clock' stream name request log receipt d named h =
    let first = append_stream clock stream request in
    let second = append_stream clock' stream request in
    when_open-again (update_stream stream first) (update_stream stream second) log receipt
      (record receipt { outcome = deduplicated }) (closed-update_stream stream first log)
      (update_stream-again stream first second log receipt
        (record receipt { outcome = deduplicated })
        (λ state. append_stream-again clock clock' stream name request state receipt d named))
      h
