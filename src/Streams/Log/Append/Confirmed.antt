-- ===== src/Streams/Log/Append/Confirmed.antt =====
-- A confirmed `append`, seen from the log.
use tori_py.Prelude.Dict
use tori_py.Prelude.Dict.{Dict}
use tori_py.Prelude.{
  ℕ, String, ◌≡◌, some, none, arith, ok, inl, inr, Option-cases, Result-cases, Bool-cases, false,
  string_eq,
}
use tori_py.Value.{Value}
use tori_py.Streams.Models.Requests.{AppendRequest, PublishReceipt, confirmed}
use tori_py.Streams.Log.{StreamState, Log, when_open, update_stream}
use tori_py.Streams.Log.Append.{admit, append_stream, append}
use tori_py.Streams.Log.Append.Outcome.{Appended, append_new-Appended}
use tori_py.Streams.Log.Append.Duplicates.{admit_parts, check_producer-deduplicated}

pub record Confirmed (clock : Value) (stream : String) (request : AppendRequest) (log : Log)
    (receipt : PublishReceipt) (log' : Log) : Type 0 where
  pub state : StreamState
  pub state' : StreamState
  pub partition : ℕ
  pub usable : log.closed ≡ false
  pub known : Dict.get log.streams stream ≡ some state
  pub outcome : Appended clock stream request partition state receipt state'
  pub same_closed : log'.closed ≡ log.closed
  pub streams : log'.streams ≡ Dict.put log.streams stream state'

append_stream-Appended :
    (clock : Value) (stream : String) (request : AppendRequest) (state : StreamState)
    (receipt : PublishReceipt)
    → (append_stream clock stream request state).0 ≡ ok receipt
    → receipt.outcome ≡ confirmed
    → (p : ℕ) × Appended clock stream request p state receipt
        (append_stream clock stream request state).1
unfolding append_stream
append_stream-Appended clock stream request state receipt h c =
    elim (Result-cases (admit state request)) [
      | inl (e, refused) ↦ absurd (ground arith)
      | inr ((p, some r), duplicate) ↦
          let (_, _, checked) = admit_parts state request p (some r) duplicate in
          absurd (ground (arith, check_producer-deduplicated state request p r checked))
      | inr ((p, none), fresh) ↦ (
        p,
        simp (fresh, append_stream)
            (append_new-Appended clock stream request p state receipt
              (simp (fresh, append_stream) at h)),
      )
    ]

pub append-Confirmed :
    (clock : Value) (stream : String) (request : AppendRequest) (log : Log)
    (receipt : PublishReceipt)
    → (append clock stream request log).0 ≡ ok receipt
    → receipt.outcome ≡ confirmed
    → Confirmed clock stream request log receipt (append clock stream request log).1
unfolding append when_open update_stream
append-Confirmed clock stream request log receipt h c = elim (Bool-cases log.closed) [
  | inl closed ↦ absurd (ground arith)
  | inr usable ↦ elim (Option-cases (Dict.get log.streams stream)) [
    | inl unknown ↦ absurd (ground arith)
    | inr (state, known) ↦
        let (p, a) = append_stream-Appended clock stream request state receipt (ground arith) c in
        record {
          state = state;
          state' = (append_stream clock stream request state).1;
          partition = p;
          usable = usable;
          known = known;
          outcome = a;
          same_closed = ground arith;
          streams = ground arith;
        }
  ]
]
