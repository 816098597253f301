-- ===== src/Streams/Log/Append/Seen.antt =====
-- `append` of inmemory.py for a publishing id that the log has seen.
use tori_py.Prelude.Dict
use tori_py.Prelude.{
  ℕ, ◌≤◌, String, ◌≡◌, refl, ap, ◌∙◌, inl, inr, some, none, ok, arith, string_eq, nat_eq, pair_eq,
  Bool-cases, Result-cases,
}
use tori_py.Value.{Value}
use tori_py.Streams.Models.Requests.{AppendRequest}
use tori_py.Streams.Log.{ProducerState, StreamState, Log, when_open, update_stream}
use tori_py.Streams.Log.Guards.{when_open_lem, update_stream_lem}
use tori_py.Streams.Log.Append.{append, append_stream, admit, check_producer, route_partition}
use tori_py.Streams.Log.Append.Grown.{check_producer-new}

admit-routed :
    (state : StreamState) (request : AppendRequest) (p q : ℕ)
    → route_partition state.definition request ≡ ok p
    → admit state request ≡ ok (q, none)
    → check_producer state request p ≡ ok none
unfolding admit
admit-routed state request p q routed h = ground arith

module _ (clock : Value) (stream name : String) (request : AppendRequest) (state : StreamState)
    (p j : ℕ) (existing : ProducerState) (routed : route_partition state.definition request ≡ ok p)
    (named : request.producer_name ≡ some name) (numbered : request.publishing_id ≡ some j)
    (there : Dict.get state.producers (p, name) ≡ some existing)
    (seen : j ≤ existing.publishing_id) where
  append_stream-seen : (append_stream clock stream request state).1 ≡ state
  unfolding append_stream
  append_stream-seen = elim (Result-cases (admit state request)) [
    | inl (e, refused) ↦ simp (refused, append_stream) refl
    | inr ((q, some receipt), duplicate) ↦ simp (duplicate, append_stream) refl
    | inr ((q, none), fresh) ↦
        let above =
          check_producer-new state request p j name existing
            (admit-routed state request p q routed fresh) named numbered there in
        absurd (omega (arith, above, seen))
  ]

  -- Open or closed, the log stays as it was.
  pub append-seen :
      (log : Log)
      → Dict.get log.streams stream ≡ some state
      → (append clock stream request log).1 ≡ log
  unfolding append when_open
  append-seen log known = elim (Bool-cases log.closed) [
    | inl closed ↦ simp (closed, when_open) refl
    | inr usable ↦
        ap (λ r. r.1)
          (when_open_lem (update_stream stream (append_stream clock stream request)) log usable
            ∙ update_stream_lem stream (append_stream clock stream request) log state known)
        ∙ simp (append_stream-seen, Dict.put_same log.streams stream state known)
  ]
