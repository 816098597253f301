-- ===== src/EventSourcing/Aggregate/Apply.antt =====
-- `raise_event` and `_replay` of aggregate.py: the application's events change the state.
pub mod Replay
use tori_py.Prelude.{
  ℕ, ◌+◌, Option, none, some, List, [], ◌∷◌, ◌++◌, Bool, true, ok, err, if◌then◌else◌, nat_eq, ◌==◌,
  not,
}
use tori_py.EventSourcing.Errors.{
  StreamId, stream_id_eq, Fallible, aggregate_replay, aggregate_stream_mismatch, application,
}
use tori_py.EventSourcing.Events.{PendingEvent, RecordedEvent}
use tori_py.EventSourcing.Aggregate.{Aggregate, require_mutable, fault_aggregate, is_empty}

-- `self._stream_id or page[0].stream_id`
unfoldable pub expected_stream : {Event : Type 0} → Option StreamId → RecordedEvent Event → StreamId
expected_stream none first = first.stream_id
expected_stream (some s) first = s

-- The loop that checks a page's streams and versions.
unfoldable pub check_page :
    {Event : Type 0} → StreamId → ℕ → List (RecordedEvent Event) → Fallible (Unit {0})
check_page stream_id version [] = ok tt
check_page stream_id version (r ∷ page) =
    let rest = check_page stream_id (version + 1) page in
    if r.stream_id == stream_id
    then (if r.stream_version == version then rest else err aggregate_replay)
    else err (aggregate_stream_mismatch stream_id r.stream_id)

module _ {Event : Type 0} {State : Type 0} where
  module _ (apply : Event → State → Bool × State) where
    unfoldable pub raise_event :
        PendingEvent Event → Aggregate Event State → Fallible (Unit {0}) × Aggregate Event State
    raise_event pending a = elim (require_mutable a) [
      | err e ↦ (err e, a)
      | ok _ ↦
          let (raised, s) = apply pending.event a.state in
          if raised
          then (err application, record a { state = s; faulted = true })
          else (ok tt, record a { state = s; pending_events = a.pending_events ++ pending ∷ [] })
    ]

    -- The loop that applies a page's events.
    unfoldable pub apply_page :
        List (RecordedEvent Event)
        → Aggregate Event State
        → Fallible (Unit {0}) × Aggregate Event State
    apply_page [] a = (ok tt, a)
    apply_page (r ∷ page) a =
        let (raised, s) = apply r.event a.state in
        let rest = apply_page page (record a { state = s; version = r.stream_version }) in
        if raised then (err application, record a { state = s; faulted = true }) else rest

    unfoldable pub replay_page :
        List (RecordedEvent Event)
        → Aggregate Event State
        → Fallible (Unit {0}) × Aggregate Event State
    replay_page [] a = (ok tt, a)
    replay_page (r ∷ page) a =
        let stream_id = expected_stream a.stream_id r in
        elim (check_page stream_id (a.version + 1) (r ∷ page)) [
          | err e ↦ (err e, fault_aggregate a)
          | ok _ ↦ apply_page (r ∷ page) (record a { stream_id = some stream_id })
        ]

    unfoldable pub replay :
        List (RecordedEvent Event)
        → Aggregate Event State
        → Fallible (Unit {0}) × Aggregate Event State
    replay page a = elim (require_mutable a) [
      | err e ↦ (err e, a)
      | ok _ ↦
          if not (is_empty a.pending_events) then (err aggregate_replay, a) else replay_page page a
    ]
