-- ===== src/EventSourcing/Aggregate/Commit.antt =====
-- `_enlist`, `_prepare_commit`, `_mark_committed`, `_release` and `_fault` of aggregate.py.
pub mod Valid
use tori_py.Prelude.{
  ℕ, ◌+◌, Option, none, some, List, [], ◌∷◌, Bool, true, false, ok, err, ◌>>=◌, ◌>>◌, raise_if,
  if◌then◌else◌, length, nat_eq, ◌==◌, not, ◌&&◌, ◌||◌,
}
use tori_py.EventSourcing.Errors.{
  StreamId, stream_id_eq, Fallible, aggregate_enlisted, aggregate_commit_state,
}
use tori_py.EventSourcing.Events.{PendingEvent}
use tori_py.EventSourcing.Aggregate.{
  PreparedCommit, Aggregate, is_enlisted, require_mutable, check_stream, owned_enlistment, is_empty,
}

-- `==` on two tuples.
unfoldable pub events_equal :
    {Event : Type 0}
    → (PendingEvent Event → PendingEvent Event → Bool)
    → List (PendingEvent Event)
    → List (PendingEvent Event)
    → Bool
events_equal event_equal [] [] = true
events_equal event_equal (a ∷ left) (b ∷ right) =
    let rest = events_equal event_equal left right in event_equal a b && rest
events_equal event_equal _ _ = false

module _ {Event : Type 0} {State : Type 0} where
  -- `self._prepared_commit is prepared`
  unfoldable pub same_commit :
      Option (PreparedCommit Event State)
      → PreparedCommit Event State
      → Fallible (PreparedCommit Event State)
  same_commit none given = err aggregate_commit_state
  same_commit (some own) given =
      if own.identity == given.identity then ok own else err aggregate_commit_state

  unfoldable pub mark_committed :
      PreparedCommit Event State
      → Aggregate Event State
      → Fallible (Unit {0}) × Aggregate Event State
  unfolding same_commit
  mark_committed prepared a = elim (same_commit a.prepared_commit prepared) [
    | err e ↦ (err e, a)
    | ok own ↦ (
      ok tt,
      record a {
        version = own.version;
        pending_events = [];
        enlistment = none;
        prepared_commit = none;
      },
    )
  ]

  unfoldable pub release : ℕ → Aggregate Event State → Fallible (Unit {0}) × Aggregate Event State
  release owner a = elim (owned_enlistment owner a.enlistment) [
    | err e ↦ (err e, a)
    | ok _ ↦ (ok tt, record a { enlistment = none; prepared_commit = none })
  ]

  unfoldable pub fault : ℕ → Aggregate Event State → Fallible (Unit {0}) × Aggregate Event State
  fault owner a = elim (owned_enlistment owner a.enlistment) [
    | err e ↦ (err e, a)
    | ok _ ↦ (ok tt, record a { faulted = true; enlistment = none; prepared_commit = none })
  ]

  module _ (event_equal : PendingEvent Event → PendingEvent Event → Bool) where
    unfoldable pub check_enlist :
        StreamId → List (PendingEvent Event) → Aggregate Event State → Fallible (Unit {0})
    unfolding require_mutable is_empty
    check_enlist stream_id events a =
        require_mutable a
        >> raise_if (is_enlisted a.enlistment) aggregate_enlisted
        >> raise_if (is_empty events || not (events_equal event_equal events a.pending_events))
            aggregate_commit_state
        >> check_stream a.stream_id stream_id

    unfoldable pub enlist :
        ℕ
        → StreamId
        → List (PendingEvent Event)
        → Aggregate Event State
        → Fallible (Unit {0}) × Aggregate Event State
    enlist owner stream_id events a = elim (check_enlist stream_id events a) [
      | err e ↦ (err e, a)
      | ok _ ↦ (
        ok tt,
        record a {
          stream_id = some stream_id;
          enlistment = some (record { owner = owner; stream_id = stream_id; events = events });
          prepared_commit = none;
        },
      )
    ]

    unfoldable pub check_prepare :
        ℕ → List (PendingEvent Event) → ℕ → Aggregate Event State → Fallible (Unit {0})
    unfolding owned_enlistment
    check_prepare owner events version a = do
      e ← owned_enlistment owner a.enlistment
      raise_if
          (not (
            events_equal event_equal events e.events
            && events_equal event_equal events a.pending_events))
          aggregate_commit_state
      raise_if (not (version == a.version + length events)) aggregate_commit_state

    -- `identity` is the identity of the object made here.
    unfoldable pub prepare_commit :
        ℕ
        → ℕ
        → List (PendingEvent Event)
        → ℕ
        → Aggregate Event State
        → Fallible (PreparedCommit Event State) × Aggregate Event State
    prepare_commit identity owner events version a = elim (check_prepare owner events version a) [
      | err e ↦ (err e, a)
      | ok _ ↦
          let prepared : PreparedCommit Event State = record {
            identity = identity;
            owner = owner;
            events = events;
            version = version;
          } in
          (ok prepared, record a { prepared_commit = some prepared })
    ]
