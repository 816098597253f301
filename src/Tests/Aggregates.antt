-- ===== src/Tests/Aggregates.antt =====
-- An aggregate that adds numbers up, and refuses zero.
use tori_py.Prelude.{
  ℕ, zero, suc, ◌+◌, ◌≡◌, refl, none, some, List, [], ◌∷◌, Bool, true, false, ok, length, ◌==◌,
  nat_eq, ◌&&◌,
}
use tori_py.EventSourcing.Errors.{StreamId}
use tori_py.EventSourcing.Events.{PendingEvent, RecordedEvent, EventMetadata}
use tori_py.EventSourcing.Aggregate.{
  Aggregate, PreparedCommit, new_aggregate, require_mutable, is_empty, check_stream,
  owned_enlistment,
}
use tori_py.EventSourcing.Aggregate.Apply.{
  replay, replay_page, apply_page, check_page, expected_stream, raise_event,
}
use tori_py.EventSourcing.Aggregate.Apply.Replay.{IsPage, replay_lem}
use tori_py.EventSourcing.Aggregate.Commit.{
  mark_committed, same_commit, enlist, check_enlist, events_equal, prepare_commit, check_prepare,
}
use tori_py.EventSourcing.Aggregate.Commit.Valid.{
  AggregateIsValid, new_aggregate-IsValid, mark_committed_lem,
}
use tori_py.EventSourcing.Aggregate.Lifecycle.{
  Action, raising, replaying, enlisting, preparing, perform, perform_all, perform_all-IsValid,
  perform_all_faulted,
}

abbrev add : ℕ → ℕ → Bool × ℕ
add zero total = (true, total)
add (suc n) total = (false, suc n + total)

abbrev metadata : EventMetadata
metadata = record {
  event_id = 11;
  occurred_at = 100;
  correlation_id = none;
  causation_id = none;
  headers = [];
}

abbrev pending : ℕ → PendingEvent ℕ
pending n = record { event = n; metadata = metadata }

abbrev same_event : PendingEvent ℕ → PendingEvent ℕ → Bool
same_event a b = a.event == b.event && a.metadata.event_id == b.metadata.event_id

abbrev counter : StreamId
counter = record { category = "counter"; key = "1" }

abbrev recorded : ℕ → ℕ → RecordedEvent ℕ
recorded version n = record {
  stream_id = counter;
  stream_version = version;
  global_position = version;
  event_type = "added";
  schema_version = 1;
  event = n;
  metadata = metadata;
}

abbrev fresh : Aggregate ℕ ℕ
fresh = new_aggregate 0

abbrev prepared : PreparedCommit ℕ ℕ
prepared = record { identity = 1; owner = 9; events = pending 4 ∷ []; version = 3 }

-- Two events are replayed, one is raised, enlisted and prepared.
abbrev ready : List (Action ℕ ℕ)
ready =
    replaying (recorded 1 2 ∷ recorded 2 3 ∷ [])
    ∷ raising (pending 4)
    ∷ enlisting 9 counter (pending 4 ∷ [])
    ∷ preparing 1 9 (pending 4 ∷ []) 3
    ∷ []

perform_all-IsValid_example : AggregateIsValid same_event (perform_all add same_event ready fresh)
perform_all-IsValid_example =
    perform_all-IsValid add same_event ready fresh (new_aggregate-IsValid same_event 0)

replay-returns : (replay add (recorded 1 2 ∷ recorded 2 3 ∷ []) fresh).0 ≡ ok tt
unfolding replay replay_page apply_page check_page expected_stream require_mutable is_empty
replay-returns = refl

replay_lem_example :
    IsPage (expected_stream none (recorded 1 2)) 0 (recorded 1 2 ∷ recorded 2 3 ∷ [])
    × ((replay add (recorded 1 2 ∷ recorded 2 3 ∷ []) fresh).1 ≡ record fresh {
      state = 5;
      version = 2;
      stream_id = some (expected_stream none (recorded 1 2));
    })
replay_lem_example = replay_lem add (recorded 1 2) (recorded 2 3 ∷ []) fresh replay-returns

abbrev enlisted : Aggregate ℕ ℕ
enlisted = perform_all add same_event ready fresh

enlisted-IsValid : AggregateIsValid same_event enlisted
enlisted-IsValid =
    perform_all-IsValid add same_event ready fresh (new_aggregate-IsValid same_event 0)

mark_committed-returns : (mark_committed prepared enlisted).0 ≡ ok tt
unfolding mark_committed same_commit perform_all perform replay replay_page apply_page check_page
    expected_stream require_mutable is_empty raise_event enlist check_enlist events_equal
    check_stream prepare_commit check_prepare owned_enlistment
mark_committed-returns = refl

mark_committed_lem_example : (mark_committed prepared enlisted).1 ≡ record enlisted {
  version = enlisted.version + length enlisted.pending_events;
  pending_events = [];
  enlistment = none;
  prepared_commit = none;
}
mark_committed_lem_example =
    mark_committed_lem same_event prepared enlisted enlisted-IsValid mark_committed-returns

-- An event that `_apply` refuses.
abbrev broken : Aggregate ℕ ℕ
broken = perform_all add same_event (raising (pending 0) ∷ []) fresh

broken-faulted : broken.faulted ≡ true
unfolding perform_all perform raise_event require_mutable
broken-faulted = refl

perform_all_faulted_example : perform_all add same_event ready broken ≡ broken
perform_all_faulted_example =
    perform_all_faulted add same_event ready broken
      (perform_all-IsValid add same_event (raising (pending 0) ∷ []) fresh
        (new_aggregate-IsValid same_event 0))
      broken-faulted
