-- ===== src/Tests/Commits.antt =====
-- A store with one stream, and what its transactions do there.
use tori_py.Prelude.Dict
use tori_py.Prelude.{
  ℕ, if◌then◌else◌, some, contains, ◌≡◌, refl, none, List, [], ◌∷◌, true, false, ok, err, Fresh,
  All, length, ◌++◌, nat_eq, get_elem?, ◌≢◌,
}
use tori_py.Value.{int}
use tori_py.EventSourcing.Errors.{StreamId, Error, cancelled}
use tori_py.EventSourcing.Events.{AppendEvent, CommitResult, stored_event, positive_int}
use tori_py.EventSourcing.Limits.{default_limits}
use tori_py.EventSourcing.Store.{Store, init, position, stream_of}
use tori_py.EventSourcing.Store.Valid.{StateIsValid}
use tori_py.EventSourcing.Store.Transaction.{
  is_active, StagedAppend, Transaction, transaction, enter, append, rolled_back, clear_staged,
  check_append, stage, require_active, check_event_ids, batch_size, validate_event_limits,
  encoded_size,
}
use tori_py.EventSourcing.Store.Transaction.Staged.{
  IsStaged, transaction-IsStaged, append-IsStaged, append_keeps,
}
use tori_py.EventSourcing.Store.Transaction.Kept.{enter-IsStaged}
use tori_py.EventSourcing.Store.Commit.{
  commit, build_committed_events, committed_events, validate_commit, build_batch,
}
use tori_py.EventSourcing.Store.Commit.Checks.{IsCurrent, staged_ids}
use tori_py.EventSourcing.Store.Commit.Batch.{batches}
use tori_py.EventSourcing.Store.Commit.Atomic.{commit_error, commit_lem, commit-IsValid}
use tori_py.EventSourcing.Store.Commit.Conflict.{commit-commit}
use tori_py.EventSourcing.Store.Sessions.{
  Call, begin, entering, appending, committing_with, call_all, new_system, SystemIsValid,
  call_all-IsValid,
}

abbrev account : StreamId
account = record { category = "account"; key = "1" }

abbrev opened : AppendEvent
opened = record {
  encoded = record { event_type = "opened"; schema_version = 1; payload = 1 ∷ [] };
  metadata = record {
    event_id = 11;
    occurred_at = 100;
    correlation_id = none;
    causation_id = none;
    headers = [];
  };
}

abbrev renamed : AppendEvent
renamed = record opened { metadata = record opened.metadata { event_id = 12 } }

-- Two transactions that race for the first version of one stream.
abbrev race : List Call
race =
    begin
    ∷ begin
    ∷ entering 0 false
    ∷ entering 1 false
    ∷ appending 0 account (int 0) (opened ∷ [])
    ∷ appending 1 account (int 0) (renamed ∷ [])
    ∷ committing_with 0 false
    ∷ committing_with 1 false
    ∷ []

call_all-IsValid_example : SystemIsValid (call_all race (new_system default_limits))
call_all-IsValid_example = call_all-IsValid default_limits race

abbrev store : Store
store = init default_limits

abbrev entered : Transaction
entered = (enter false store transaction).1

abbrev filled : Transaction
filled = (append account (int 0) (opened ∷ []) store entered).1

entered-IsStaged : IsStaged default_limits entered
entered-IsStaged =
    enter-IsStaged default_limits false store transaction (transaction-IsStaged default_limits)

append-IsStaged_example :
    IsStaged default_limits filled
    × ((append account (int 0) (opened ∷ []) store entered).0 ≡ ok tt
        → (expected : ℕ) × (position (int 0) ≡ ok expected)
          × (filled.staged
              ≡ entered.staged
                ++ record { stream_id = account; expected_version = expected; events = opened ∷ [] }
                  ∷ []))
    × ((e : Error)
        → (append account (int 0) (opened ∷ []) store entered).0 ≡ err e
        → filled ≡ entered)
unfolding init
append-IsStaged_example =
    append-IsStaged account (int 0) (opened ∷ []) store entered entered-IsStaged

filled-IsStaged : IsStaged default_limits filled
unfolding init
filled-IsStaged = append_keeps account (int 0) (opened ∷ []) store entered entered-IsStaged

abbrev result : CommitResult
result = record {
  events =
      record { stream_id = account; stream_version = 1; global_position = 1; event = opened } ∷ [];
}

commit-result : (commit false filled store).0 ≡ ok result
unfolding commit init enter append check_append stage require_active position check_event_ids
    batch_size validate_event_limits committed_events validate_commit build_committed_events
    build_batch stored_event positive_int stream_of encoded_size clear_staged contains Dict.get
commit-result = refl

commit-cancelled : (commit true filled store).0 ≡ err cancelled
unfolding commit init enter append check_append stage require_active position check_event_ids
    batch_size validate_event_limits committed_events validate_commit build_committed_events
    build_batch stored_event positive_int stream_of encoded_size clear_staged contains Dict.get
commit-cancelled = refl

commit_error_example :
    ((commit true filled store).2 ≡ store)
    × ((commit true filled store).1 ≡ (
        if is_active filled.state
        then clear_staged (record filled { state = rolled_back })
        else filled))
commit_error_example = commit_error true filled store cancelled commit-cancelled

commit_lem_example :
    All (IsCurrent store.state) filled.staged
    × Fresh store.state.event_ids (staged_ids filled.staged)
    × (result.events ≡ batches (length store.state.events) filled.staged)
    × ((commit false filled store).2.state.events ≡ store.state.events ++ result.events)
commit_lem_example = commit_lem false filled store result commit-result

commit-IsValid_example : StateIsValid (commit false filled store).2.state
unfolding init call_all
commit-IsValid_example =
    commit-IsValid false filled store (call_all-IsValid default_limits []).state filled-IsStaged

-- A second transaction, which staged another event at the same version of the same stream.
abbrev rival : Transaction
rival = (append account (int 0) (renamed ∷ []) store entered).1

abbrev filled_append : StagedAppend
filled_append = record { stream_id = account; expected_version = 0; events = opened ∷ [] }

abbrev rival_append : StagedAppend
rival_append = record filled_append { events = renamed ∷ [] }

filled-staged : get_elem? filled.staged 0 ≡ some filled_append
unfolding init enter append check_append stage require_active position check_event_ids batch_size
    validate_event_limits stored_event positive_int stream_of encoded_size contains Dict.get
filled-staged = refl

rival-staged : get_elem? rival.staged 0 ≡ some rival_append
unfolding init enter append check_append stage require_active position check_event_ids batch_size
    validate_event_limits stored_event positive_int stream_of encoded_size contains Dict.get
rival-staged = refl

commit-commit_example : (commit false rival (commit false filled store).2).0 ≢ ok result
unfolding init
commit-commit_example =
    commit-commit false false filled rival store result result 0 0 filled_append rival_append
      filled-IsStaged commit-result filled-staged rival-staged refl refl
