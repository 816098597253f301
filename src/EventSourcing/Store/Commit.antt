-- ===== src/EventSourcing/Store/Commit.antt =====
-- `commit` of `_InMemoryTransaction` of store.py: the checks against the committed state, the events
-- with their versions and positions, and the new state, which replaces the old one in one assignment.
pub mod Atomic
pub mod Conflict
pub mod Keeps
pub mod Checks
pub mod Batch
use tori_py.Prelude.Dict
use tori_py.Prelude.Dict.{Dict}
use tori_py.Prelude.{
  ℕ, zero, suc, ◌+◌, Option, none, some, List, [], ◌∷◌, ◌++◌, Bool, true, false, ok, err, ◌>>=◌,
  if◌then◌else◌, length, contains, nat_eq, ◌==◌, map, not,
}
use tori_py.Value.{int}
use tori_py.EventSourcing.Errors.{
  StreamId, stream_id_eq, Fallible, optimistic_concurrency, duplicate_event_id, cancelled,
}
use tori_py.EventSourcing.Events.{AppendEvent, StoredEvent, CommitResult, event_id, stored_event}
use tori_py.EventSourcing.Store.{StoreState, Store, stream_of}
use tori_py.EventSourcing.Store.Transaction.{
  StagedAppend, Transaction, active, committing, committed, rolled_back, require_active,
  clear_staged, check_event_ids,
}

unfoldable pub validate_commit : StoreState → List StagedAppend → List ℕ → Fallible (List ℕ)
validate_commit state [] seen = ok seen
validate_commit state (s ∷ staged) seen =
    let rest = λ (ids : List ℕ). validate_commit state staged ids in
    let actual_version = length (stream_of state.streams s.stream_id) in
    if actual_version == s.expected_version
    then (check_event_ids s.events seen >>= rest)
    else err (optimistic_concurrency s.stream_id s.expected_version actual_version)

-- The inner loop: `offset` events of the batch are done, `global_position` events of the store.
unfoldable pub build_batch : StreamId → ℕ → ℕ → List AppendEvent → Fallible (List StoredEvent)
build_batch stream_id version global_position [] = ok []
build_batch stream_id version global_position (e ∷ events) = do
  stored ← stored_event stream_id (int (version + 1)) (int (global_position + 1)) e
  rest ← build_batch stream_id (version + 1) (global_position + 1) events
  ok (stored ∷ rest)

unfoldable pub build_committed_events : ℕ → List StagedAppend → Fallible (List StoredEvent)
build_committed_events global_position [] = ok []
build_committed_events global_position (s ∷ staged) = do
  batch ← build_batch s.stream_id s.expected_version global_position s.events
  rest ← build_committed_events (global_position + length s.events) staged
  ok (batch ++ rest)

-- `additions.setdefault(event.stream_id, []).append(event)`
unfoldable pub group :
    Dict StreamId (List StoredEvent) → List StoredEvent → Dict StreamId (List StoredEvent)
group additions [] = additions
group additions (e ∷ events) =
    group (Dict.put additions e.stream_id (stream_of additions e.stream_id ++ e ∷ [])) events

-- The loop over `additions.items()`.
unfoldable pub extend :
    Dict StreamId (List StoredEvent)
    → Dict StreamId (List StoredEvent)
    → Dict StreamId (List StoredEvent)
extend streams [] = streams
extend streams ((stream_id, events) ∷ additions) =
    extend (Dict.put streams stream_id (stream_of streams stream_id ++ events)) additions

unfoldable pub stored_id : StoredEvent → ℕ
stored_id e = event_id e.event

unfoldable pub build_store_state : StoreState → List StoredEvent → StoreState
unfolding stored_id
build_store_state state additions = record {
  streams = extend state.streams (group [] additions);
  events = state.events ++ additions;
  event_ids = state.event_ids ++ map stored_id additions;
}

-- The locked block, up to the assignment.
unfoldable pub committed_events : StoreState → List StagedAppend → Fallible (List StoredEvent)
committed_events state staged = validate_commit state staged state.event_ids >>= λ _.
    build_committed_events (length state.events) staged

-- `interrupted` says that the wait for the store's lock was cancelled.
unfoldable pub commit : Bool → Transaction → Store → Fallible CommitResult × Transaction × Store
commit interrupted t store =
    let failed = clear_staged (record t { state = rolled_back }) in
    elim (require_active t) [
      | err e ↦ (err e, t, store)
      | ok _ ↦
          if interrupted
          then (err cancelled, failed, store)
          else elim (committed_events store.state t.staged) [
            | err e ↦ (err e, failed, store)
            | ok events ↦ (
              ok (record { events = events }),
              clear_staged (record t { state = committed }),
              record store { state = build_store_state store.state events },
            )
          ]
    ]
