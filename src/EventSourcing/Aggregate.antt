-- ===== src/EventSourcing/Aggregate.antt =====
-- aggregate.py of packages/tori-py-cqrs-event-sourcing-core/src/tori_py_cqrs_event_sourcing_core.
-- `apply` is the application's `_apply`: whether it raises, and the state that it leaves behind.
-- `event_equal` is Python's `==` on two `PendingEvent` values. An owner and a prepared commit are
-- objects, which the code compares by identity; a prepared commit has its identity with it.
pub mod Apply
pub mod Commit
pub mod Lifecycle
use tori_py.Prelude.{
  ℕ, ◌+◌, Option, none, some, List, [], ◌∷◌, ◌++◌, Bool, true, false, ok, err, ◌>>=◌, ◌>>◌,
  raise_if, if◌then◌else◌, length, nat_eq, ◌==◌, not, ◌&&◌, ◌||◌,
}
use tori_py.EventSourcing.Errors.{
  StreamId, stream_id_eq, Error, Fallible, aggregate_faulted, aggregate_enlisted, aggregate_replay,
  aggregate_stream_mismatch, aggregate_commit_state, aggregate_ownership, application,
}
use tori_py.EventSourcing.Events.{PendingEvent, RecordedEvent}

module _ (Event : Type 0) (State : Type 0) where
  pub record Enlistment : Type 0 where
    pub owner : ℕ
    pub stream_id : StreamId
    pub events : List (PendingEvent Event)

  pub record PreparedCommit : Type 0 where
    pub identity : ℕ
    pub owner : ℕ
    pub events : List (PendingEvent Event)
    pub version : ℕ

  pub record Aggregate : Type 0 where
    pub state : State
    pub version : ℕ
    pub stream_id : Option StreamId
    pub pending_events : List (PendingEvent Event)
    pub faulted : Bool
    pub enlistment : Option Enlistment
    pub prepared_commit : Option PreparedCommit

-- The check of the stream that `_enlist` and `_validate_staging` share.
unfoldable pub check_stream : Option StreamId → StreamId → Fallible (Unit {0})
check_stream none stream_id = ok tt
check_stream (some expected) stream_id =
    if expected == stream_id then ok tt else err (aggregate_stream_mismatch expected stream_id)

unfoldable pub is_empty : {Event : Type 0} → List (PendingEvent Event) → Bool
is_empty [] = true
is_empty (e ∷ events) = false

module _ {Event : Type 0} {State : Type 0} where
  -- `__init__`
  abbrev pub new_aggregate : State → Aggregate Event State
  new_aggregate s = record {
    state = s;
    version = 0;
    stream_id = none;
    pending_events = [];
    faulted = false;
    enlistment = none;
    prepared_commit = none;
  }

  abbrev pub is_enlisted : Option (Enlistment Event State) → Bool
  is_enlisted none = false
  is_enlisted (some e) = true

  unfoldable pub require_mutable : Aggregate Event State → Fallible (Unit {0})
  require_mutable a =
      raise_if a.faulted aggregate_faulted >> raise_if (is_enlisted a.enlistment) aggregate_enlisted

  unfoldable pub owned_enlistment :
      ℕ → Option (Enlistment Event State) → Fallible (Enlistment Event State)
  owned_enlistment owner none = err aggregate_ownership
  owned_enlistment owner (some e) = if e.owner == owner then ok e else err aggregate_ownership

  abbrev pub fault_aggregate : Aggregate Event State → Aggregate Event State
  fault_aggregate a = record a { faulted = true }

  unfoldable pub validate_staging : StreamId → Aggregate Event State → Fallible (Unit {0})
  unfolding require_mutable check_stream
  validate_staging stream_id a = require_mutable a >> check_stream a.stream_id stream_id
