-- ===== src/EventSourcing/Store/Commit/Atomic.antt =====
-- `commit` of store.py as a whole: what it returns, and what it leaves behind.
use tori_py.Prelude.{
  if◌then◌else◌, ◌≡◌, ap, sym, [], ◌++◌, false, Bool, ok, err, arith, length, nat_eq, Fresh,
  Bool-cases, Result-cases, inl, inr, All,
}
use mathlib.Core.Path.{subst}
use tori_py.EventSourcing.Errors.{stream_id_eq, Error}
use tori_py.EventSourcing.Events.{CommitResult}
use tori_py.EventSourcing.Store.{Store}
use tori_py.EventSourcing.Store.Transaction.{
  is_active, Transaction, active, rolled_back, require_active, clear_staged,
}
use tori_py.EventSourcing.Store.Transaction.Staged.{IsStaged, clear_staged-IsStaged}
use tori_py.EventSourcing.Store.Commit.{build_store_state, committed_events, commit}
use tori_py.EventSourcing.Store.Commit.Checks.{staged_ids, IsCurrent}
use tori_py.EventSourcing.Store.Commit.Keeps.{build_store_state-IsValid, committed_events_lem}
use tori_py.EventSourcing.Store.Commit.Batch.{batches}
use tori_py.EventSourcing.Store.Valid.{StateIsValid}

-- A commit that raises leaves the store as it was; the transaction, if it was active, is then
-- rolled back with nothing staged, and otherwise as it was.
pub commit_error :
    (interrupted : Bool) (t : Transaction) (store : Store) (e : Error)
    → (commit interrupted t store).0 ≡ err e
    → ((commit interrupted t store).2 ≡ store)
      × ((commit interrupted t store).1
          ≡ (if is_active t.state then clear_staged (record t { state = rolled_back }) else t))
unfolding commit require_active
commit_error interrupted t store e h = (ground arith, ground arith)

-- A commit that returns was made by an active transaction that no cancellation stopped; its result is
-- what the checks and the numbering give, and the new state has exactly these events added.
pub commit_ok :
    (interrupted : Bool) (t : Transaction) (store : Store) (result : CommitResult)
    → (commit interrupted t store).0 ≡ ok result
    → (t.state ≡ active)
      × (interrupted ≡ false)
      × (committed_events store.state t.staged ≡ ok result.events)
      × ((commit interrupted t store).2
          ≡ record store { state = build_store_state store.state result.events })
unfolding commit require_active
commit_ok interrupted t store result h = (ground arith, ground arith, ground arith, ground arith)

-- A commit that returns found every staged batch's expected version to be the number of events that
-- its stream had, and no event id stored before; its events are the staged ones in order, each with
-- the next version of its stream and the next global position, and the store's log ends with them.
pub commit_lem :
    (interrupted : Bool) (t : Transaction) (store : Store) (result : CommitResult)
    → (commit interrupted t store).0 ≡ ok result
    → All (IsCurrent store.state) t.staged
      × Fresh store.state.event_ids (staged_ids t.staged)
      × (result.events ≡ batches (length store.state.events) t.staged)
      × ((commit interrupted t store).2.state.events ≡ store.state.events ++ result.events)
unfolding build_store_state
commit_lem interrupted t store result h =
    let (_, _, built, after) = commit_ok interrupted t store result h in
    let (numbered, currents, fresh) =
      committed_events_lem store.state t.staged result.events built in
    (currents, fresh, numbered, ap (λ (s : Store). s.state.events) after)

pub commit-IsStaged :
    (interrupted : Bool) (t : Transaction) (store : Store)
    → IsStaged store.limits t
    → IsStaged store.limits (commit interrupted t store).1
unfolding commit
commit-IsStaged interrupted t store v = elim (Result-cases (require_active t)) [
  | inl (e, closed) ↦ simp (closed, commit) v
  | inr (_, live) ↦ elim (Bool-cases interrupted) [
    | inl cancelled ↦ simp (live, cancelled, commit) (clear_staged-IsStaged store.limits _)
    | inr calm ↦ elim (Result-cases (committed_events store.state t.staged)) [
      | inl (e, failed) ↦ simp (live, calm, failed, commit) (clear_staged-IsStaged store.limits _)
      | inr (events, built) ↦
          simp (live, calm, built, commit) (clear_staged-IsStaged store.limits _)
    ]
  ]
]

-- From a well-formed state, a commit of a transaction that `append` filled leaves a well-formed state:
-- positions and versions without gaps, streams that partition the global order, no id twice.
pub commit-IsValid :
    (interrupted : Bool) (t : Transaction) (store : Store)
    → StateIsValid store.state
    → IsStaged store.limits t
    → StateIsValid (commit interrupted t store).2.state
unfolding commit
commit-IsValid interrupted t store v staged = elim (Result-cases (commit interrupted t store).0) [
  | inl (e, failed) ↦
      subst (λ (s : Store). StateIsValid s.state)
        (sym (commit_error interrupted t store e failed).0) v
  | inr (result, done) ↦
      let (_, _, built, after) = commit_ok interrupted t store result done in
      subst (λ (s : Store). StateIsValid s.state) (sym after)
        (build_store_state-IsValid store.state t.staged result.events v
          (subst (Fresh []) staged.streams staged.separate) built)
]
