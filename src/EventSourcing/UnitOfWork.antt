-- ===== src/EventSourcing/UnitOfWork.antt =====
-- `EventSourcingUnitOfWork` of repository.py. The transaction, and the context that it lives in, are any
-- implementation of the protocols; an aggregate is named by its identity, its place in `aggregates`.
-- `event_equal` and `append_equal` are Python's `==` on pending and on append events. The calls of one
-- unit of work follow one another.
pub mod Frame
pub mod Settled
pub mod Outcomes
use tori_py.Prelude.{
  map, ℕ, ◌+◌, Option, none, some, List, [], ◌∷◌, ◌++◌, Bool, true, false, ok, err, ◌>>=◌, ◌>>◌,
  raise_if, if◌then◌else◌, length, contains, get_elem?, set, nat_eq, ◌==◌, not, ◌&&◌, ◌||◌,
}
use tori_py.EventSourcing.Errors.{
  StreamId, stream_id_eq, Error, Fallible, optimistic_concurrency, duplicate_event_id, cancelled,
  indeterminate_commit, confirmed_commit_error, confirmed_commit_cleanup, commit_result_mismatch,
  unit_of_work_lifecycle, duplicate_aggregate_save, duplicate_stream_aggregate,
}
use tori_py.EventSourcing.Events.{PendingEvent, AppendEvent, StoredEvent, CommitResult}
use tori_py.EventSourcing.Aggregate.{Aggregate, PreparedCommit, is_enlisted, validate_staging}
use tori_py.EventSourcing.Aggregate.Commit.{enlist, prepare_commit, mark_committed, release, fault}

pub data UnitState : Type 0 where
  new entering active committing rolling_back committed rolled_back faulted : UnitState

pub data Outcome : Type 0 where
  confirmed_commit : CommitResult → Outcome
  confirmed_non_commit : Option Error → Outcome
  indeterminate : Error → Outcome

pub record CommitPlan (Event : Type 0) : Type 0 where
  pub aggregate : ℕ
  pub stream_id : StreamId
  pub expected_version : ℕ
  pub pending : List (PendingEvent Event)
  pub append_events : List AppendEvent

abbrev pub final_version : {Event : Type 0} → CommitPlan Event → ℕ
final_version plan = plan.expected_version + length plan.pending

-- What the unit of work calls of its transaction and of the context; `none` is no `CommitResult`.
pub record EventStoreTransaction (Store : Type 0) : Type 0 where
  pub enter : Store → Fallible (Unit {0}) × Store
  pub exit : Store → Fallible (Unit {0}) × Store
  pub append : StreamId → ℕ → List AppendEvent → Store → Fallible (Unit {0}) × Store
  pub commit : Store → Fallible (Option CommitResult) × Store
  pub rollback : Store → Fallible (Unit {0}) × Store

-- The unit of work, with the aggregates and the store that its calls act on. `next_identity` is that of the
-- next prepared commit.
pub record World (Event : Type 0) (State : Type 0) (Store : Type 0) : Type 0 where
  pub state : UnitState
  pub entered : Bool
  pub plans : List (CommitPlan Event)
  pub commit_result : Option CommitResult
  pub outcome : Option Outcome
  pub aggregates : List (Aggregate Event State)
  pub store : Store
  pub next_identity : ℕ

-- `try`: what is caught, and how it goes on.
abbrev pub attempt :
    {World A B : Type 0}
    → Fallible A × World
    → (Error → World → Fallible B × World)
    → (A → World → Fallible B × World)
    → Fallible B × World
attempt (err e, w) caught next = caught e w
attempt (ok a, w) caught next = next a w

abbrev pub raise : {World A : Type 0} → Error → World → Fallible A × World
raise e w = (err e, w)

-- `_validate_result`: the stored events beside the staged ones of a plan, counted from its version on.
abbrev pub Expected : Type 0
Expected = StreamId × ℕ × AppendEvent

unfoldable pub expected_of : StreamId → ℕ → List AppendEvent → List Expected
expected_of sid version [] = []
expected_of sid version (e ∷ events) = (sid, version + 1, e) ∷ expected_of sid (version + 1) events

unfoldable pub expected : {Event : Type 0} → List (CommitPlan Event) → List Expected
unfolding expected_of
expected [] = []
expected (p ∷ plans) = expected_of p.stream_id p.expected_version p.append_events ++ expected plans

unfoldable pub distinct_ids : List StoredEvent → List ℕ → Bool
distinct_ids [] seen = true
distinct_ids (s ∷ stored) seen =
    let rest = distinct_ids stored (s.event.metadata.event_id ∷ seen) in
    if contains seen s.event.metadata.event_id then false else rest

unfoldable pub contiguous : List StoredEvent → Bool
contiguous [] = true
contiguous (s ∷ []) = true
contiguous (s ∷ t ∷ stored) =
    let rest = contiguous (t ∷ stored) in
    if t.global_position == s.global_position + 1 then rest else false

module _ (append_equal : AppendEvent → AppendEvent → Bool) where
  unfoldable pub matches : List StoredEvent → List Expected → Bool
  matches [] [] = true
  matches (s ∷ stored) ((sid, version, e) ∷ plans) =
      let rest = matches stored plans in
      s.stream_id == sid && (s.stream_version == version && (append_equal s.event e && rest))
  matches _ _ = false

  unfoldable pub validate_result :
      {Event : Type 0} → List (CommitPlan Event) → Option CommitResult → Fallible CommitResult
  unfolding expected matches distinct_ids contiguous
  validate_result plans none = err commit_result_mismatch
  validate_result plans (some result) = do
    raise_if (not (length result.events == length (expected plans))) commit_result_mismatch
    raise_if (not (matches result.events (expected plans))) commit_result_mismatch
    raise_if (not (distinct_ids result.events [])) commit_result_mismatch
    raise_if (not (contiguous result.events)) commit_result_mismatch
    ok result

-- The call, for an aggregate that is enlisted.
unfoldable pub while_enlisted :
    {Event : Type 0} {State : Type 0}
    → (Aggregate Event State → Fallible (Unit {0}) × Aggregate Event State)
    → Aggregate Event State
    → Fallible (Unit {0}) × Aggregate Event State
while_enlisted call a = if is_enlisted a.enlistment then call a else (ok tt, a)

module _ {Event : Type 0} {State : Type 0} {Store : Type 0} where
  unfoldable pub require_active : World Event State Store → Fallible (Unit {0})
  require_active w = elim w.state [ active ↦ ok tt | _ ↦ err unit_of_work_lifecycle ]

  -- A call of an aggregate; Python has no reference to one that is not there.
  abbrev pub on_aggregate :
      {A : Type 0}
      → ℕ
      → (Aggregate Event State → Fallible A × Aggregate Event State)
      → World Event State Store
      → Fallible A × World Event State Store
  on_aggregate i call w = elim (get_elem? w.aggregates i) [
    | none ↦ (err unit_of_work_lifecycle, w)
    | some a ↦ ((call a).0, record w { aggregates = set w.aggregates i (call a).1 })
  ]

  unfoldable pub each :
      (Aggregate Event State → Fallible (Unit {0}) × Aggregate Event State)
      → List (CommitPlan Event)
      → World Event State Store
      → Fallible (Unit {0}) × World Event State Store
  unfolding while_enlisted
  each call [] w = (ok tt, w)
  each call (p ∷ plans) w =
      attempt (on_aggregate p.aggregate (while_enlisted call) w) raise (λ u w'. each call plans w')

  unfoldable pub mark_all :
      List (ℕ × PreparedCommit Event State)
      → World Event State Store
      → Fallible (Unit {0}) × World Event State Store
  mark_all [] w = (ok tt, w)
  mark_all ((i, prepared) ∷ rest) w =
      attempt (on_aggregate i (mark_committed prepared) w) raise (λ u w'. mark_all rest w')

  -- What most failures do: all aggregates of the plans are released or faulted, and the outcome is set.
  unfoldable pub settle :
      {A : Type 0}
      → (Aggregate Event State → Fallible (Unit {0}) × Aggregate Event State)
      → UnitState
      → Outcome
      → Error
      → World Event State Store
      → Fallible A × World Event State Store
  settle call state outcome e w =
      attempt (each call w.plans w) raise
        (λ u w'. (err e, record w' { state = state; outcome = some outcome }))

  module _ (owner : ℕ) where
    -- What `commit` does about an exception of the transaction's `commit`.
    unfoldable pub commit_failed :
        Error → World Event State Store → Fallible CommitResult × World Event State Store
    commit_failed (optimistic_concurrency sid expected actual) w =
        let e = optimistic_concurrency sid expected actual in
        settle (fault owner) rolled_back (confirmed_non_commit (some e)) e w
    commit_failed (duplicate_event_id id) w =
        let e = duplicate_event_id id in
        settle (fault owner) rolled_back (confirmed_non_commit (some e)) e w
    commit_failed cancelled w =
        settle (release owner) rolled_back (confirmed_non_commit (some cancelled)) cancelled w
    commit_failed confirmed_commit_error w =
        settle (release owner) rolled_back (confirmed_non_commit (some confirmed_commit_error))
          confirmed_commit_error w
    commit_failed e w = settle (fault owner) faulted (indeterminate e) e w

    module _ (transaction : EventStoreTransaction Store) where
      abbrev pub on_store :
          {A : Type 0}
          → (Store → Fallible A × Store)
          → World Event State Store
          → Fallible A × World Event State Store
      on_store call w = ((call w.store).0, record w { store = (call w.store).1 })

      -- `__aenter__`
      unfoldable pub enter_unit :
          World Event State Store → Fallible (Unit {0}) × World Event State Store
      enter_unit w = elim w.state [
        | new ↦
            attempt (on_store transaction.enter (record w { state = entering }))
              (λ e w'. (
                err e,
                record w' { state = rolled_back; outcome = some (confirmed_non_commit (some e)) },
              ))
              (λ u w'. (ok tt, record w' { entered = true; state = active }))
        | _ ↦ (err unit_of_work_lifecycle, w)
      ]

      -- `_rollback`
      unfoldable pub roll_back :
          Option Error → World Event State Store → Fallible (Unit {0}) × World Event State Store
      roll_back cause w =
          attempt (on_store transaction.rollback (record w { state = rolling_back }))
            (λ e.
              settle (fault owner) faulted
                (confirmed_non_commit (some (elim cause [ none ↦ e | some c ↦ c ]))) e)
            (λ u w'. attempt (each (release owner) w'.plans w') raise (λ v w''. (
              ok tt,
              record w'' { state = rolled_back; outcome = some (confirmed_non_commit cause) },
            )))

      -- `rollback`
      unfoldable pub rollback :
          World Event State Store → Fallible (Unit {0}) × World Event State Store
      rollback w = elim (require_active w) [ err e ↦ (err e, w) | ok _ ↦ roll_back none w ]

      -- `_rollback_and_fault`, and the `raise` after it.
      unfoldable pub rollback_and_fault :
          {A : Type 0} → Error → World Event State Store → Fallible A × World Event State Store
      rollback_and_fault cause w =
          attempt (on_store transaction.rollback w)
            (λ e. settle (fault owner) faulted (confirmed_non_commit (some cause)) e)
            (λ u. settle (fault owner) faulted (confirmed_non_commit (some cause)) cause)

      -- `__aexit__`; `error` is what the block raised.
      unfoldable pub close_context :
          World Event State Store → Fallible (Unit {0}) × World Event State Store
      close_context w =
          attempt (on_store transaction.exit w)
            (λ e w'. elim w'.state [
              | committed ↦
                  (err (elim w'.commit_result [ none ↦ e | some r ↦ confirmed_commit_cleanup ]), w')
              | _ ↦ (err e, w')
            ])
            (λ u w'. (ok tt, w'))

      unfoldable pub exit_active :
          Option Error → World Event State Store → Fallible (Unit {0}) × World Event State Store
      exit_active error w =
          attempt (roll_back error w)
            (λ e w'. attempt (each (fault owner) w'.plans w') raise (λ u w''.
              (err e, record w'' { state = faulted; store = (transaction.exit w''.store).1 })))
            (λ u. close_context)

      unfoldable pub exit_unit :
          Option Error → World Event State Store → Fallible (Unit {0}) × World Event State Store
      exit_unit error w = if not w.entered then (ok tt, w) else (elim w.state [
        | committing ↦ (err unit_of_work_lifecycle, w)
        | rolling_back ↦ (err unit_of_work_lifecycle, w)
        | active ↦ exit_active error w
        | _ ↦ close_context w
      ])

      module _ (event_equal : PendingEvent Event → PendingEvent Event → Bool)
          (append_equal : AppendEvent → AppendEvent → Bool) where
        -- The aggregates of the plans, prepared, each with its identity.
        unfoldable pub prepare_all :
            List (CommitPlan Event)
            → World Event State Store
            → Fallible (List (ℕ × PreparedCommit Event State)) × World Event State Store
        prepare_all [] w = (ok [], w)
        prepare_all (p ∷ plans) w =
            attempt
              (on_aggregate p.aggregate
                (prepare_commit event_equal w.next_identity owner p.pending (final_version p))
                (record w { next_identity = w.next_identity + 1 }))
              raise
              (λ prepared w'.
                attempt (prepare_all plans w') raise
                  (λ rest w''. (ok ((p.aggregate, prepared) ∷ rest), w'')))

        -- After `transaction.commit` has returned.
        unfoldable pub confirm :
            List (ℕ × PreparedCommit Event State)
            → Option CommitResult
            → World Event State Store
            → Fallible CommitResult × World Event State Store
        confirm prepared answer w = elim (validate_result append_equal w.plans answer) [
          | err e ↦ settle (fault owner) faulted (indeterminate e) e w
          | ok result ↦
              attempt
                (mark_all prepared (record w {
                  commit_result = some result;
                  outcome = some (confirmed_commit result);
                }))
                raise (λ u w'. (ok result, record w' { state = committed }))
        ]

        unfoldable pub commit :
            World Event State Store → Fallible CommitResult × World Event State Store
        commit w = elim (require_active w) [
          | err e ↦ (err e, w)
          | ok _ ↦
              attempt (prepare_all w.plans (record w { state = committing })) rollback_and_fault
                (λ prepared w'.
                  attempt (on_store transaction.commit w') commit_failed (confirm prepared))
        ]

        -- `_aggregates` and `_streams` hold the identities and the streams of the plans.
        unfoldable pub check_stage : ℕ → StreamId → World Event State Store → Fallible (Unit {0})
        check_stage i sid w =
            require_active w
            >> raise_if (contains (map (λ p. p.aggregate) w.plans) i) duplicate_aggregate_save
            >> raise_if (contains (map (λ p. p.stream_id) w.plans) sid)
                (duplicate_stream_aggregate sid)

        unfoldable pub validate_stage :
            ℕ → StreamId → World Event State Store → Fallible (Unit {0}) × World Event State Store
        validate_stage i sid w = elim (check_stage i sid w) [
          | err e ↦ (err e, w)
          | ok _ ↦ on_aggregate i (λ a. (validate_staging sid a, a)) w
        ]

        -- `aggregate.version`
        unfoldable pub version_of : ℕ → World Event State Store → ℕ
        version_of i w = elim (get_elem? w.aggregates i) [ none ↦ 0 | some a ↦ a.version ]

        unfoldable pub stage :
            ℕ
            → StreamId
            → List (PendingEvent Event)
            → List AppendEvent
            → World Event State Store
            → Fallible (Unit {0}) × World Event State Store
        stage i sid pending append_events w = attempt (validate_stage i sid w) raise (λ u w1.
            attempt (on_aggregate i (enlist event_equal owner sid pending) w1) raise (λ v w2.
              attempt (on_store (transaction.append sid (version_of i w2) append_events) w2)
                (λ e w3. attempt (on_aggregate i (release owner) w3) raise (λ x. raise e))
                (λ x w3. (
                  ok tt,
                  record w3 {
                    plans =
                        w3.plans
                        ++ record {
                          aggregate = i;
                          stream_id = sid;
                          expected_version = version_of i w3;
                          pending = pending;
                          append_events = append_events;
                        }
                          ∷ [];
                  },
                ))))
