-- ===== src/EventSourcing/Aggregate/Lifecycle.antt =====
-- Any sequence of the operations of aggregate.py, the ones that raise among them.
use tori_py.Prelude.{
  ℕ, ◌+◌, ◌≡◌, refl, none, some, List, [], ◌∷◌, Bool, true, err, arith, Bool-cases, Result-cases,
  Option-cases, inl, inr, ap, ◌∙◌,
}
use tori_py.EventSourcing.Errors.{StreamId, aggregate_faulted}
use tori_py.EventSourcing.Events.{PendingEvent, RecordedEvent}
use tori_py.EventSourcing.Aggregate.{
  PreparedCommit, Aggregate, require_mutable, is_empty, owned_enlistment,
}
use tori_py.EventSourcing.Aggregate.Apply.{
  raise_event, apply_page, expected_stream, check_page, replay_page, replay,
}
use tori_py.EventSourcing.Aggregate.Commit.{
  mark_committed, same_commit, release, fault, enlist, prepare_commit, check_enlist, check_prepare,
}
use tori_py.EventSourcing.Aggregate.Commit.Valid.{
  AggregateIsValid, released-IsValid, unlocked, enlist-IsValid, prepare_commit-IsValid,
  mark_committed-IsValid, release-IsValid, fault-IsValid,
}

module _ (Event : Type 0) (State : Type 0) where
  pub data Action : Type 0 where
    raising : PendingEvent Event → Action
    replaying : List (RecordedEvent Event) → Action
    enlisting : ℕ → StreamId → List (PendingEvent Event) → Action
    preparing : ℕ → ℕ → List (PendingEvent Event) → ℕ → Action
    marking : PreparedCommit Event State → Action
    releasing : ℕ → Action
    faulting : ℕ → Action

module _ {Event : Type 0} {State : Type 0} (apply : Event → State → Bool × State)
    (event_equal : PendingEvent Event → PendingEvent Event → Bool) where
  -- The aggregate after one call, whether it returns or raises.
  unfoldable pub perform : Action Event State → Aggregate Event State → Aggregate Event State
  perform (raising p) a = (raise_event apply p a).1
  perform (replaying page) a = (replay apply page a).1
  perform (enlisting owner sid events) a = (enlist event_equal owner sid events a).1
  perform (preparing identity owner events version) a =
      (prepare_commit event_equal identity owner events version a).1
  perform (marking p) a = (mark_committed p a).1
  perform (releasing owner) a = (release owner a).1
  perform (faulting owner) a = (fault owner a).1

  unfoldable pub perform_all :
      List (Action Event State) → Aggregate Event State → Aggregate Event State
  perform_all [] a = a
  perform_all (x ∷ actions) a = perform_all actions (perform x a)

  raise_event-IsValid :
      (p : PendingEvent Event) (a : Aggregate Event State)
      → AggregateIsValid event_equal a
      → AggregateIsValid event_equal (raise_event apply p a).1
  unfolding raise_event
  raise_event-IsValid p a v = elim (Result-cases (require_mutable a)) [
    | inl (e, refused) ↦ simp (refused, raise_event) v
    | inr (_, mutable) ↦
        let (unowned, unprepared, _) = unlocked event_equal a v mutable in
        released-IsValid event_equal _ (ground arith) (ground arith)
  ]

  apply_page_unlocked :
      (page : List (RecordedEvent Event)) (a : Aggregate Event State)
      → a.enlistment ≡ none
      → a.prepared_commit ≡ none
      → ((apply_page apply page a).1.enlistment ≡ none)
        × ((apply_page apply page a).1.prepared_commit ≡ none)
  unfolding apply_page
  apply_page_unlocked [] a unowned unprepared = (unowned, unprepared)
  apply_page_unlocked (r ∷ page) a unowned unprepared =
      let s = (apply r.event a.state).1 in
      let ih =
        apply_page_unlocked page (record a { state = s; version = r.stream_version }) unowned
          unprepared in
      (ground arith, ground arith)

  replay_page_unlocked :
      (page : List (RecordedEvent Event)) (a : Aggregate Event State)
      → a.enlistment ≡ none
      → a.prepared_commit ≡ none
      → ((replay_page apply page a).1.enlistment ≡ none)
        × ((replay_page apply page a).1.prepared_commit ≡ none)
  unfolding replay_page
  replay_page_unlocked [] a unowned unprepared = (unowned, unprepared)
  replay_page_unlocked (r ∷ page) a unowned unprepared =
      let sid = expected_stream a.stream_id r in
      let b : Aggregate Event State = record a { stream_id = some sid } in
      let ih = apply_page_unlocked (r ∷ page) b unowned unprepared in
      elim (Result-cases (check_page sid (a.version + 1) (r ∷ page))) [
        | inl (e, wrong) ↦ simp (wrong, replay_page) (unowned, unprepared)
        | inr (_, checked) ↦ simp (checked, replay_page) ih
      ]

  replay-IsValid :
      (page : List (RecordedEvent Event)) (a : Aggregate Event State)
      → AggregateIsValid event_equal a
      → AggregateIsValid event_equal (replay apply page a).1
  unfolding replay
  replay-IsValid page a v = elim (Result-cases (require_mutable a)) [
    | inl (e, refused) ↦ simp (refused, replay) v
    | inr (_, mutable) ↦
        let (unowned, unprepared, _) = unlocked event_equal a v mutable in
        elim (Bool-cases (is_empty a.pending_events)) [
          | inr pending ↦ simp (mutable, pending, replay) v
          | inl idle ↦
              let (u, n) = replay_page_unlocked page a unowned unprepared in
              simp (mutable, idle, replay) (released-IsValid event_equal _ u n)
        ]
  ]

  pub perform-IsValid :
      (x : Action Event State) (a : Aggregate Event State)
      → AggregateIsValid event_equal a
      → AggregateIsValid event_equal (perform x a)
  unfolding perform
  perform-IsValid (raising p) a v = raise_event-IsValid p a v
  perform-IsValid (replaying page) a v = replay-IsValid page a v
  perform-IsValid (enlisting owner sid events) a v = enlist-IsValid event_equal owner sid events a v
  perform-IsValid (preparing i owner events n) a v =
      prepare_commit-IsValid event_equal i owner events n a v
  perform-IsValid (marking p) a v = mark_committed-IsValid event_equal p a v
  perform-IsValid (releasing owner) a v = release-IsValid event_equal owner a v
  perform-IsValid (faulting owner) a v = fault-IsValid event_equal owner a v

  -- Any sequence of calls takes a well-formed aggregate to a well-formed one: an enlisted aggregate is
  -- not faulted, has pending events, equal to the enlisted ones, and the enlisted stream as its own; a
  -- prepared commit has the pending events and the version that they lead to, and needs an enlistment.
  pub perform_all-IsValid :
      (actions : List (Action Event State)) (a : Aggregate Event State)
      → AggregateIsValid event_equal a
      → AggregateIsValid event_equal (perform_all actions a)
  unfolding perform_all
  perform_all-IsValid [] a v = v
  perform_all-IsValid (x ∷ actions) a v =
      perform_all-IsValid actions (perform x a) (perform-IsValid x a v)

  locked :
      (x : Action Event State) (a : Aggregate Event State)
      → require_mutable a ≡ err aggregate_faulted
      → a.enlistment ≡ none
      → a.prepared_commit ≡ none
      → perform x a ≡ a
  unfolding perform raise_event replay enlist check_enlist prepare_commit check_prepare
      mark_committed same_commit release fault owned_enlistment
  locked (raising p) a f u n = ground arith
  locked (replaying page) a f u n = ground arith
  locked (enlisting owner sid events) a f u n = ground arith
  locked (preparing i owner events k) a f u n = ground arith
  locked (marking p) a f u n = ground arith
  locked (releasing owner) a f u n = ground arith
  locked (faulting owner) a f u n = ground arith

  -- No sequence of calls changes a well-formed aggregate that is faulted: it must be loaded again.
  pub perform_all_faulted :
      (actions : List (Action Event State)) (a : Aggregate Event State)
      → AggregateIsValid event_equal a
      → a.faulted ≡ true
      → perform_all actions a ≡ a
  unfolding perform_all require_mutable
  perform_all_faulted [] a v f = refl
  perform_all_faulted (x ∷ actions) a v f = elim (Option-cases a.enlistment) [
    | inl unowned ↦
        ap (perform_all actions) (locked x a (ground arith) unowned (v.free unowned))
        ∙ perform_all_faulted actions a v f
    | inr (e, owned) ↦ absurd (ground (arith, v.usable e owned))
  ]
