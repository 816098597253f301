-- ===== src/EventSourcing/Aggregate/Commit/Valid.antt =====
-- An aggregate's enlistment and prepared commit, beside its pending events.
use tori_py.Prelude.{
  ℕ, ◌+◌, ◌≡◌, ◌≢◌, refl, ap, ◌∙◌, none, some, List, [], ◌∷◌, Bool, true, false, ok, arith, length,
  Bool-cases, Result-cases, Option-cases, inl, inr, nat_eq,
}
use tori_py.EventSourcing.Errors.{StreamId, stream_id_eq}
use tori_py.EventSourcing.Events.{PendingEvent}
use tori_py.EventSourcing.Aggregate.{
  Enlistment, PreparedCommit, Aggregate, new_aggregate, require_mutable, owned_enlistment, is_empty,
}
use tori_py.EventSourcing.Aggregate.Commit.{
  events_equal, mark_committed, same_commit, release, fault, check_enlist, enlist, check_prepare,
  prepare_commit,
}

pub length-events_equal :
    {Event : Type 0} (event_equal : PendingEvent Event → PendingEvent Event → Bool)
    (left right : List (PendingEvent Event))
    → events_equal event_equal left right ≡ true
    → length left ≡ length right
unfolding events_equal
length-events_equal event_equal [] [] h = refl
length-events_equal event_equal [] (b ∷ right) h = absurd (ground arith)
length-events_equal event_equal (a ∷ left) [] h = absurd (ground arith)
length-events_equal event_equal (a ∷ left) (b ∷ right) h = elim (Bool-cases (event_equal a b)) [
  | inl same ↦ omega (arith, length-events_equal event_equal left right (ground arith))
  | inr other ↦ absurd (ground arith)
]

pending-filled :
    {Event : Type 0} (event_equal : PendingEvent Event → PendingEvent Event → Bool)
    (events pending : List (PendingEvent Event))
    → events_equal event_equal events pending ≡ true
    → is_empty events ≡ false
    → pending ≢ []
unfolding events_equal is_empty
pending-filled event_equal [] pending same filled empty = ground arith
pending-filled event_equal (e ∷ events) [] same filled empty = ground arith
pending-filled event_equal (e ∷ events) (p ∷ pending) same filled empty = ground arith

module _ {Event : Type 0} {State : Type 0}
    (event_equal : PendingEvent Event → PendingEvent Event → Bool) where
  pub record AggregateIsValid (a : Aggregate Event State) : Type 0 where
    pub free : a.enlistment ≡ none → a.prepared_commit ≡ none
    pub usable : (e : Enlistment Event State) → a.enlistment ≡ some e → a.faulted ≡ false
    pub sealed :
        (e : Enlistment Event State)
        → a.enlistment ≡ some e
        → (events_equal event_equal e.events a.pending_events ≡ true)
          × (a.stream_id ≡ some e.stream_id)
          × (a.pending_events ≢ [])
    pub prepared :
        (p : PreparedCommit Event State)
        → a.prepared_commit ≡ some p
        → (events_equal event_equal p.events a.pending_events ≡ true)
          × (p.version ≡ a.version + length p.events)

  pub new_aggregate-IsValid : (s : State) → AggregateIsValid (new_aggregate s)
  new_aggregate-IsValid s = record {
    free = λ h. refl;
    usable = λ e h. absurd (ground arith);
    sealed = λ e h. absurd (ground arith);
    prepared = λ p h. absurd (ground arith);
  }

  -- An aggregate without an enlistment and a prepared commit.
  pub released-IsValid :
      (a : Aggregate Event State)
      → a.enlistment ≡ none
      → a.prepared_commit ≡ none
      → AggregateIsValid a
  released-IsValid a no_enlistment no_commit = record {
    free = λ h. no_commit;
    usable = λ e h. absurd (ground arith);
    sealed = λ e h. absurd (ground arith);
    prepared = λ p h. absurd (ground arith);
  }

  -- An operation whose guard is that the aggregate has no enlistment.
  pub unlocked :
      (a : Aggregate Event State)
      → AggregateIsValid a
      → require_mutable a ≡ ok tt
      → (a.enlistment ≡ none) × (a.prepared_commit ≡ none) × (a.faulted ≡ false)
  unfolding require_mutable
  unlocked a v h = elim (Option-cases a.enlistment) [
    | inl unowned ↦ (unowned, v.free unowned, ground arith)
    | inr (e, owned) ↦ absurd (ground arith)
  ]

  check_enlist_lem :
      (stream_id : StreamId) (events : List (PendingEvent Event)) (a : Aggregate Event State)
      → check_enlist event_equal stream_id events a ≡ ok tt
      → (require_mutable a ≡ ok tt)
        × (events_equal event_equal events a.pending_events ≡ true)
        × (is_empty events ≡ false)
  unfolding check_enlist
  check_enlist_lem stream_id events a h = (ground arith, ground arith, ground arith)

  check_prepare_lem :
      (owner : ℕ) (events : List (PendingEvent Event)) (version : ℕ) (a : Aggregate Event State)
      → check_prepare event_equal owner events version a ≡ ok tt
      → (a.enlistment ≢ none)
        × (events_equal event_equal events a.pending_events ≡ true)
        × (version ≡ a.version + length events)
  unfolding check_prepare owned_enlistment
  check_prepare_lem owner events version a h = (λ unowned. ground arith, ground arith, ground arith)

  pub enlist-IsValid :
      (owner : ℕ) (stream_id : StreamId) (events : List (PendingEvent Event))
      (a : Aggregate Event State)
      → AggregateIsValid a
      → AggregateIsValid (enlist event_equal owner stream_id events a).1
  unfolding enlist
  enlist-IsValid owner stream_id events a v =
      elim (Result-cases (check_enlist event_equal stream_id events a)) [
        | inl (e, refused) ↦ simp (refused, enlist) v
        | inr (_, checked) ↦
            simp (checked, enlist)
              (let (mutable, same, filled) = check_enlist_lem stream_id events a checked in
                let (_, _, sound) = unlocked a v mutable in
                record {
                  free = λ h. refl;
                  usable = λ e h. sound;
                  sealed = λ e h. (
                    ground arith,
                    ground arith,
                    pending-filled event_equal events a.pending_events same filled,
                  );
                  prepared = λ p h. absurd (ground arith);
                })
      ]

  pub prepare_commit-IsValid :
      (identity owner : ℕ) (events : List (PendingEvent Event)) (version : ℕ)
      (a : Aggregate Event State)
      → AggregateIsValid a
      → AggregateIsValid (prepare_commit event_equal identity owner events version a).1
  unfolding prepare_commit
  prepare_commit-IsValid identity owner events version a v =
      elim (Result-cases (check_prepare event_equal owner events version a)) [
        | inl (e, refused) ↦ simp (refused, prepare_commit) v
        | inr (_, checked) ↦
            simp (checked, prepare_commit)
              (let (owned, same, right) = check_prepare_lem owner events version a checked in
                record {
                  free = λ h. absurd (owned h);
                  usable = v.usable;
                  sealed = v.sealed;
                  prepared = λ p h. (ground arith, ground arith);
                })
      ]

  pub mark_committed-IsValid :
      (p : PreparedCommit Event State) (a : Aggregate Event State)
      → AggregateIsValid a
      → AggregateIsValid (mark_committed p a).1
  unfolding mark_committed
  mark_committed-IsValid p a v = elim (Result-cases (same_commit a.prepared_commit p)) [
    | inl (e, refused) ↦ simp (refused, mark_committed) v
    | inr (own, same) ↦ simp (same, mark_committed) (released-IsValid _ refl refl)
  ]

  pub release-IsValid :
      (owner : ℕ) (a : Aggregate Event State)
      → AggregateIsValid a
      → AggregateIsValid (release owner a).1
  unfolding release
  release-IsValid owner a v = elim (Result-cases (owned_enlistment owner a.enlistment)) [
    | inl (e, refused) ↦ simp (refused, release) v
    | inr (own, same) ↦ simp (same, release) (released-IsValid _ refl refl)
  ]

  pub fault-IsValid :
      (owner : ℕ) (a : Aggregate Event State)
      → AggregateIsValid a
      → AggregateIsValid (fault owner a).1
  unfolding fault
  fault-IsValid owner a v = elim (Result-cases (owned_enlistment owner a.enlistment)) [
    | inl (e, refused) ↦ simp (refused, fault) v
    | inr (own, same) ↦ simp (same, fault) (released-IsValid _ refl refl)
  ]

  -- From a well-formed aggregate, a `_mark_committed` that returns advances the version by the
  -- number of pending events, clears them, the enlistment and the prepared commit, and changes
  -- nothing else.
  pub mark_committed_lem :
      (p : PreparedCommit Event State) (a : Aggregate Event State)
      → AggregateIsValid a
      → (mark_committed p a).0 ≡ ok tt
      → (mark_committed p a).1 ≡ record a {
        version = a.version + length a.pending_events;
        pending_events = [];
        enlistment = none;
        prepared_commit = none;
      }
  unfolding mark_committed same_commit
  mark_committed_lem p a v h = elim (Option-cases a.prepared_commit) [
    | inl missing ↦ absurd (ground arith)
    | inr (own, there) ↦
        let (same, right) = v.prepared own there in
        let length_same = length-events_equal event_equal own.events a.pending_events same in
        elim (Result-cases (same_commit a.prepared_commit p)) [
          | inl (e, refused) ↦ absurd (ground arith)
          | inr (c, found) ↦
              let is_own : c ≡ own = ground arith in
              let counted : c.version ≡ a.version + length a.pending_events =
                ap (λ (q : PreparedCommit Event State). q.version) is_own
                ∙ right
                ∙ ap (λ n. a.version + n) length_same in
              simp (found, mark_committed)
                (ap
                  (λ n. record a {
                    version = n;
                    pending_events = [];
                    enlistment = none;
                    prepared_commit = none;
                  })
                  counted)
        ]
  ]
