-- ===== src/EventSourcing/Store/Commit/Keeps.antt =====
-- The committed state after `_build_store_state` of store.py.
use mathlib.Core.Path.{subst}
use mathlib.Core.List.{append-nil, append_assoc, map-append}
use tori_py.Prelude.Dict
use tori_py.Prelude.Dict.{Dict, HasDistinctKeys}
use tori_py.Prelude.{
  ℕ, ◌+◌, ◌≡◌, refl, ap, ap₂, ◌∙◌, sym, List, [], ◌∷◌, ◌++◌, false, ok, arith, length, map, ◌==◌,
  Fresh, push, Fresh-append, Fresh_same, contains-push-nil, nat_eq, Bool-cases, inl, inr,
  if◌then◌else◌, >>=-eq-ok, All, select,
}
use tori_py.EventSourcing.Errors.{StreamId, stream_id_eq}
use tori_py.EventSourcing.Events.{AppendEvent, StoredEvent, event_id}
use tori_py.EventSourcing.Store.{StoreState, stream_of}
use tori_py.EventSourcing.Store.Transaction.{StagedAppend}
use tori_py.EventSourcing.Store.Commit.{
  validate_commit, group, extend, stored_id, build_store_state, committed_events,
}
use tori_py.EventSourcing.Store.Commit.Batch.{
  batch, batches, build_committed_events_lem, batches-Positions, Positions-append, Versions-append,
  select-append,
}
use tori_py.EventSourcing.Store.Commit.Checks.{
  ids_of, staged_ids, staged_streams, IsCurrent, validate_commit_lem, batches-Versions,
}
use tori_py.EventSourcing.Store.Valid.{StateIsValid, Positions, Versions, of_stream}

stream_of-put :
    (d : Dict StreamId (List StoredEvent)) (k sid : StreamId) (events : List StoredEvent)
    → stream_of (Dict.put d k events) sid ≡ (if k == sid then events else stream_of d sid)
unfolding stream_of
stream_of-put d k sid events = simp Dict.get-put (ground arith)

-- Grouping collects each stream's events, in order.
stream_of-group :
    (additions : Dict StreamId (List StoredEvent)) (events : List StoredEvent) (sid : StreamId)
    → stream_of (group additions events) sid
      ≡ stream_of additions sid ++ select (of_stream sid) events
unfolding group
stream_of-group additions [] sid = sym (append-nil (stream_of additions sid))
stream_of-group additions (e ∷ events) sid =
    let next = Dict.put additions e.stream_id (stream_of additions e.stream_id ++ e ∷ []) in
    elim (Bool-cases (e.stream_id == sid)) [
      | inl same ↦
          let here = (stream_id_eq.beq_iff e.stream_id sid).0 same in
          stream_of-group next events sid ∙ rw (stream_of-put, same, here, append_assoc) refl
      | inr other ↦ stream_of-group next events sid ∙ rw (stream_of-put, other) refl
    ]

group-HasDistinctKeys :
    (additions : Dict StreamId (List StoredEvent)) (events : List StoredEvent)
    → HasDistinctKeys additions
    → HasDistinctKeys (group additions events)
unfolding group
group-HasDistinctKeys additions [] h = h
group-HasDistinctKeys additions (e ∷ events) h =
    let added = stream_of additions e.stream_id ++ e ∷ [] in
    group-HasDistinctKeys (Dict.put additions e.stream_id added) events
      (Dict.put-HasDistinctKeys additions e.stream_id added h)

stream_of-cons :
    (k sid : StreamId) (events : List StoredEvent) (d : Dict StreamId (List StoredEvent))
    → stream_of ((k, events) ∷ d) sid ≡ (if k == sid then events else stream_of d sid)
unfolding stream_of Dict.get
stream_of-cons k sid events d = ground arith

stream_of-missing :
    (d : Dict StreamId (List StoredEvent)) (sid : StreamId)
    → Dict.has d sid ≡ false
    → stream_of d sid ≡ []
unfolding stream_of
stream_of-missing d sid h = rw (Dict.get-none_of_has d sid h) refl

-- Extending appends each group to its stream.
stream_of-extend :
    (streams additions : Dict StreamId (List StoredEvent)) (sid : StreamId)
    → HasDistinctKeys additions
    → stream_of (extend streams additions) sid ≡ stream_of streams sid ++ stream_of additions sid
unfolding extend Dict.has
stream_of-extend streams [] sid h =
    sym (append-nil (stream_of streams sid))
    ∙ ap (◌++◌ (stream_of streams sid)) (sym (stream_of-missing [] sid refl))
stream_of-extend streams ((k, events) ∷ additions) sid h =
    let next = Dict.put streams k (stream_of streams k ++ events) in
    elim (Bool-cases (k == sid)) [
      | inl same ↦
          let here = (stream_id_eq.beq_iff k sid).0 same in
          stream_of-extend next additions sid h.1
          ∙ rw
              (
                stream_of-put,
                stream_of-cons,
                same,
                ← here,
                stream_of-missing additions k h.0,
                append-nil,
              )
              refl
      | inr other ↦
          stream_of-extend next additions sid h.1 ∙ rw (stream_of-put, stream_of-cons, other) refl
    ]

stored_id-batch :
    (sid : StreamId) (v p : ℕ) (events : List AppendEvent)
    → map stored_id (batch sid v p events) ≡ ids_of events
unfolding batch stored_id
stored_id-batch sid v p [] = refl
stored_id-batch sid v p (e ∷ events) =
    ap (◌∷◌ (event_id e)) (stored_id-batch sid (v + 1) (p + 1) events)

stored_id-batches :
    (p : ℕ) (staged : List StagedAppend) → map stored_id (batches p staged) ≡ staged_ids staged
unfolding batches
stored_id-batches p [] = refl
stored_id-batches p (s ∷ staged) =
    map-append stored_id (batch s.stream_id s.expected_version p s.events)
      (batches (p + length s.events) staged)
    ∙ ap₂ ◌++◌ (stored_id-batch s.stream_id s.expected_version p s.events)
        (stored_id-batches (p + length s.events) staged)

-- What a successful commit writes.
pub committed_events_lem :
    (state : StoreState) (staged : List StagedAppend) (events : List StoredEvent)
    → committed_events state staged ≡ ok events
    → (events ≡ batches (length state.events) staged)
      × All (IsCurrent state) staged
      × Fresh state.event_ids (staged_ids staged)
unfolding committed_events
committed_events_lem state staged events h =
    let (ids, checked, built) = >>=-eq-ok (validate_commit state staged state.event_ids) _ h in
    let (currents, fresh) = validate_commit_lem state staged state.event_ids ids checked in
    (ground (arith, build_committed_events_lem (length state.events) staged), currents, fresh)

-- A stream after a commit: what it was, and its part of the new events.
pub stream_of-build_store_state :
    (state : StoreState) (new : List StoredEvent) (sid : StreamId)
    → stream_of (build_store_state state new).streams sid
      ≡ stream_of state.streams sid ++ select (of_stream sid) new
unfolding build_store_state Dict.has
stream_of-build_store_state state new sid =
    stream_of-extend state.streams (group [] new) sid (group-HasDistinctKeys [] new tt)
    ∙ ap (◌++◌ (stream_of state.streams sid)) (
        stream_of-group [] new sid
        ∙ ap (λ l. l ++ select (of_stream sid) new) (stream_of-missing [] sid refl))

-- A successful commit of staged appends to distinct streams keeps the state well formed.
pub build_store_state-IsValid :
    (state : StoreState) (staged : List StagedAppend) (events : List StoredEvent)
    → StateIsValid state
    → Fresh [] (staged_streams staged)
    → committed_events state staged ≡ ok events
    → StateIsValid (build_store_state state events)
unfolding build_store_state Dict.has
build_store_state-IsValid state staged events v separate h =
    let (built, currents, fresh) = committed_events_lem state staged events h in
    let new = batches (length state.events) staged in
    let appended = stream_of-build_store_state state new in
    rw built (record {
      positions = Positions-append 0 state.events new v.positions (
          subst (λ n. Positions n new) (omega arith)
            (batches-Positions (length state.events) staged));
      streams = λ sid.
          appended sid
          ∙ ap (λ l. l ++ select (of_stream sid) new) (v.streams sid)
          ∙ sym (select-append sid state.events new);
      versions = λ sid. subst (Versions 0) (sym (appended sid)) (
          Versions-append 0 (stream_of state.streams sid) (select (of_stream sid) new)
            (v.versions sid)
            (subst (λ n. Versions n (select (of_stream sid) new)) (omega arith)
              (batches-Versions state sid (length state.events) staged [] currents separate)));
      ids = ap (λ l. l ++ map stored_id new) v.ids ∙ sym (map-append stored_id state.events new);
      distinct = Fresh-append [] state.event_ids (map stored_id new) v.distinct (
          subst (Fresh (push state.event_ids []))
            (sym (stored_id-batches (length state.events) staged))
            (Fresh_same state.event_ids (push state.event_ids []) (staged_ids staged)
              (λ x. sym (contains-push-nil state.event_ids x)) fresh));
    })
