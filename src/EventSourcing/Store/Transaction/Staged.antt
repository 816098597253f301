-- ===== src/EventSourcing/Store/Transaction/Staged.antt =====
-- A transaction's counters and sets, beside its staged appends.
use mathlib.Core.List.{append_assoc, append-nil}
use tori_py.Prelude.{
  ℕ, ◌+◌, ◌≤◌, ◌≡◌, ◌≢◌, refl, ap, ◌∙◌, sym, List, [], ◌∷◌, ◌++◌, false, ok, err, arith, length,
  Fresh, push, Fresh-append, Fresh-snoc, Fresh_same, contains, contains-push-nil, nat_eq,
  Result-cases, inl, inr, All, All-append,
}
use tori_py.Value.{Value}
use tori_py.EventSourcing.Errors.{StreamId, stream_id_eq, Error}
use tori_py.EventSourcing.Events.{AppendEvent}
use tori_py.EventSourcing.Limits.{EventSourcingLimits}
use tori_py.EventSourcing.Store.{Store, position}
use tori_py.EventSourcing.Store.Transaction.{
  StagedAppend, Transaction, transaction, clear_staged, check_event_ids, check_append, stage,
  append, require_active,
}
use tori_py.EventSourcing.Store.Transaction.Fits.{
  events_size, staged_size, EventFits, BatchFits, staged_size-snoc, batch_size_lem,
}
use tori_py.EventSourcing.Store.Commit.Checks.{
  ids_of, staged_ids, staged_streams, check_event_ids-Fresh,
}

abbrev pub staged_count : List StagedAppend → ℕ
staged_count [] = 0
staged_count (s ∷ staged) = length s.events + staged_count staged

pub record IsStaged (limits : EventSourcingLimits) (t : Transaction) : Type 0 where
  pub streams : t.staged_streams ≡ staged_streams t.staged
  pub separate : Fresh [] t.staged_streams
  pub ids : t.staged_event_ids ≡ staged_ids t.staged
  pub distinct : Fresh [] t.staged_event_ids
  pub counted : t.staged_event_count ≡ staged_count t.staged
  pub bounded : t.staged_event_count ≤ limits.max_events_per_transaction
  pub measured : t.staged_bytes ≡ staged_size t.staged
  pub fits : t.staged_bytes ≤ limits.max_transaction_bytes
  pub batches : All (BatchFits limits) t.staged

pub transaction-IsStaged : (limits : EventSourcingLimits) → IsStaged limits transaction
transaction-IsStaged limits = record {
  streams = refl;
  separate = tt;
  ids = refl;
  distinct = tt;
  counted = refl;
  bounded = omega arith;
  measured = refl;
  fits = omega arith;
  batches = tt;
}

pub clear_staged-IsStaged :
    (limits : EventSourcingLimits) (t : Transaction) → IsStaged limits (clear_staged t)
unfolding clear_staged
clear_staged-IsStaged limits t = record {
  streams = refl;
  separate = tt;
  ids = refl;
  distinct = tt;
  counted = refl;
  bounded = omega arith;
  measured = refl;
  fits = omega arith;
  batches = tt;
}

staged_streams-snoc :
    (staged : List StagedAppend) (s : StagedAppend)
    → staged_streams (staged ++ s ∷ []) ≡ staged_streams staged ++ s.stream_id ∷ []
staged_streams-snoc [] s = refl
staged_streams-snoc (r ∷ staged) s = ap (◌∷◌ r.stream_id) (staged_streams-snoc staged s)

staged_ids-snoc :
    (staged : List StagedAppend) (s : StagedAppend)
    → staged_ids (staged ++ s ∷ []) ≡ staged_ids staged ++ ids_of s.events
staged_ids-snoc [] s = append-nil (ids_of s.events)
staged_ids-snoc (r ∷ staged) s =
    ap (◌++◌ (ids_of r.events)) (staged_ids-snoc staged s)
    ∙ sym (append_assoc (ids_of r.events) (staged_ids staged) (ids_of s.events))

staged_count-snoc :
    (staged : List StagedAppend) (s : StagedAppend)
    → staged_count (staged ++ s ∷ []) ≡ staged_count staged + length s.events
staged_count-snoc [] s = omega arith
staged_count-snoc (r ∷ staged) s = omega (arith, staged_count-snoc staged s)

-- What `append` has checked when it stages a batch.
pub record Admitted (stream_id : StreamId) (events : List AppendEvent) (store : Store)
    (t : Transaction) (bytes : ℕ) : Type 0 where
  pub active : require_active t ≡ ok tt
  pub absent : contains t.staged_streams stream_id ≡ false
  pub filled : events ≢ []
  pub short : length events ≤ store.limits.max_events_per_append
  pub fresh : Fresh t.staged_event_ids (ids_of events)
  pub bounded : t.staged_event_count + length events ≤ store.limits.max_events_per_transaction
  pub measured : bytes ≡ events_size events
  pub events_fit : All (EventFits store.limits) events
  pub fits : t.staged_bytes + bytes ≤ store.limits.max_transaction_bytes

check_append-Admitted :
    (stream_id : StreamId) (expected_version : Value) (events : List AppendEvent) (store : Store)
    (t : Transaction) (expected bytes : ℕ)
    → check_append stream_id expected_version events store t ≡ ok (expected, bytes)
    → Admitted stream_id events store t bytes
unfolding check_append
check_append-Admitted stream_id expected_version events store t expected bytes h =
    elim (Result-cases (check_event_ids events t.staged_event_ids)) [
      | inl (e, twice) ↦ absurd (ground arith)
      | inr (seen, once) ↦
          let (sum, fit) = batch_size_lem store.limits events 0 bytes (ground arith) in
          record {
            active = ground arith;
            absent = ground arith;
            filled = λ empty. ground arith;
            short = ground arith;
            fresh = (check_event_ids-Fresh events t.staged_event_ids seen once).0;
            bounded = ground arith;
            measured = omega (arith, sum);
            events_fit = fit;
            fits = ground arith;
          }
    ]

stage-IsStaged :
    (stream_id : StreamId) (expected bytes : ℕ) (events : List AppendEvent) (store : Store)
    (t : Transaction)
    → Admitted stream_id events store t bytes
    → IsStaged store.limits t
    → IsStaged store.limits (stage stream_id expected bytes events t)
unfolding stage
stage-IsStaged stream_id expected bytes events store t a v =
    let s : StagedAppend = record {
      stream_id = stream_id;
      expected_version = expected;
      events = events;
    } in
    record {
      streams = ap (λ l. l ++ stream_id ∷ []) v.streams ∙ sym (staged_streams-snoc t.staged s);
      separate = Fresh-snoc t.staged_streams stream_id v.separate a.absent;
      ids = ap (λ l. l ++ ids_of events) v.ids ∙ sym (staged_ids-snoc t.staged s);
      distinct = Fresh-append [] t.staged_event_ids (ids_of events) v.distinct (
          Fresh_same t.staged_event_ids (push t.staged_event_ids []) (ids_of events)
            (λ x. sym (contains-push-nil t.staged_event_ids x)) a.fresh);
      counted = omega (arith, v.counted, staged_count-snoc t.staged s);
      bounded = a.bounded;
      measured = omega (arith, v.measured, a.measured, staged_size-snoc t.staged s);
      fits = a.fits;
      batches =
          All-append (BatchFits store.limits) t.staged (s ∷ []) v.batches
            (record { filled = a.filled; short = a.short; events = a.events_fit }, tt);
    }

append_error :
    (stream_id : StreamId) (expected_version : Value) (events : List AppendEvent) (store : Store)
    (t : Transaction) (e : Error)
    → (append stream_id expected_version events store t).0 ≡ err e
    → (append stream_id expected_version events store t).1 ≡ t
unfolding append
append_error stream_id expected_version events store t e h = ground arith

check_append-position :
    (stream_id : StreamId) (expected_version : Value) (events : List AppendEvent) (store : Store)
    (t : Transaction) (expected bytes : ℕ)
    → check_append stream_id expected_version events store t ≡ ok (expected, bytes)
    → position expected_version ≡ ok expected
unfolding check_append
check_append-position stream_id expected_version events store t expected bytes h = ground arith

append_ok :
    (stream_id : StreamId) (expected_version : Value) (events : List AppendEvent) (store : Store)
    (t : Transaction)
    → (append stream_id expected_version events store t).0 ≡ ok tt
    → (expected : ℕ) × (position expected_version ≡ ok expected)
      × ((append stream_id expected_version events store t).1.staged
          ≡ t.staged
            ++ record { stream_id = stream_id; expected_version = expected; events = events } ∷ [])
unfolding append stage
append_ok stream_id expected_version events store t h =
    elim (Result-cases (check_append stream_id expected_version events store t)) [
      | inl (e, refused) ↦ absurd (ground arith)
      | inr ((expected, bytes), checked) ↦ (
        expected,
        check_append-position stream_id expected_version events store t expected bytes checked,
        simp (checked, append) refl,
      )
    ]

pub append_keeps :
    (stream_id : StreamId) (expected_version : Value) (events : List AppendEvent) (store : Store)
    (t : Transaction)
    → IsStaged store.limits t
    → IsStaged store.limits (append stream_id expected_version events store t).1
unfolding append
append_keeps stream_id expected_version events store t v =
    elim (Result-cases (check_append stream_id expected_version events store t)) [
      | inl (e, refused) ↦ simp (refused, append) v
      | inr ((expected, bytes), checked) ↦
          simp (checked, append)
            (stage-IsStaged stream_id expected bytes events store t
              (check_append-Admitted stream_id expected_version events store t expected bytes
                checked)
              v)
    ]

-- `append` keeps the count of events, the sum of their sizes and the sets of streams and event ids of
-- a transaction in step with its staged appends: these are to distinct streams, none is empty, no
-- event id is there twice, and every event, every batch and both totals are within the limits of the
-- store. When it returns, the batch is the last of the staged appends, with the expected version that was
-- given, and the others are as they were; when it raises, the transaction is as it was.
pub append-IsStaged :
    (stream_id : StreamId) (expected_version : Value) (events : List AppendEvent) (store : Store)
    (t : Transaction)
    → IsStaged store.limits t
    → IsStaged store.limits (append stream_id expected_version events store t).1
      × ((append stream_id expected_version events store t).0 ≡ ok tt
          → (expected : ℕ) × (position expected_version ≡ ok expected)
            × ((append stream_id expected_version events store t).1.staged
                ≡ t.staged
                  ++ record { stream_id = stream_id; expected_version = expected; events = events }
                    ∷ []))
      × ((e : Error)
          → (append stream_id expected_version events store t).0 ≡ err e
          → (append stream_id expected_version events store t).1 ≡ t)
append-IsStaged stream_id expected_version events store t v = (
  append_keeps stream_id expected_version events store t v,
  append_ok stream_id expected_version events store t,
  append_error stream_id expected_version events store t,
)
