-- ===== src/EventSourcing/Store/Commit/Batch.antt =====
-- The events that `_build_committed_events` of store.py makes of the staged appends.
use tori_py.Prelude.{
  ℕ, suc, ◌+◌, ◌≡◌, refl, ap, List, [], ◌∷◌, ◌++◌, false, ok, arith, length, select, ◌==◌, ==_refl,
  nat_eq,
}
use tori_py.Value.{int}
use mathlib.Core.Path.{subst}
use native.Mathlib.Numerals.{add-one}
use tori_py.EventSourcing.Errors.{StreamId, stream_id_eq}
use tori_py.EventSourcing.Events.{AppendEvent, StoredEvent, stored_event}
use tori_py.EventSourcing.Store.Transaction.{StagedAppend}
use tori_py.EventSourcing.Store.Commit.{build_batch, build_committed_events}
use tori_py.EventSourcing.Store.Valid.{Positions, Versions, of_stream}

-- One batch, and all batches, as the commit stores them.
unfoldable pub batch : StreamId → ℕ → ℕ → List AppendEvent → List StoredEvent
batch sid version position [] = []
batch sid version position (e ∷ events) =
    record {
      stream_id = sid;
      stream_version = version + 1;
      global_position = position + 1;
      event = e;
    }
    ∷ batch sid (version + 1) (position + 1) events

unfoldable pub batches : ℕ → List StagedAppend → List StoredEvent
batches position [] = []
batches position (s ∷ staged) =
    batch s.stream_id s.expected_version position s.events
    ++ batches (position + length s.events) staged

stored_event_lem :
    (sid : StreamId) (v p : ℕ) (e : AppendEvent)
    → stored_event sid (int (v + 1)) (int (p + 1)) e
      ≡ ok (record { stream_id = sid; stream_version = v + 1; global_position = p + 1; event = e })
unfolding stored_event
stored_event_lem sid v p e = rw add-one (rw add-one refl)

pub build_batch_lem :
    (sid : StreamId) (v p : ℕ) (events : List AppendEvent)
    → build_batch sid v p events ≡ ok (batch sid v p events)
unfolding build_batch batch
build_batch_lem sid v p [] = refl
build_batch_lem sid v p (e ∷ events) =
    simp (stored_event_lem sid v p e, build_batch_lem sid (v + 1) (p + 1) events)

-- Building the events of a commit never fails.
pub build_committed_events_lem :
    (p : ℕ) (staged : List StagedAppend) → build_committed_events p staged ≡ ok (batches p staged)
unfolding build_committed_events batches
build_committed_events_lem p [] = refl
build_committed_events_lem p (s ∷ staged) = simp (
  build_batch_lem s.stream_id s.expected_version p s.events,
  build_committed_events_lem (p + length s.events) staged,
)

length-batch :
    (sid : StreamId) (v p : ℕ) (events : List AppendEvent)
    → length (batch sid v p events) ≡ length events
unfolding batch
length-batch sid v p [] = refl
length-batch sid v p (e ∷ events) = ap suc (length-batch sid (v + 1) (p + 1) events)

pub Positions-append :
    (n : ℕ) (xs ys : List StoredEvent)
    → Positions n xs
    → Positions (n + length xs) ys
    → Positions n (xs ++ ys)
Positions-append n [] ys h k = subst (λ m. Positions m ys) (omega arith) k
Positions-append n (x ∷ xs) ys h k =
    (h.0, Positions-append (n + 1) xs ys h.1 (subst (λ m. Positions m ys) (omega arith) k))

pub Versions-append :
    (n : ℕ) (xs ys : List StoredEvent)
    → Versions n xs
    → Versions (n + length xs) ys
    → Versions n (xs ++ ys)
Versions-append n [] ys h k = subst (λ m. Versions m ys) (omega arith) k
Versions-append n (x ∷ xs) ys h k =
    (h.0, Versions-append (n + 1) xs ys h.1 (subst (λ m. Versions m ys) (omega arith) k))

batch-Positions :
    (sid : StreamId) (v p : ℕ) (events : List AppendEvent) → Positions p (batch sid v p events)
unfolding batch
batch-Positions sid v p [] = tt
batch-Positions sid v p (e ∷ events) = (refl, batch-Positions sid (v + 1) (p + 1) events)

pub batch-Versions :
    (sid : StreamId) (v p : ℕ) (events : List AppendEvent) → Versions v (batch sid v p events)
unfolding batch
batch-Versions sid v p [] = tt
batch-Versions sid v p (e ∷ events) = (refl, batch-Versions sid (v + 1) (p + 1) events)

pub batches-Positions : (p : ℕ) (staged : List StagedAppend) → Positions p (batches p staged)
unfolding batches
batches-Positions p [] = tt
batches-Positions p (s ∷ staged) =
    Positions-append p (batch s.stream_id s.expected_version p s.events)
      (batches (p + length s.events) staged)
      (batch-Positions s.stream_id s.expected_version p s.events)
      (rw length-batch (batches-Positions (p + length s.events) staged))

pub select-batch_self :
    (sid : StreamId) (v p : ℕ) (events : List AppendEvent)
    → select (of_stream sid) (batch sid v p events) ≡ batch sid v p events
unfolding batch
select-batch_self sid v p [] = refl
select-batch_self sid v p (e ∷ events) =
    ground (arith, ==_refl sid, select-batch_self sid (v + 1) (p + 1) events)

pub select-batch_other :
    (sid other : StreamId) (v p : ℕ) (events : List AppendEvent)
    → (other == sid) ≡ false
    → select (of_stream sid) (batch other v p events) ≡ []
unfolding batch
select-batch_other sid other v p [] h = refl
select-batch_other sid other v p (e ∷ events) h =
    ground (arith, select-batch_other sid other (v + 1) (p + 1) events h)

pub select-append :
    (sid : StreamId) (xs ys : List StoredEvent)
    → select (of_stream sid) (xs ++ ys) ≡ select (of_stream sid) xs ++ select (of_stream sid) ys
select-append sid [] ys = refl
select-append sid (x ∷ xs) ys = ground (arith, select-append sid xs ys)
