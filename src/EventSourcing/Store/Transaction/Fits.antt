-- ===== src/EventSourcing/Store/Transaction/Fits.antt =====
-- The sizes of staged events and the limits on each: what the loops of `append` of store.py check and
-- add up.
use Prim.Native.String.{len}
use tori_py.Prelude.{ℕ, ◌+◌, ◌≤◌, ◌≡◌, ◌≢◌, List, [], ◌∷◌, ◌++◌, ok, arith, length, All}
use tori_py.EventSourcing.Events.{AppendEvent, Headers}
use tori_py.EventSourcing.Limits.{EventSourcingLimits}
use tori_py.EventSourcing.Store.Transaction.{
  StagedAppend, check_headers, validate_event_limits, batch_size, encoded_size,
}

abbrev pub events_size : List AppendEvent → ℕ
events_size [] = 0
events_size (e ∷ events) = encoded_size e + events_size events

abbrev pub staged_size : List StagedAppend → ℕ
staged_size [] = 0
staged_size (s ∷ staged) = events_size s.events + staged_size staged

pub record EventFits (limits : EventSourcingLimits) (e : AppendEvent) : Type 0 where
  pub payload : length e.encoded.payload ≤ limits.max_payload_bytes
  pub few_headers : length e.metadata.headers ≤ limits.max_headers
  pub headers :
      All
        (λ h. (len h.0 ≤ limits.max_header_name_bytes) × (len h.1 ≤ limits.max_header_value_bytes))
        e.metadata.headers

-- One staged append: not empty, not too long, and each of its events within the limits.
pub record BatchFits (limits : EventSourcingLimits) (s : StagedAppend) : Type 0 where
  pub filled : s.events ≢ []
  pub short : length s.events ≤ limits.max_events_per_append
  pub events : All (EventFits limits) s.events

pub staged_size-snoc :
    (staged : List StagedAppend) (s : StagedAppend)
    → staged_size (staged ++ s ∷ []) ≡ staged_size staged + events_size s.events
staged_size-snoc [] s = omega arith
staged_size-snoc (r ∷ staged) s = omega (arith, staged_size-snoc staged s)

check_headers-All :
    (limits : EventSourcingLimits) (headers : Headers)
    → check_headers limits headers ≡ ok tt
    → All
        (λ h. (len h.0 ≤ limits.max_header_name_bytes) × (len h.1 ≤ limits.max_header_value_bytes))
        headers
unfolding check_headers
check_headers-All limits [] h = tt
check_headers-All limits ((name, value) ∷ headers) h =
    ((ground arith, ground arith), check_headers-All limits headers (ground arith))

validate_event_limits-EventFits :
    (limits : EventSourcingLimits) (e : AppendEvent)
    → validate_event_limits limits e ≡ ok tt
    → EventFits limits e
unfolding validate_event_limits
validate_event_limits-EventFits limits e h = record {
  payload = ground arith;
  few_headers = ground arith;
  headers = check_headers-All limits e.metadata.headers (ground arith);
}

-- The loop over a batch adds up the sizes of its events, each of which it has found to be within the
-- limits.
pub batch_size_lem :
    (limits : EventSourcingLimits) (events : List AppendEvent) (before after : ℕ)
    → batch_size limits events before ≡ ok after
    → (after ≡ before + events_size events) × All (EventFits limits) events
unfolding batch_size
batch_size_lem limits [] before after h = (ground arith, tt)
batch_size_lem limits (e ∷ events) before after h =
    let (sum, fit) = batch_size_lem limits events (before + encoded_size e) after (ground arith) in
    (omega (arith, sum), (validate_event_limits-EventFits limits e (ground arith), fit))
