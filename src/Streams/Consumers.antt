-- ===== src/Streams/Consumers.antt =====
-- `ConsumerRunner` of consumers.py over any lease: `State` is what the lease and the handler act
-- on. An operation answers a value or what it raises, and leaves a state. A second cancellation
-- while the lease is released, and the end of a release that outlives it, are left to `release`.
pub mod Served
use tori_py.Prelude.{
  ℕ, zero, suc, ◌+◌, Option, none, some, Bool, true, false, ok, err, if◌then◌else◌, not,
}
use tori_py.Value.{Value, int}
use tori_py.Streams.Errors.{
  Error, Fallible, ownership, checkpoint_persistence, poison_record, value_error, cancelled,
  interrupted, last_successful,
}
use tori_py.Streams.Models.Records.{StoredRecord}
use tori_py.Streams.Models.Positions.{CheckpointKey, cursor_at}

-- The protocol `PartitionLease`, as far as the runner calls it.
pub record PartitionLease (State : Type 0) : Type 0 where
  pub key : CheckpointKey
  pub next_record : State → Fallible (Option StoredRecord) × State
  pub checkpoint : StoredRecord → State → Fallible (Unit {0}) × State
  pub stop : State → Fallible (Unit {0}) × State
  pub release : State → Fallible (Unit {0}) × State

-- Whether `except Exception` catches it.
unfoldable pub is_exception : Error → Bool
is_exception cancelled = false
is_exception interrupted = false
is_exception _ = true

unfoldable pub positive_limit : Value → Fallible ℕ
positive_limit (int (suc n)) = ok (suc n)
positive_limit _ = err value_error

-- What a failed checkpoint raises.
unfoldable pub checkpoint_failure : StoredRecord → Error → Error
checkpoint_failure r ownership = ownership
checkpoint_failure r (checkpoint_persistence cursor) = checkpoint_persistence cursor
checkpoint_failure r e = checkpoint_persistence (some (cursor_at last_successful r.offset))

-- `try`: what is caught, and how it goes on.
abbrev pub attempt :
    {State A B : Type 0}
    → Fallible A × State
    → (Error → State → Fallible B × State)
    → (A → State → Fallible B × State)
    → Fallible B × State
attempt (err e, s) caught next = caught e s
attempt (ok a, s) caught next = next a s

module _ {State : Type 0} (lease : PartitionLease State)
    (handler : StoredRecord → State → Fallible (Unit {0}) × State) where
  unfoldable pub poison : StoredRecord → Error
  poison r = poison_record lease.key.stream lease.key.group lease.key.partition r.offset r.record_id

  -- `_stop_ignoring_errors`
  unfoldable pub stop_ignoring_errors : State → State
  stop_ignoring_errors s = (lease.stop s).1

  -- An `except Exception` that stops the lease and raises another error.
  unfoldable pub stopping : (Error → Error) → Error → State → Fallible (Unit {0}) × State
  stopping failure e s =
      if is_exception e then (err (failure e), stop_ignoring_errors s) else (err e, s)

  unfoldable pub save : StoredRecord → State → Fallible (Unit {0}) × State
  save r s = attempt (lease.checkpoint r s) (stopping (checkpoint_failure r)) (λ u s'. (ok tt, s'))

  unfoldable pub handle : StoredRecord → State → Fallible (Unit {0}) × State
  handle r s = attempt (handler r s) (stopping (λ cause. poison r)) (λ u s'. save r s')

  -- A record is there, or not.
  unfoldable pub serve_next : Option StoredRecord → State → Fallible Bool × State
  serve_next none s = (ok false, s)
  serve_next (some r) s = attempt (handle r s) (λ e s'. (err e, s')) (λ u s'. (ok true, s'))

  -- The body of the loop; the answer says whether a record was there.
  unfoldable pub turn : State → Fallible Bool × State
  turn s = attempt (lease.next_record s) (λ e s'. (err e, s')) serve_next

  -- The two outer `except` clauses.
  unfoldable pub leave : Error → State → State
  leave e s = if is_exception e then s else (lease.release s).1

  -- The loop: the first number is how many records are still allowed.
  unfoldable pub run_turns : ℕ → ℕ → State → Fallible ℕ × State
  run_turns zero processed s = (ok processed, s)
  run_turns (suc k) processed s =
      attempt (turn s) (λ e s'. (err e, leave e s'))
        (λ more s'. if more then run_turns k (processed + 1) s' else (ok processed, s'))

  unfoldable pub run_once : Value → State → Fallible ℕ × State
  run_once limit s = elim (positive_limit limit) [ err e ↦ (err e, s) | ok n ↦ run_turns n 0 s ]
