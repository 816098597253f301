-- ===== src/Streams/Leases/Tasks.antt =====
-- The asynchronous calls of inmemory.py as tasks: a task stands at the wait that it has reached, and
-- an event takes it to the next one. Every wait may be cancelled, but those of `_finish_cleanup`, which
-- outlive a cancellation; a second cancellation during one cleanup is left out.
use tori_py.Prelude.{ℕ, Option, some, none, Bool, ok, err}
use tori_py.Value.{Value}
use tori_py.Streams.Errors.{Error, Fallible, ResumeCursor, last_successful, checkpoint_persistence}
use tori_py.Streams.Models.Records.{StoredRecord}
use tori_py.Streams.Models.Positions.{cursor_at, Subscription}
use tori_py.Streams.Leases.Acquire.{Strategy, Acquisition}
use tori_py.Streams.Leases.Deliver.{RecordObject}

-- What a checkpoint store answers: any object, or an exception.
pub data Reply : Type 0 where
  nothing : Reply
  cursor : ResumeCursor → Reply
  malformed : Reply
  failed : Reply

pub data Returns : Type 0 where
  returns_none returns_cursor returns_optional_cursor : Returns

-- `validate_checkpoint_store_call`; the value is the returned one.
unfoldable pub validate_checkpoint_store_call :
    Option ResumeCursor → Returns → Reply → Fallible (Option ResumeCursor)
validate_checkpoint_store_call attempted returns_none nothing = ok none
validate_checkpoint_store_call attempted returns_cursor (cursor c) = ok (some c)
validate_checkpoint_store_call attempted returns_optional_cursor nothing = ok none
validate_checkpoint_store_call attempted returns_optional_cursor (cursor c) = ok (some c)
validate_checkpoint_store_call attempted _ _ = err (checkpoint_persistence attempted)

pub data Outcome : Type 0 where
  leased : ℕ → Outcome
  delivered : Option StoredRecord → Outcome
  returned : Outcome
  raised : Error → Outcome

pub data Task : Type 0 where
  -- `acquire`
  acquiring : Subscription → Value → Strategy → Bool → Task
  awaiting : Acquisition → Task
  claimed : Acquisition → Task
  undoing : Acquisition → Error → Task
  initializing : Acquisition → ℕ → Task
  fencing : Acquisition → ℕ → Task
  loading : Acquisition → ℕ → Task
  resolving : Acquisition → ℕ → Task
  creating : Acquisition → ℕ → ResumeCursor → Task
  confirming : Acquisition → ℕ → Task
  failing : Acquisition → ℕ → Error → Task
  unreserving : Acquisition → Error → Task
  finishing : Acquisition → ℕ → Task
  -- `next_record`: the cursor, from the log or from the store, then the record.
  next_cursor : ℕ → Task
  next_loading : ℕ → Task
  next_owner : ℕ → ResumeCursor → Task
  next_taking : ℕ → ResumeCursor → Task
  -- `checkpoint`
  checking : ℕ → RecordObject → Task
  saved_cursor : ℕ → StoredRecord → Task
  saved_loading : ℕ → StoredRecord → Task
  saved_owner : ℕ → StoredRecord → ResumeCursor → Task
  save_owner : ℕ → StoredRecord → ResumeCursor → Task
  saving : ℕ → StoredRecord → ResumeCursor → Task
  save_confirming : ℕ → Task
  advancing : ℕ → StoredRecord → ResumeCursor → Task
  -- `_stop` after a store has failed, and the calls of `stop`, `release` and `close`.
  stopping_for : ℕ → Error → Task
  stopping : ℕ → Task
  releasing : ℕ → Task
  closing : Task
  finished : Outcome → Task

-- The answer of a checkpoint store; where a task waits for none, it is not for this task.
unfoldable pub on_reply : Reply → Task → Task
on_reply r (fencing a l) = elim (validate_checkpoint_store_call none returns_none r) [
  | err e ↦ failing a l e
  | ok _ ↦ loading a l
]
on_reply r (loading a l) = elim (validate_checkpoint_store_call none returns_optional_cursor r) [
  | err e ↦ failing a l e
  | ok none ↦ resolving a l
  | ok (some c) ↦ confirming a l
]
on_reply r (creating a l c) = elim (validate_checkpoint_store_call (some c) returns_cursor r) [
  | err e ↦ failing a l e
  | ok _ ↦ confirming a l
]
on_reply r (next_loading l) = elim (validate_checkpoint_store_call none returns_optional_cursor r) [
  | err e ↦ stopping_for l e
  | ok none ↦ stopping_for l (checkpoint_persistence none)
  | ok (some c) ↦ next_owner l c
]
on_reply r (saved_loading l stored) =
    elim (validate_checkpoint_store_call none returns_optional_cursor r) [
      | err e ↦ stopping_for l e
      | ok none ↦ stopping_for l (checkpoint_persistence none)
      | ok (some c) ↦ saved_owner l stored c
    ]
on_reply r (saving l stored expected) =
    let target = some (cursor_at last_successful stored.offset) in
    elim (validate_checkpoint_store_call target returns_none r) [
      | err e ↦ stopping_for l e
      | ok _ ↦ save_confirming l
    ]
on_reply r task = task
