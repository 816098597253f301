-- ===== src/Streams/Errors.antt =====
-- errors.py of packages/tori-py-persistent-streams-core/src/tori_py_persistent_streams_core: the
-- exceptions with the attributes that callers read, without their messages.
use tori_py.Prelude.{ℕ, String, Option, Result}

pub data CursorKind : Type 0 where
  initialized last_successful : CursorKind

pub record ResumeCursor : Type 0 where
  pub kind : CursorKind
  pub offset : ℕ

pub record AvailableBounds : Type 0 where
  pub earliest_offset : ℕ
  pub end_offset : ℕ

-- What was not retained: an offset or a moment.
pub data Requested : Type 0 where
  requested_offset : ℕ → Requested
  requested_timestamp : ℕ → Requested

pub record RetentionGap : Type 0 where
  pub stream : String
  pub partition : ℕ
  pub requested : Requested
  pub bounds : AvailableBounds
  pub group : Option String

pub data Error : Type 0 where
  validation : Error
  resource_limit : Error
  unknown_stream : String → Error
  incompatible_stream : String → Error
  invalid_partition : Error
  publishing_conflict : Error
  stale_publishing_id : Error
  retention_gap : RetentionGap → Error
  ownership : Error
  checkpoint : Error
  checkpoint_persistence : Option ResumeCursor → Error
  checkpoint_strategy : Error
  lifecycle : Error
  adapter_contract : Error
  -- The stream, the group, the partition, the offset and the record's id.
  poison_record : String → String → ℕ → ℕ → ℕ → Error
  -- An exception of the application's handler.
  application : Error
  -- Python's own `AssertionError`, `IndexError`, `ValueError`, `TypeError` and
  -- `OverflowError`.
  assertion : Error
  index_error : Error
  value_error : Error
  type_error : Error
  overflow_error : Error
  -- `asyncio.CancelledError`
  cancelled : Error
  -- `KeyboardInterrupt` or `SystemExit`
  interrupted : Error

abbrev pub Fallible : Type 0 → Type 0
Fallible A = Result Error A
