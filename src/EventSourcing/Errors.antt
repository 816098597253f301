-- ===== src/EventSourcing/Errors.antt =====
-- errors.py of packages/tori-py-cqrs-event-sourcing-core/src/tori_py_cqrs_event_sourcing_core, with
-- the attributes that callers read, and the identity of a stream that they carry.
use tori_py.Prelude.{ℕ, String, Bool, ◌&&◌, ◌≡◌, ◌↔◌, Eq, ◌==◌, string_eq, true, arith, Result}

pub record StreamId : Type 0 where
  pub category : String
  pub key : String

abbrev pub stream_id_beq : StreamId → StreamId → Bool
stream_id_beq a b = a.category == b.category && a.key == b.key

pub stream_id_beq_iff : (a b : StreamId) → (stream_id_beq a b ≡ true) ↔ (a ≡ b)
stream_id_beq_iff a b = (
  λ h. ground (arith, string_eq.beq_iff a.category b.category, string_eq.beq_iff a.key b.key),
  λ h. ground (arith, string_eq.beq_iff a.category b.category, string_eq.beq_iff a.key b.key),
)

instance abbrev pub stream_id_eq : Eq StreamId
stream_id_eq = record { beq = stream_id_beq; beq_iff = stream_id_beq_iff }

pub data Error : Type 0 where
  invalid_event_record : Error
  invalid_event_metadata : Error
  invalid_stream_id : Error
  schema_validation : Error
  schema_registry_frozen : Error
  schema_registry_not_frozen : Error
  duplicate_event_schema : Error
  unknown_event_schema : Error
  unsupported_event_schema_version : Error
  commit_result_mismatch : Error
  unit_of_work_lifecycle : Error
  duplicate_aggregate_save : Error
  duplicate_stream_aggregate : StreamId → Error
  indeterminate_commit : Error
  confirmed_commit_error : Error
  confirmed_commit_cleanup : Error
  event_codec : Error
  event_upcast : Error
  event_store_transaction : Error
  duplicate_stream_append : StreamId → Error
  duplicate_event_id : ℕ → Error
  -- The stream, the expected version and the actual one.
  optimistic_concurrency : StreamId → ℕ → ℕ → Error
  resource_limit : Error
  aggregate_faulted : Error
  aggregate_enlisted : Error
  aggregate_replay : Error
  -- The expected stream and the actual one.
  aggregate_stream_mismatch : StreamId → StreamId → Error
  aggregate_commit_state : Error
  aggregate_ownership : Error
  -- An exception of the application's own `_apply`.
  application : Error
  -- `asyncio.CancelledError`
  cancelled : Error

abbrev pub Fallible : Type 0 → Type 0
Fallible A = Result Error A
