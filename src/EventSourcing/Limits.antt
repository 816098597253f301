-- ===== src/EventSourcing/Limits.antt =====
-- `EventSourcingLimits` of codec.py.
use tori_py.Prelude.{ℕ, suc, ok, err, ◌>>=◌}
use tori_py.Value.{Value, int}
use tori_py.EventSourcing.Errors.{Fallible, schema_validation}

unfoldable pub positive : Value → Fallible ℕ
positive (int (suc n)) = ok (suc n)
positive _ = err schema_validation

-- The nine fields, before (`A = Value`) and after (`A = ℕ`) their validation.
pub record EventSourcingLimitsOf (A : Type 0) : Type 0 where
  pub max_payload_bytes : A
  pub max_headers : A
  pub max_header_name_bytes : A
  pub max_header_value_bytes : A
  pub max_upcast_steps : A
  pub read_page_size : A
  pub max_events_per_append : A
  pub max_events_per_transaction : A
  pub max_transaction_bytes : A

abbrev pub EventSourcingLimits : Type 0
EventSourcingLimits = EventSourcingLimitsOf ℕ

unfoldable pub event_sourcing_limits : EventSourcingLimitsOf Value → Fallible EventSourcingLimits
unfolding positive
event_sourcing_limits raw = do
  a ← positive raw.max_payload_bytes
  b ← positive raw.max_headers
  c ← positive raw.max_header_name_bytes
  d ← positive raw.max_header_value_bytes
  e ← positive raw.max_upcast_steps
  f ← positive raw.read_page_size
  g ← positive raw.max_events_per_append
  h ← positive raw.max_events_per_transaction
  i ← positive raw.max_transaction_bytes
  ok (record {
    max_payload_bytes = a;
    max_headers = b;
    max_header_name_bytes = c;
    max_header_value_bytes = d;
    max_upcast_steps = e;
    read_page_size = f;
    max_events_per_append = g;
    max_events_per_transaction = h;
    max_transaction_bytes = i;
  })

abbrev pub default_limits : EventSourcingLimits
default_limits = record {
  max_payload_bytes = 1048576;
  max_headers = 64;
  max_header_name_bytes = 256;
  max_header_value_bytes = 4096;
  max_upcast_steps = 32;
  read_page_size = 500;
  max_events_per_append = 1000;
  max_events_per_transaction = 10000;
  max_transaction_bytes = 16777216;
}
