-- ===== src/Streams/Models/Limits.antt =====
-- `StreamLimits` of models.py.
use tori_py.Prelude.{ℕ, List, [], ◌∷◌, ok, ◌>>=◌, list_eq, nat_eq}
use tori_py.Value.{Value}
use tori_py.Streams.Errors.{Fallible}
use tori_py.Streams.Models.{positive}

-- The thirteen fields, before (`A = Value`) and after (`A = ℕ`) their validation.
pub record StreamLimitsOf (A : Type 0) : Type 0 where
  pub max_name_chars : A
  pub max_group_chars : A
  pub max_owner_chars : A
  pub max_producer_chars : A
  pub max_header_name_chars : A
  pub max_partitions : A
  pub max_payload_bytes : A
  pub max_partition_key_bytes : A
  pub max_headers : A
  pub max_header_value_bytes : A
  pub max_header_bytes : A
  pub max_read_records : A
  pub max_relative_age_days : A

abbrev pub StreamLimits : Type 0
StreamLimits = StreamLimitsOf ℕ

unfoldable pub stream_limits : StreamLimitsOf Value → Fallible StreamLimits
unfolding positive
stream_limits raw = do
  a ← positive raw.max_name_chars
  b ← positive raw.max_group_chars
  c ← positive raw.max_owner_chars
  d ← positive raw.max_producer_chars
  e ← positive raw.max_header_name_chars
  f ← positive raw.max_partitions
  g ← positive raw.max_payload_bytes
  h ← positive raw.max_partition_key_bytes
  i ← positive raw.max_headers
  j ← positive raw.max_header_value_bytes
  k ← positive raw.max_header_bytes
  l ← positive raw.max_read_records
  m ← positive raw.max_relative_age_days
  ok (record {
    max_name_chars = a;
    max_group_chars = b;
    max_owner_chars = c;
    max_producer_chars = d;
    max_header_name_chars = e;
    max_partitions = f;
    max_payload_bytes = g;
    max_partition_key_bytes = h;
    max_headers = i;
    max_header_value_bytes = j;
    max_header_bytes = k;
    max_read_records = l;
    max_relative_age_days = m;
  })

abbrev pub defaults : StreamLimits
defaults = record {
  max_name_chars = 128;
  max_group_chars = 128;
  max_owner_chars = 128;
  max_producer_chars = 128;
  max_header_name_chars = 128;
  max_partitions = 1024;
  max_payload_bytes = 1048576;
  max_partition_key_bytes = 4096;
  max_headers = 64;
  max_header_value_bytes = 16384;
  max_header_bytes = 65536;
  max_read_records = 1000;
  max_relative_age_days = 365000;
}

-- The fields in order, by which two limits are compared.
unfoldable pub fields : StreamLimits → List ℕ
fields l =
    l.max_name_chars ∷ l.max_group_chars ∷ l.max_owner_chars ∷ l.max_producer_chars
    ∷ l.max_header_name_chars ∷ l.max_partitions ∷ l.max_payload_bytes ∷ l.max_partition_key_bytes
    ∷ l.max_headers ∷ l.max_header_value_bytes ∷ l.max_header_bytes ∷ l.max_read_records
    ∷ l.max_relative_age_days ∷ []
