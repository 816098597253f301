-- ===== src/Streams/Limits.antt =====
-- validation.py: an append request against the limits of its stream definition.
use Prim.Native.String.{count, len}
use tori_py.Prelude.{
  ℕ, ◌+◌, String, Option, some, none, [], ◌∷◌, ltb, ok, ◌>>=◌, ◌>>◌, raise_if, length, Bool, false,
}
use tori_py.Streams.Errors.{Fallible, resource_limit}
use tori_py.Streams.Models.Limits.{StreamLimits}
use tori_py.Streams.Models.Requests.{Headers, StreamDefinition, AppendRequest}

-- The loop over the headers; `aggregate` is its running sum.
unfoldable pub header_bytes : StreamLimits → Headers → ℕ → Fallible ℕ
header_bytes limits [] aggregate = ok aggregate
header_bytes limits ((name, value) ∷ headers) aggregate =
    let rest = header_bytes limits headers (aggregate + (len name + length value)) in
    raise_if (ltb limits.max_header_name_chars (count name)) resource_limit
    >> raise_if (ltb limits.max_header_value_bytes (length value)) resource_limit
    >> rest

long_name : Option String → ℕ → Bool
long_name none limit = false
long_name (some n) limit = ltb limit (count n)

unfoldable pub validate_append_request_limits :
    StreamDefinition → AppendRequest → Fallible (Unit {0})
unfolding header_bytes long_name
validate_append_request_limits definition request = do
  raise_if (ltb definition.limits.max_partition_key_bytes (length request.partition_key))
      resource_limit
  raise_if (ltb definition.limits.max_payload_bytes (length request.payload)) resource_limit
  raise_if (ltb definition.limits.max_headers (length request.headers)) resource_limit
  aggregate ← header_bytes definition.limits request.headers 0
  raise_if (ltb definition.limits.max_header_bytes aggregate) resource_limit
  raise_if (long_name request.producer_name definition.limits.max_producer_chars) resource_limit
