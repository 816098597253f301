-- ===== src/Tests/Schemas.antt =====
-- A schema in its second version, and the events that it reads and writes.
use mathlib.Core.Path.{subst}
use tori_py.Prelude.Dict
use tori_py.Prelude.Dict.{Dict}
use tori_py.Prelude.{
  ℕ, ◌≤◌, ◌≡◌, refl, sym, ◌∙◌, String, Option, none, some, List, [], ◌∷◌, Bool, true, ok, arith,
  string_eq, nat_eq, length, Bool-cases, inl, inr, ◌==◌,
}
use tori_py.Value.{Value, int, text, binary}
use tori_py.EventSourcing.Limits.{positive, default_limits}
use tori_py.EventSourcing.Errors.{StreamId}
use tori_py.EventSourcing.Events.{
  PendingEvent, AppendEvent, stable_text, positive_int, encoded_event,
}
use tori_py.EventSourcing.Schemas.{
  Upcaster, EventSchema, RawSchema, SchemaRegistry, new_registry, check_register, register, freeze,
  alias_value, required, upcasters_value, check_versions, versions, sorted, insert, counts_from,
  event_schema, encode, decode, upcast, require_frozen, validate_header_mapping, header_lengths,
  codec_result, validate_payload,
}
use tori_py.EventSourcing.Schemas.Valid.{
  SchemaIsValid, RegistryIsValid, event_schema-IsValid, new_registry-IsValid, register-IsValid,
  freeze-IsValid,
}
use tori_py.EventSourcing.Schemas.RoundTrip.{decode-encode}
use tori_py.EventSourcing.Schemas.Upcasts.{migrate, upcast_registered}

-- An event is a number, and all events have the class 3.
abbrev same_text : String → String
same_text s = s

abbrev printable : String → Bool
printable s = true

abbrev class_of : ℕ → ℕ
class_of event = 3

abbrev write : ℕ → Option Value
write event = some (binary (event ∷ 0 ∷ []))

abbrev parse : List ℕ → Option ℕ
parse (event ∷ bytes) = some event
parse [] = none

-- The first version had no second byte.
abbrev add_byte : Upcaster
add_byte (event ∷ bytes) = some (binary (event ∷ 0 ∷ []))
add_byte [] = some (binary (0 ∷ 0 ∷ []))

abbrev raw : RawSchema ℕ
raw = record {
  alias = text "paid";
  version = int 2;
  event_type = some 3;
  encoder = some write;
  decoder = some parse;
  upcasters = (int 1, some add_byte) ∷ [];
}

abbrev paid : EventSchema ℕ
paid = record {
  alias = "paid";
  version = 2;
  event_type = 3;
  encoder = write;
  decoder = parse;
  upcasters = (1, add_byte) ∷ [];
}

raw-paid : event_schema same_text printable raw ≡ ok paid
unfolding event_schema alias_value positive required upcasters_value check_versions versions sorted
    insert counts_from
raw-paid = refl

event_schema-IsValid_example : SchemaIsValid same_text printable paid
event_schema-IsValid_example = event_schema-IsValid same_text printable raw paid raw-paid

paid-IsValid : SchemaIsValid same_text printable paid
paid-IsValid = event_schema-IsValid same_text printable raw paid raw-paid

abbrev empty_registry : SchemaRegistry ℕ
empty_registry = new_registry default_limits

abbrev registry : SchemaRegistry ℕ
registry = freeze (register paid empty_registry).1

empty_registry-IsValid : RegistryIsValid same_text printable empty_registry
empty_registry-IsValid = new_registry-IsValid same_text printable default_limits

register-IsValid_example : RegistryIsValid same_text printable (register paid empty_registry).1
register-IsValid_example =
    register-IsValid same_text printable paid empty_registry paid-IsValid empty_registry-IsValid

registry-IsValid : RegistryIsValid same_text printable registry
registry-IsValid =
    freeze-IsValid same_text printable (register paid empty_registry).1
      (register-IsValid same_text printable paid empty_registry paid-IsValid empty_registry-IsValid)

abbrev payment : PendingEvent ℕ
payment = record {
  event = 40;
  metadata = record {
    event_id = 9;
    occurred_at = 100;
    correlation_id = none;
    causation_id = none;
    headers = [];
  };
}

abbrev written : AppendEvent
written = record {
  encoded = record { event_type = "paid"; schema_version = 2; payload = 40 ∷ 0 ∷ [] };
  metadata = payment.metadata;
}

payment-written : encode same_text printable class_of payment registry ≡ ok written
unfolding encode require_frozen freeze register check_register Dict.get Dict.put Dict.has
    validate_header_mapping header_lengths codec_result validate_payload encoded_event stable_text
    positive_int
payment-written = refl

registry-paid : Dict.get registry.by_alias "paid" ≡ some paid
unfolding freeze register check_register Dict.get Dict.put Dict.has
registry-paid = refl

registry-class : Dict.get registry.by_class 3 ≡ some paid
unfolding freeze register check_register Dict.get Dict.put Dict.has
registry-class = refl

abbrev orders_stream : StreamId
orders_stream = record { category = "orders"; key = "7" }

write-parse :
    (event : ℕ) (payload : List ℕ)
    → write event ≡ some (binary payload)
    → parse payload ≡ some event
write-parse event (b ∷ bytes) h = ground arith
write-parse event [] h = absurd (ground arith)

payment-inverts :
    (schema : EventSchema ℕ) (payload : List ℕ)
    → Dict.get registry.by_class 3 ≡ some schema
    → schema.encoder 40 ≡ some (binary payload)
    → schema.decoder payload ≡ some 40
payment-inverts schema payload found answered =
    let both : some paid ≡ some schema = sym registry-class ∙ found in
    let same : paid ≡ schema = cc in
    subst (λ s. s.encoder 40 ≡ some (binary payload) → s.decoder payload ≡ some 40) same
      (write-parse 40 payload) answered

decode-encode_example :
    (schema : EventSchema ℕ) × (Dict.get registry.by_class 3 ≡ some schema)
    × (decode same_text printable class_of
          (record {
            stream_id = orders_stream;
            stream_version = 1;
            global_position = 5;
            event = written;
          })
          registry
        ≡ ok (record {
          stream_id = orders_stream;
          stream_version = 1;
          global_position = 5;
          event_type = schema.alias;
          schema_version = schema.version;
          event = 40;
          metadata = payment.metadata;
        }))
decode-encode_example =
    decode-encode same_text printable class_of payment registry written orders_stream 1 5
      registry-IsValid payment-written payment-inverts (omega arith) (omega arith)

abbrev grow : ℕ → List ℕ → List ℕ
grow v (event ∷ bytes) = event ∷ 0 ∷ []
grow v [] = 0 ∷ 0 ∷ []

add_byte-grows :
    (v : ℕ) (p : List ℕ) → (add_byte p ≡ some (binary (grow v p))) × (length (grow v p) ≤ 1048576)
add_byte-grows v (event ∷ bytes) = (refl, omega arith)
add_byte-grows v [] = (refl, omega arith)

paid-grows :
    (v : ℕ) (up : Upcaster)
    → Dict.get paid.upcasters v ≡ some up
    → (p : List ℕ)
    → (up p ≡ some (binary (grow v p))) × (length (grow v p) ≤ registry.limits.max_payload_bytes)
unfolding Dict.get freeze register check_register Dict.put Dict.has
paid-grows v up found p = elim (Bool-cases (1 == v)) [
  | inl here ↦
      let same : add_byte ≡ up = ground arith in
      subst (λ u. (u p ≡ some (binary (grow v p))) × (length (grow v p) ≤ 1048576)) same
        (add_byte-grows v p)
  | inr other ↦ absurd (ground arith)
]

upcast_registered_example :
    upcast registry.limits paid.upcasters 1 1 0 (40 ∷ []) ≡ ok (migrate grow 1 1 (40 ∷ []))
upcast_registered_example =
    upcast_registered same_text printable registry paid "paid" 1 (40 ∷ []) grow registry-IsValid
      registry-paid (omega arith) (omega arith) paid-grows
