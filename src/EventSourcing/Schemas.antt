-- ===== src/EventSourcing/Schemas.antt =====
-- `EventSchema` and `EventSchemaRegistry` of codec.py. `Event` is any object that a codec may make,
-- and `class_of` its type, which a number names; `strip` and `is_printable` are Python's. An
-- encoder, a decoder or an upcaster that raises answers `none`.
pub mod Versions
pub mod Valid
pub mod RoundTrip
pub mod Upcasts
use tori_py.Prelude.Dict
use tori_py.Prelude.Dict.{Dict}
use tori_py.Prelude.{
  ℕ, zero, suc, ◌+◌, ◌-◌, String, Option, none, some, List, [], ◌∷◌, Bool, true, false, ok, err,
  ◌>>=◌, ◌>>◌, raise_if, if◌then◌else◌, ltb, leb, length, string_eq, nat_eq, list_eq, ◌==◌, ◌||◌,
  not,
}
use Prim.Native.String.{len}
use tori_py.Value.{Value, int, text, binary}
use tori_py.EventSourcing.Errors.{
  Error, Fallible, schema_validation, schema_registry_frozen, schema_registry_not_frozen,
  duplicate_event_schema, unknown_event_schema, unsupported_event_schema_version, event_codec,
  event_upcast, resource_limit,
}
use tori_py.EventSourcing.Limits.{positive, EventSourcingLimits}
use tori_py.EventSourcing.Events.{
  Headers, PendingEvent, AppendEvent, StoredEvent, RecordedEvent, encoded_event, recorded_event,
}

abbrev pub Upcaster : Type 0
Upcaster = List ℕ → Option Value

pub record EventSchema (Event : Type 0) : Type 0 where
  pub alias : String
  pub version : ℕ
  pub event_type : ℕ
  pub encoder : Event → Option Value
  pub decoder : List ℕ → Option Event
  pub upcasters : Dict ℕ Upcaster

-- The arguments of `EventSchema`: `none` for a class that is no concrete event, and for what is not
-- callable.
pub record RawSchema (Event : Type 0) : Type 0 where
  pub alias : Value
  pub version : Value
  pub event_type : Option ℕ
  pub encoder : Option (Event → Option Value)
  pub decoder : Option (List ℕ → Option Event)
  pub upcasters : List (Value × Option Upcaster)

-- A value that must be there.
unfoldable pub required : {A : Type 0} → Option A → Fallible A
required none = err schema_validation
required (some a) = ok a

-- The source versions must be integers, and the upcasters callable; a negative version is none of those
-- that the next check wants.
unfoldable pub upcasters_value : List (Value × Option Upcaster) → Fallible (Dict ℕ Upcaster)
upcasters_value [] = ok []
upcasters_value ((int n, some up) ∷ items) = do rest ← upcasters_value items; ok ((n, up) ∷ rest)
upcasters_value (item ∷ items) = err schema_validation

abbrev pub versions : Dict ℕ Upcaster → List ℕ
versions [] = []
versions ((n, up) ∷ items) = n ∷ versions items

unfoldable pub insert : ℕ → List ℕ → List ℕ
insert n [] = n ∷ []
insert n (m ∷ ms) = let rest = insert n ms in if leb n m then n ∷ m ∷ ms else m ∷ rest

-- `sorted`
unfoldable pub sorted : List ℕ → List ℕ
unfolding insert
sorted [] = []
sorted (n ∷ ns) = insert n (sorted ns)

-- Whether the list counts on from the number.
unfoldable pub counts_from : ℕ → List ℕ → Bool
counts_from n [] = true
counts_from n (m ∷ ms) = let rest = counts_from (n + 1) ms in if m == n then rest else false

unfoldable pub check_versions : ℕ → Dict ℕ Upcaster → Fallible (Unit {0})
unfolding counts_from sorted
check_versions version upcasters =
    raise_if (not (length (sorted (versions upcasters)) == version - 1)) schema_validation
    >> raise_if (not (counts_from 1 (sorted (versions upcasters)))) schema_validation

pub record SchemaRegistry (Event : Type 0) : Type 0 where
  pub limits : EventSourcingLimits
  pub by_alias : Dict String (EventSchema Event)
  pub by_class : Dict ℕ (EventSchema Event)
  pub frozen : Bool

module _ {Event : Type 0} where
  -- `__init__`
  abbrev pub new_registry : EventSourcingLimits → SchemaRegistry Event
  new_registry limits = record { limits = limits; by_alias = []; by_class = []; frozen = false }

  unfoldable pub check_register : EventSchema Event → SchemaRegistry Event → Fallible (Unit {0})
  check_register schema r =
      raise_if r.frozen schema_registry_frozen
      >> raise_if (ltb r.limits.max_upcast_steps (schema.version - 1)) resource_limit
      >> raise_if (Dict.has r.by_alias schema.alias) duplicate_event_schema
      >> raise_if (Dict.has r.by_class schema.event_type) duplicate_event_schema

  unfoldable pub register :
      EventSchema Event → SchemaRegistry Event → Fallible (Unit {0}) × SchemaRegistry Event
  register schema r = elim (check_register schema r) [
    | err e ↦ (err e, r)
    | ok _ ↦ (
      ok tt,
      record r {
        by_alias = Dict.put r.by_alias schema.alias schema;
        by_class = Dict.put r.by_class schema.event_type schema;
      },
    )
  ]

  unfoldable pub freeze : SchemaRegistry Event → SchemaRegistry Event
  freeze r = record r { frozen = true }

  unfoldable pub require_frozen : SchemaRegistry Event → Fallible (Unit {0})
  require_frozen r = raise_if (not r.frozen) schema_registry_not_frozen

  abbrev pub look_up : Option (EventSchema Event) → Fallible (EventSchema Event)
  look_up none = err unknown_event_schema
  look_up (some schema) = ok schema

-- `_validate_payload`
unfoldable pub validate_payload : EventSourcingLimits → Value → Fallible (List ℕ)
validate_payload limits (binary payload) =
    if ltb limits.max_payload_bytes (length payload) then err resource_limit else ok payload
validate_payload limits _ = err event_codec

unfoldable pub header_lengths : EventSourcingLimits → Headers → Fallible (Unit {0})
header_lengths limits [] = ok tt
header_lengths limits ((name, value) ∷ headers) =
    let rest = header_lengths limits headers in
    raise_if (ltb limits.max_header_name_bytes (len name)) resource_limit
    >> raise_if (ltb limits.max_header_value_bytes (len value)) resource_limit
    >> rest

-- `_validate_header_mapping`
unfoldable pub validate_header_mapping : EventSourcingLimits → Headers → Fallible (Unit {0})
unfolding header_lengths
validate_header_mapping limits headers =
    raise_if (ltb limits.max_headers (length headers)) resource_limit
    >> header_lengths limits headers

-- What a codec returned: it raised, or its result is checked.
unfoldable pub codec_result : EventSourcingLimits → Error → Option Value → Fallible (List ℕ)
unfolding validate_payload
codec_result limits failure none = err failure
codec_result limits failure (some v) = validate_payload limits v

-- One turn of the loop of `decode`.
unfoldable pub upcast_once : EventSourcingLimits → Option Upcaster → ℕ → List ℕ → Fallible (List ℕ)
unfolding codec_result
upcast_once limits none steps payload =
    raise_if (ltb limits.max_upcast_steps steps) resource_limit >> err event_upcast
upcast_once limits (some up) steps payload =
    raise_if (ltb limits.max_upcast_steps steps) resource_limit
    >> codec_result limits event_upcast (up payload)

-- The loop: the first number is how many versions are left.
unfoldable pub upcast :
    EventSourcingLimits → Dict ℕ Upcaster → ℕ → ℕ → ℕ → List ℕ → Fallible (List ℕ)
upcast limits upcasters zero version steps payload = ok payload
upcast limits upcasters (suc k) version steps payload =
    upcast_once limits (Dict.get upcasters version) (steps + 1) payload
    >>= upcast limits upcasters k (version + 1) (steps + 1)

module _ (strip : String → String) (is_printable : String → Bool) where
  -- `_alias`
  unfoldable pub alias_value : Value → Fallible String
  alias_value (text s) =
      if s == "" || not (s == strip s)
      then err schema_validation
      else if is_printable s
      then ok s
      else err schema_validation
  alias_value _ = err schema_validation

  module _ {Event : Type 0} where
    -- `EventSchema.__post_init__`
    unfoldable pub event_schema : RawSchema Event → Fallible (EventSchema Event)
    unfolding alias_value positive required upcasters_value check_versions
    event_schema raw = do
      a ← alias_value raw.alias
      v ← positive raw.version
      t ← required raw.event_type
      e ← required raw.encoder
      d ← required raw.decoder
      u ← upcasters_value raw.upcasters
      check_versions v u
      ok (record {
        alias = a;
        version = v;
        event_type = t;
        encoder = e;
        decoder = d;
        upcasters = u;
      })

    module _ (class_of : Event → ℕ) where
      unfoldable pub encode : PendingEvent Event → SchemaRegistry Event → Fallible AppendEvent
      unfolding validate_header_mapping codec_result encoded_event
      encode pending r = do
        require_frozen r
        schema ← look_up (Dict.get r.by_class (class_of pending.event))
        validate_header_mapping r.limits pending.metadata.headers
        payload ← codec_result r.limits event_codec (schema.encoder pending.event)
        encoded ←
            encoded_event strip is_printable (text schema.alias) (int schema.version)
              (binary payload)
        ok (record { encoded = encoded; metadata = pending.metadata })

      -- The decoder's answer, and the check of its class.
      unfoldable pub decoded : EventSchema Event → Option Event → Fallible Event
      decoded schema none = err event_codec
      decoded schema (some event) =
          if class_of event == schema.event_type then ok event else err event_codec

      unfoldable pub decode : StoredEvent → SchemaRegistry Event → Fallible (RecordedEvent Event)
      unfolding validate_header_mapping validate_payload upcast decoded recorded_event
      decode stored r = do
        require_frozen r
        schema ← look_up (Dict.get r.by_alias stored.event.encoded.event_type)
        raise_if (ltb schema.version stored.event.encoded.schema_version)
            unsupported_event_schema_version
        validate_header_mapping r.limits stored.event.metadata.headers
        checked ← validate_payload r.limits (binary stored.event.encoded.payload)
        payload ←
            upcast r.limits schema.upcasters (schema.version - stored.event.encoded.schema_version)
              stored.event.encoded.schema_version 0 checked
        event ← decoded schema (schema.decoder payload)
        recorded_event strip is_printable stored.stream_id (int stored.stream_version)
            (int stored.global_position) (text schema.alias) (int schema.version) event
            stored.event.metadata
