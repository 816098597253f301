-- ===== src/EventSourcing/Schemas/RoundTrip.antt =====
-- `encode` of codec.py and then `decode`.
use tori_py.Prelude.Dict
use tori_py.Prelude.Dict.{Dict}
use tori_py.Prelude.{
  ℕ, zero, suc, ◌-◌, ◌<◌, ◌≡◌, refl, ap, ◌∙◌, String, Option, none, some, List, Bool, false, ok,
  arith, string_eq, nat_eq, >>=-eq-ok, ltb,
}
use tori_py.Value.{Value, int, text, binary}
use tori_py.EventSourcing.Errors.{StreamId, Error, event_codec}
use tori_py.EventSourcing.Limits.{EventSourcingLimits}
use tori_py.EventSourcing.Events.{
  PendingEvent, AppendEvent, EncodedEvent, EventMetadata, encoded_event, recorded_event,
  stable_text, positive_int,
}
use tori_py.EventSourcing.Schemas.{
  Upcaster, EventSchema, SchemaRegistry, require_frozen, look_up, validate_header_mapping,
  validate_payload, codec_result, upcast, alias_value, encode, decoded, decode,
}
use tori_py.EventSourcing.Schemas.Valid.{RegistryIsValid}

codec_result_lem :
    (limits : EventSourcingLimits) (failure : Error) (answer : Option Value) (payload : List ℕ)
    → codec_result limits failure answer ≡ ok payload
    → (answer ≡ some (binary payload)) × (validate_payload limits (binary payload) ≡ ok payload)
unfolding codec_result validate_payload
codec_result_lem limits failure none payload h = absurd (ground arith)
codec_result_lem limits failure (some (binary b)) payload h =
    let same : b ≡ payload = ground arith in
    (ap (λ x. some (binary x)) same, rw (← same) (rw (← same) at h))
codec_result_lem limits failure (some v) payload h = absurd (ground arith)

look_up_lem :
    {Event : Type 0} (found : Option (EventSchema Event)) (schema : EventSchema Event)
    → look_up found ≡ ok schema
    → found ≡ some schema
look_up_lem none schema h = absurd (ground arith)
look_up_lem (some s) schema h = ground arith

module _ (strip : String → String) (is_printable : String → Bool) where
  stable_alias :
      (a : String)
      → alias_value strip is_printable (text a) ≡ ok a
      → stable_text strip is_printable (text a) ≡ ok a
  unfolding alias_value stable_text
  stable_alias a h = ground arith

  encoded_event_lem :
      (a : String) (version : ℕ) (payload : List ℕ) (encoded : EncodedEvent)
      → alias_value strip is_printable (text a) ≡ ok a
      → encoded_event strip is_printable (text a) (int version) (binary payload) ≡ ok encoded
      → record { event_type = a; schema_version = version; payload = payload } ≡ encoded
  unfolding encoded_event positive_int
  encoded_event_lem a zero payload encoded named h = absurd (ground (arith, stable_alias a named))
  encoded_event_lem a (suc n) payload encoded named h = ground (arith, stable_alias a named)

  module _ {Event : Type 0} (class_of : Event → ℕ) where
    -- What `encode` found on its way to an answer.
    record Encoded (pending : PendingEvent Event) (r : SchemaRegistry Event) (e : AppendEvent)
        : Type 0 where
      schema : EventSchema Event
      payload : List ℕ
      is_frozen : require_frozen r ≡ ok tt
      typed : Dict.get r.by_class (class_of pending.event) ≡ some schema
      headed : validate_header_mapping r.limits pending.metadata.headers ≡ ok tt
      written : schema.encoder pending.event ≡ some (binary payload)
      short : validate_payload r.limits (binary payload) ≡ ok payload
      answer :
          record {
            encoded = record {
              event_type = schema.alias;
              schema_version = schema.version;
              payload = payload;
            };
            metadata = pending.metadata;
          }
          ≡ e

    encode-Encoded :
        (pending : PendingEvent Event) (r : SchemaRegistry Event) (e : AppendEvent)
        → RegistryIsValid strip is_printable r
        → encode strip is_printable class_of pending r ≡ ok e
        → Encoded pending r e
    unfolding encode
    encode-Encoded pending r e v h =
        let (_, frozen, h1) = >>=-eq-ok (require_frozen r) _ h in
        let (schema, found, h2) =
          >>=-eq-ok (look_up (Dict.get r.by_class (class_of pending.event))) _ h1 in
        let (_, headed, h3) =
          >>=-eq-ok (validate_header_mapping r.limits pending.metadata.headers) _ h2 in
        let (payload, written, h4) =
          >>=-eq-ok (codec_result r.limits event_codec (schema.encoder pending.event)) _ h3 in
        let (encoded, made, h5) =
          >>=-eq-ok
            (encoded_event strip is_printable (text schema.alias) (int schema.version)
              (binary payload))
            _ h4 in
        let typed = look_up_lem (Dict.get r.by_class (class_of pending.event)) schema found in
        let (class, aliased) = v.classed (class_of pending.event) schema typed in
        let (_, _, sound, _) = v.aliased schema.alias schema aliased in
        let (raw, short) =
          codec_result_lem r.limits event_codec (schema.encoder pending.event) payload written in
        let same = encoded_event_lem schema.alias schema.version payload encoded sound.named made in
        let built : AppendEvent = record { encoded = encoded; metadata = pending.metadata } in
        let last : built ≡ e = cc in
        record {
          schema = schema;
          payload = payload;
          is_frozen = frozen;
          typed = typed;
          headed = headed;
          written = raw;
          short = short;
          answer = ap (λ x. record { encoded = x; metadata = pending.metadata }) same ∙ last;
        }

    decoded_lem :
        (schema : EventSchema Event) (event : Event)
        → schema.event_type ≡ class_of event
        → decoded strip is_printable class_of schema (some event) ≡ ok event
    unfolding decoded
    decoded_lem schema event class =
        ground (arith, nat_eq.beq_iff (class_of event) schema.event_type)

    recorded_event_lem :
        (sid : StreamId) (version position schema_version : ℕ) (a : String) (event : Event)
        (metadata : EventMetadata)
        → alias_value strip is_printable (text a) ≡ ok a
        → 0 < version
        → 0 < position
        → 0 < schema_version
        → recorded_event strip is_printable sid
            (int version)
            (int position)
            (text a)
            (int schema_version)
            event
            metadata
          ≡ ok (record {
            stream_id = sid;
            stream_version = version;
            global_position = position;
            event_type = a;
            schema_version = schema_version;
            event = event;
            metadata = metadata;
          })
    unfolding recorded_event positive_int
    recorded_event_lem sid (suc v) (suc p) (suc n) a event metadata named hv hp hn =
        simp (stable_alias a named) refl
    recorded_event_lem sid zero p n a event metadata named hv hp hn = absurd (omega arith)
    recorded_event_lem sid (suc v) zero n a event metadata named hv hp hn = absurd (omega arith)
    recorded_event_lem sid (suc v) (suc p) zero a event metadata named hv hp hn =
        absurd (omega arith)

    upcast_current :
        (limits : EventSourcingLimits) (upcasters : Dict ℕ Upcaster) (n : ℕ) (payload : List ℕ)
        → upcast limits upcasters (n - n) n 0 payload ≡ ok payload
    unfolding upcast
    upcast_current limits upcasters n payload =
        let none_left : n - n ≡ 0 = omega arith in rw none_left refl

    ltb_same : (n : ℕ) → ltb n n ≡ false
    ltb_same n = ground arith

    -- An event that a well-formed, frozen registry has encoded is decoded, from any place of a
    -- stream, to the same event with the same metadata, under the alias and the version of its
    -- class's schema, where the decoder of that schema inverts its encoder.
    pub decode-encode :
        (pending : PendingEvent Event) (r : SchemaRegistry Event) (e : AppendEvent) (sid : StreamId)
        (version position : ℕ)
        → RegistryIsValid strip is_printable r
        → encode strip is_printable class_of pending r ≡ ok e
        → ((schema : EventSchema Event) (payload : List ℕ)
            → Dict.get r.by_class (class_of pending.event) ≡ some schema
            → schema.encoder pending.event ≡ some (binary payload)
            → schema.decoder payload ≡ some pending.event)
        → 0 < version
        → 0 < position
        → (schema : EventSchema Event) × (Dict.get r.by_class (class_of pending.event)
            ≡ some schema)
          × (decode strip is_printable class_of
                (record {
                  stream_id = sid;
                  stream_version = version;
                  global_position = position;
                  event = e;
                })
                r
              ≡ ok (record {
                stream_id = sid;
                stream_version = version;
                global_position = position;
                event_type = schema.alias;
                schema_version = schema.version;
                event = pending.event;
                metadata = pending.metadata;
              }))
    unfolding decode
    decode-encode pending r e sid version position v h inverts first_version first_position =
        let c = encode-Encoded pending r e v h in
        let (class, aliased) = v.classed (class_of pending.event) c.schema c.typed in
        let (_, _, sound, _) = v.aliased c.schema.alias c.schema aliased in
        let recorded =
          recorded_event_lem sid version position c.schema.version c.schema.alias pending.event
            pending.metadata sound.named first_version first_position sound.numbered in
        (
          c.schema,
          c.typed,
          rw (← c.answer) (
              simp
                (
                  c.is_frozen,
                  aliased,
                  ltb_same,
                  c.headed,
                  c.short,
                  upcast_current,
                  inverts c.schema c.payload c.typed c.written,
                  decoded_lem c.schema pending.event class,
                  decode,
                )
                recorded),
        )
