-- ===== src/EventSourcing/Events.antt =====
-- events.py of packages/tori-py-cqrs-event-sourcing-core/src/tori_py_cqrs_event_sourcing_core. `strip`
-- and `is_printable` are Python's `str.strip` and `str.isprintable`; `Event` is the application's.
use tori_py.Prelude.Dict
use tori_py.Prelude.Dict.{Dict}
use tori_py.Prelude.{
  ℕ, suc, String, Option, none, some, List, [], ◌∷◌, Bool, ok, err, ◌>>=◌, if◌then◌else◌, ◌==◌,
  string_eq, not, ltb,
}
use tori_py.Value.{Value, nothing, int, text, binary, uuid, moment}
use tori_py.EventSourcing.Errors.{
  StreamId, stream_id_eq, Fallible, invalid_event_record, invalid_event_metadata, invalid_stream_id,
}

unfoldable pub positive_int : Value → Fallible ℕ
positive_int (int (suc n)) = ok (suc n)
positive_int _ = err invalid_event_record

unfoldable pub non_negative_int : Value → Fallible ℕ
non_negative_int (int n) = ok n
non_negative_int _ = err invalid_event_record

unfoldable pub uuid_value : Value → Fallible ℕ
uuid_value (uuid u) = ok u
uuid_value _ = err invalid_event_metadata

unfoldable pub optional_uuid : Value → Fallible (Option ℕ)
optional_uuid nothing = ok none
optional_uuid (uuid u) = ok (some u)
optional_uuid _ = err invalid_event_metadata

unfoldable pub aware_datetime : Value → Fallible ℕ
aware_datetime (moment t) = ok t
aware_datetime _ = err invalid_event_metadata

abbrev pub Headers : Type 0
Headers = Dict String String

-- `Any` code point that UTF-8 cannot encode is no scalar value, and no `String` holds one. `none` is
-- a value that is no mapping.
unfoldable pub headers_value : Option (List (Value × Value)) → Headers → Fallible Headers
headers_value none copied = err invalid_event_metadata
headers_value (some []) copied = ok copied
headers_value (some ((text k, text v) ∷ items)) copied =
    headers_value (some items) (Dict.put copied k v)
headers_value (some _) copied = err invalid_event_metadata

pub record EventMetadata : Type 0 where
  pub event_id : ℕ
  pub occurred_at : ℕ
  pub correlation_id : Option ℕ
  pub causation_id : Option ℕ
  pub headers : Headers

unfoldable pub event_metadata :
    Value → Value → Value → Value → Option (List (Value × Value)) → Fallible EventMetadata
unfolding uuid_value aware_datetime optional_uuid headers_value
event_metadata event_id occurred_at correlation_id causation_id headers = do
  e ← uuid_value event_id
  t ← aware_datetime occurred_at
  a ← optional_uuid correlation_id
  b ← optional_uuid causation_id
  h ← headers_value headers []
  ok (record { event_id = e; occurred_at = t; correlation_id = a; causation_id = b; headers = h })

pub record PendingEvent (Event : Type 0) : Type 0 where
  pub event : Event
  pub metadata : EventMetadata

pub record RecordedEvent (Event : Type 0) : Type 0 where
  pub stream_id : StreamId
  pub stream_version : ℕ
  pub global_position : ℕ
  pub event_type : String
  pub schema_version : ℕ
  pub event : Event
  pub metadata : EventMetadata

pub record EncodedEvent : Type 0 where
  pub event_type : String
  pub schema_version : ℕ
  pub payload : List ℕ

pub record AppendEvent : Type 0 where
  pub encoded : EncodedEvent
  pub metadata : EventMetadata

abbrev pub event_id : AppendEvent → ℕ
event_id e = e.metadata.event_id

pub record StoredEvent : Type 0 where
  pub stream_id : StreamId
  pub stream_version : ℕ
  pub global_position : ℕ
  pub event : AppendEvent

unfoldable pub stored_event : StreamId → Value → Value → AppendEvent → Fallible StoredEvent
unfolding positive_int
stored_event stream_id stream_version global_position event = do
  v ← positive_int stream_version
  p ← positive_int global_position
  ok (record { stream_id = stream_id; stream_version = v; global_position = p; event = event })

pub record CommitResult : Type 0 where
  pub events : List StoredEvent

-- `max(versions, default=None)`
larger : Option ℕ → ℕ → Option ℕ
larger none v = some v
larger (some m) v = if ltb m v then some v else some m

unfoldable pub last_version : StreamId → List StoredEvent → Option ℕ → Option ℕ
unfolding larger
last_version sid [] seen = seen
last_version sid (e ∷ events) seen =
    last_version sid events (if e.stream_id == sid then larger seen e.stream_version else seen)

unfoldable pub final_version : CommitResult → StreamId → Option ℕ
unfolding last_version
final_version result stream_id = last_version stream_id result.events none

module _ (strip : String → String) (is_printable : String → Bool) where
  unfoldable pub stable_text : Value → Fallible String
  stable_text (text s) =
      if s == ""
      then err invalid_event_record
      else if not (s == strip s)
      then err invalid_event_record
      else if is_printable s
      then ok s
      else err invalid_event_record
  stable_text _ = err invalid_event_record

  -- `InvalidEventRecordError` is turned into `InvalidStreamIdError`.
  as_stream_id : Fallible StreamId → Fallible StreamId
  as_stream_id (ok s) = ok s
  as_stream_id (err invalid_event_record) = err invalid_stream_id
  as_stream_id (err e) = err e

  unfoldable pub make_stream_id : Value → Value → Fallible StreamId
  unfolding stable_text as_stream_id
  make_stream_id category key =
      as_stream_id
        (do c ← stable_text category; k ← stable_text key; ok (record { category = c; key = k }))

  unfoldable pub encoded_event : Value → Value → Value → Fallible EncodedEvent
  unfolding stable_text positive_int
  encoded_event event_type schema_version (binary payload) = do
    t ← stable_text event_type
    v ← positive_int schema_version
    ok (record { event_type = t; schema_version = v; payload = payload })
  encoded_event event_type schema_version _ = do
    t ← stable_text event_type
    v ← positive_int schema_version
    err invalid_event_record

  -- The event is one of the application's, the stream and the metadata are checked already.
  unfoldable pub recorded_event :
      {Event : Type 0}
      → StreamId
      → Value
      → Value
      → Value
      → Value
      → Event
      → EventMetadata
      → Fallible (RecordedEvent Event)
  unfolding stable_text positive_int
  recorded_event stream_id stream_version global_position event_type schema_version event metadata =
      do
        v ← positive_int stream_version
        p ← positive_int global_position
        t ← stable_text event_type
        n ← positive_int schema_version
        ok (record {
          stream_id = stream_id;
          stream_version = v;
          global_position = p;
          event_type = t;
          schema_version = n;
          event = event;
          metadata = metadata;
        })
