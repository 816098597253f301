-- ===== src/Streams/Models/Requests.antt =====
-- `StreamDefinition`, `AppendRequest` and `PublishReceipt` of models.py.
use tori_py.Prelude.Dict
use tori_py.Prelude.Dict.{Dict}
use tori_py.Prelude.{
  ℕ, String, Option, some, none, List, [], ◌∷◌, ◌==◌, string_eq, nat_eq, list_eq, option_eq,
  option_beq, pair_eq, if◌then◌else◌, ltb, Bool, true, false, ◌&&◌, ◌||◌, ok, err, ◌>>=◌, ◌>>◌,
  raise_if, length,
}
use Prim.Native.String.{count}
use tori_py.Value.{Value, nothing, text}
use tori_py.Streams.Errors.{Fallible, validation, resource_limit}
use tori_py.Streams.Models.{positive, offset, name as name_value, bytes, uuid_value, is_empty}
use tori_py.Streams.Models.Limits.{StreamLimits, fields}
use tori_py.Streams.Routing.{PartitionRouter}

pub record StreamDefinition : Type 0 where
  pub name : String
  pub partition_count : ℕ
  pub limits : StreamLimits
  pub router : PartitionRouter
  pub router_identity : String
  pub router_compatibility_key : List String

-- `isinstance(identity, str) and identity`
router_identity : Value → Fallible String
router_identity (text s) = if s == "" then err validation else ok s
router_identity _ = err validation

-- `none` is a router that cannot be copied, read or hashed, or that is no `PartitionRouter`.
unfoldable pub stream_definition :
    Value → Value → StreamLimits → Option PartitionRouter → Fallible StreamDefinition
unfolding router_identity name_value positive
stream_definition name partition_count limits router = do
  n ← name_value name limits.max_name_chars
  c ← positive partition_count
  raise_if (ltb limits.max_partitions c) resource_limit
  r ← elim router [ none ↦ err validation | some r ↦ ok r ]
  i ← router_identity r.identity
  ok (record {
    name = n;
    partition_count = c;
    limits = limits;
    router = r;
    router_identity = i;
    router_compatibility_key = r.compatibility_key;
  })

abbrev pub CompatibilityKey : Type 0
CompatibilityKey = ℕ × (List ℕ × (String × List String))

unfoldable pub compatibility_key : StreamDefinition → CompatibilityKey
unfolding fields
compatibility_key d =
    (d.partition_count, (fields d.limits, (d.router_identity, d.router_compatibility_key)))

abbrev pub Headers : Type 0
Headers = Dict String (List ℕ)

pub record AppendRequest : Type 0 where
  pub record_id : ℕ
  pub partition_key : List ℕ
  pub payload : List ℕ
  pub headers : Headers
  pub producer_name : Option String
  pub publishing_id : Option ℕ

-- The loop over the mapping's items, which fills `copied`.
unfoldable pub copy_headers : List (Value × Value) → Headers → Fallible Headers
unfolding bytes Dict.has Dict.put
copy_headers [] copied = ok copied
copy_headers ((text n, v) ∷ items) copied =
    let rest = λ (b : List ℕ). copy_headers items (Dict.put copied n b) in
    if n == "" || Dict.has copied n then err validation else (bytes v >>= rest)
copy_headers _ copied = err validation

-- `producer_name` and `publishing_id`, which come together or not at all.
unfoldable pub producer : Value → Value → Fallible (Option String × Option ℕ)
unfolding offset
producer nothing nothing = ok (none, none)
producer nothing _ = err validation
producer _ nothing = err validation
producer (text s) id = if s == "" then err validation else (do i ← offset id; ok (some s, some i))
producer _ id = err validation

-- `none` is a `headers` argument that is no mapping.
unfoldable pub append_request :
    Value → Value → Value → Option (List (Value × Value)) → Value → Value → Fallible AppendRequest
unfolding uuid_value bytes copy_headers producer
append_request record_id partition_key payload headers producer_name publishing_id = do
  u ← uuid_value record_id
  k ← bytes partition_key
  raise_if (is_empty k) validation
  p ← bytes payload
  items ← elim headers [ none ↦ err validation | some items ↦ ok items ]
  h ← copy_headers items []
  (n, i) ← producer producer_name publishing_id
  ok (record {
    record_id = u;
    partition_key = k;
    payload = p;
    headers = h;
    producer_name = n;
    publishing_id = i;
  })

-- Every entry of one mapping is an entry of the other.
unfoldable pub includes : Headers → Headers → Bool
unfolding Dict.get
includes [] h = true
includes ((n, v) ∷ items) h = option_beq (Dict.get h n) (some v) && includes items h

-- `==` on mappings ignores the order of the entries.
unfoldable pub headers_equal : Headers → Headers → Bool
unfolding includes
headers_equal g h = length g == length h && includes g h

-- The `__eq__` that `@dataclass` generates.
unfoldable pub request_equal : AppendRequest → AppendRequest → Bool
unfolding headers_equal
request_equal a b =
    a.record_id == b.record_id
    && a.partition_key == b.partition_key
    && a.payload == b.payload
    && headers_equal a.headers b.headers
    && a.producer_name == b.producer_name
    && a.publishing_id == b.publishing_id

pub data PublishOutcome : Type 0 where
  confirmed deduplicated rejected timed_out closed backpressured indeterminate : PublishOutcome

pub record PublishReceipt : Type 0 where
  pub record_id : ℕ
  pub partition : ℕ
  pub outcome : PublishOutcome
  pub confirmation_facts : List String

-- A fact of more than 256 characters.
any_long_fact : List String → Bool
any_long_fact [] = false
any_long_fact (f ∷ fs) = ltb 256 (count f) || any_long_fact fs

unfoldable pub publish_receipt :
    Value → Value → PublishOutcome → List String → Fallible PublishReceipt
unfolding uuid_value offset any_long_fact
publish_receipt record_id partition outcome facts = do
  u ← uuid_value record_id
  p ← offset partition
  raise_if (ltb 16 (length facts) || any_long_fact facts) resource_limit
  ok (record { record_id = u; partition = p; outcome = outcome; confirmation_facts = facts })
