-- ===== src/Streams/Models/Records.antt =====
-- `StoredRecord`, `AvailableBounds` and `RecordPage` of models.py.
use tori_py.Prelude.{
  ℕ, String, Option, List, [], ◌∷◌, Bool, true, false, ◌&&◌, ◌==◌, string_eq, ltb, ok, err, ◌>>=◌,
  ◌>>◌, raise_if, if◌then◌else◌,
}
use tori_py.Value.{Value}
use tori_py.Streams.Errors.{Fallible, AvailableBounds, validation}
use tori_py.Streams.Models.{offset, is_empty}
use tori_py.Streams.Models.Requests.{Headers}

pub record StoredRecord : Type 0 where
  pub record_id : ℕ
  pub stream : String
  pub partition_key : List ℕ
  pub payload : List ℕ
  pub headers : Headers
  pub partition : ℕ
  pub offset : ℕ
  pub appended_at : ℕ

any_empty_name : Headers → Bool
any_empty_name [] = false
any_empty_name ((n, v) ∷ items) = if n == "" then true else any_empty_name items

-- The checks of `__post_init__` that values of the fields' types can fail.
unfoldable pub stored_record : StoredRecord → Fallible StoredRecord
unfolding any_empty_name
stored_record r = do
  raise_if (r.stream == "") validation
  raise_if (is_empty r.partition_key) validation
  raise_if (any_empty_name r.headers) validation
  ok r

unfoldable pub available_bounds : Value → Value → Fallible AvailableBounds
unfolding offset
available_bounds earliest_offset end_offset = do
  a ← offset earliest_offset
  b ← offset end_offset
  raise_if (ltb b a) validation
  ok (record { earliest_offset = a; end_offset = b })

pub record RecordPage : Type 0 where
  pub records : List StoredRecord
  pub bounds : Option AvailableBounds

-- The test over neighbours, `zip(records, records[1:])`.
unfoldable pub increasing : List StoredRecord → Bool
increasing [] = true
increasing (r ∷ []) = true
increasing (r ∷ s ∷ rs) = ltb r.offset s.offset && increasing (s ∷ rs)

unfoldable pub record_page : List StoredRecord → Option AvailableBounds → Fallible RecordPage
unfolding increasing
record_page records bounds =
    if increasing records
    then ok (record { records = records; bounds = bounds })
    else err validation
