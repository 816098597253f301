-- ===== src/Streams/Checkpoints.antt =====
-- `InMemoryCheckpointStore` of checkpoints.py of
-- packages/tori-py-persistent-streams-core/src/tori_py_persistent_streams_core. Every method holds the
-- store's lock, so each is one step on the state.
pub mod Fencing
pub mod Progress
use tori_py.Prelude.Dict
use tori_py.Prelude.Dict.{Dict}
use tori_py.Prelude.{
  ℕ, Option, none, some, [], Bool, true, false, ok, err, ◌>>=◌, ◌>>◌, raise_if, if◌then◌else◌, ltb,
  leb, not, ◌&&◌, ◌==◌,
}
use tori_py.Streams.Errors.{
  Fallible, ResumeCursor, CursorKind, initialized, last_successful, ownership, checkpoint,
}
use tori_py.Streams.Models.Positions.{
  CheckpointKey, OwnershipToken, kind_beq, cursor_eq, key_eq, token_eq,
}

pub record CheckpointStore : Type 0 where
  pub cursors : Dict CheckpointKey ResumeCursor
  pub owners : Dict CheckpointKey OwnershipToken

abbrev pub empty : CheckpointStore
empty = record { cursors = []; owners = [] }

unfoldable pub fence : CheckpointKey → OwnershipToken → CheckpointStore → CheckpointStore
fence key owner store = record store { owners = Dict.put store.owners key owner }

unfoldable pub load : CheckpointKey → CheckpointStore → Option ResumeCursor
load key store = Dict.get store.cursors key

abbrev is_owner : Option OwnershipToken → OwnershipToken → Bool
is_owner none owner = false
is_owner (some current) owner = current == owner

unfoldable pub require_owner :
    CheckpointKey → OwnershipToken → CheckpointStore → Fallible (Unit {0})
require_owner key owner store =
    if is_owner (Dict.get store.owners key) owner then ok tt else err ownership

-- `dict.setdefault`
set_default : CheckpointKey → ResumeCursor → CheckpointStore → ResumeCursor × CheckpointStore
set_default key cursor store = elim (Dict.get store.cursors key) [
  | none ↦ (cursor, record store { cursors = Dict.put store.cursors key cursor })
  | some current ↦ (current, store)
]

unfoldable pub compare_and_create :
    CheckpointKey
    → ResumeCursor
    → OwnershipToken
    → CheckpointStore
    → Fallible ResumeCursor × CheckpointStore
unfolding set_default
compare_and_create key cursor owner store =
    if kind_beq cursor.kind initialized
    then elim (require_owner key owner store) [
      | err e ↦ (err e, store)
      | ok _ ↦ let (current, store') = set_default key cursor store in (ok current, store')
    ]
    else (err checkpoint, store)

abbrev is_current : Option ResumeCursor → ResumeCursor → Bool
is_current none expected = false
is_current (some current) expected = current == expected

-- The checks of `save` on the cursors, which the broker-managed path of the log makes too.
unfoldable pub validate_advance : ResumeCursor → ResumeCursor → Fallible (Unit {0})
validate_advance expected cursor =
    raise_if (kind_beq expected.kind last_successful && leb cursor.offset expected.offset)
      checkpoint
    >> raise_if (kind_beq expected.kind initialized && ltb cursor.offset expected.offset) checkpoint

unfoldable pub check_save :
    CheckpointKey
    → ResumeCursor
    → ResumeCursor
    → OwnershipToken
    → CheckpointStore
    → Fallible (Unit {0})
unfolding validate_advance require_owner
check_save key expected cursor owner store = do
  require_owner key owner store
  raise_if (not (is_current (Dict.get store.cursors key) expected)) checkpoint
  raise_if (not (kind_beq cursor.kind last_successful)) checkpoint
  validate_advance expected cursor

unfoldable pub save :
    CheckpointKey
    → ResumeCursor
    → ResumeCursor
    → OwnershipToken
    → CheckpointStore
    → Fallible (Unit {0}) × CheckpointStore
save key expected cursor owner store = elim (check_save key expected cursor owner store) [
  | err e ↦ (err e, store)
  | ok _ ↦ (ok tt, record store { cursors = Dict.put store.cursors key cursor })
]
