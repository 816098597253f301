-- ===== src/Streams/Checkpoints/Fencing.antt =====
-- The owner and the cursors that a write to the store of checkpoints.py is checked against.
use tori_py.Prelude.Dict
use tori_py.Prelude.{◌≤◌, ◌<◌, ◌≡◌, ◌≢◌, ◌↔◌, ◌⊎◌, inl, inr, some, ok, err, arith, Option-cases}
use tori_py.Streams.Errors.{ResumeCursor, initialized, last_successful, ownership}
use tori_py.Streams.Models.Positions.{
  CheckpointKey, OwnershipToken, cursor_beq_iff, token_beq_iff, key_eq, token_eq, cursor_eq,
}
use tori_py.Streams.Checkpoints.{
  CheckpointStore, fence, require_owner, compare_and_create, validate_advance, check_save, save,
}

require_owner-fence :
    (key : CheckpointKey) (owner other : OwnershipToken) (store : CheckpointStore)
    → other ≢ owner
    → require_owner key other (fence key owner store) ≡ err ownership
unfolding require_owner fence
require_owner-fence key owner other store ne =
    simp (Dict.get-put_self) (ground (arith, token_beq_iff owner other))

-- Once a new owner has fenced a key, every other owner is refused: neither `save` nor
-- `compare_and_create` of an initialized cursor writes anything.
pub fence_excludes :
    (key : CheckpointKey) (owner other : OwnershipToken) (store : CheckpointStore)
    (expected cursor first : ResumeCursor)
    → other ≢ owner
    → first.kind ≡ initialized
    → (save key expected cursor other (fence key owner store)
        ≡ (err ownership, fence key owner store))
      × (compare_and_create key first other (fence key owner store)
          ≡ (err ownership, fence key owner store))
unfolding save check_save compare_and_create
fence_excludes key owner other store expected cursor first ne is_first =
    let refused = require_owner-fence key owner other store ne in
    (simp (save, refused), simp (compare_and_create, refused, is_first))

-- What a later cursor may be.
abbrev pub Follows : ResumeCursor → ResumeCursor → Type 0
Follows expected cursor =
    (cursor.kind ≡ last_successful)
    × ((expected.kind ≡ initialized) × (expected.offset ≤ cursor.offset)
        ⊎ (expected.kind ≡ last_successful) × (expected.offset < cursor.offset))

require_owner_iff :
    (key : CheckpointKey) (owner : OwnershipToken) (store : CheckpointStore)
    → (require_owner key owner store ≡ ok tt) ↔ (Dict.get store.owners key ≡ some owner)
unfolding require_owner
require_owner_iff key owner store = elim (Option-cases (Dict.get store.owners key)) [
  | inl missing ↦ (λ h. ground arith, λ h. ground arith)
  | inr (current, present) ↦ (
    λ h. ground (arith, token_beq_iff current owner),
    λ h. ground (arith, token_beq_iff current owner),
  )
]

pub validate_advance_iff :
    (expected cursor : ResumeCursor)
    → cursor.kind ≡ last_successful
    → (validate_advance expected cursor ≡ ok tt) ↔ Follows expected cursor
unfolding validate_advance
validate_advance_iff expected cursor k = (λ h. ground arith, λ h. ground arith)

check_save_iff :
    (key : CheckpointKey) (expected cursor : ResumeCursor) (owner : OwnershipToken)
    (store : CheckpointStore)
    → (check_save key expected cursor owner store ≡ ok tt) ↔ (
        (require_owner key owner store ≡ ok tt)
        × (Dict.get store.cursors key ≡ some expected)
        × (cursor.kind ≡ last_successful)
        × (validate_advance expected cursor ≡ ok tt))
unfolding check_save
check_save_iff key expected cursor owner store = elim (Option-cases (Dict.get store.cursors key)) [
  | inl missing ↦ (λ h. ground arith, λ h. ground arith)
  | inr (current, present) ↦ (
    λ h. ground (arith, cursor_beq_iff current expected),
    λ h. ground (arith, cursor_beq_iff current expected),
  )
]

-- `save` succeeds exactly when the caller is the fenced owner, the expected cursor is the stored one,
-- and the new cursor is a last-successful one that follows it.
pub save_iff :
    (key : CheckpointKey) (expected cursor : ResumeCursor) (owner : OwnershipToken)
    (store : CheckpointStore)
    → ((save key expected cursor owner store).0 ≡ ok tt) ↔ (
        (Dict.get store.owners key ≡ some owner)
        × (Dict.get store.cursors key ≡ some expected)
        × Follows expected cursor)
unfolding save
save_iff key expected cursor owner store =
    let owners = require_owner_iff key owner store in
    let checks = check_save_iff key expected cursor owner store in
    (
      λ h.
          let (o, c, k, a) = checks.0 (ground arith) in
          (owners.0 o, c, (validate_advance_iff expected cursor k).0 a),
      λ h. ground (
        arith,
        checks.1 (owners.1 h.0, h.1, h.2.0, (validate_advance_iff expected cursor h.2.0).1 h.2),
      ),
    )
