-- ===== src/Streams/Checkpoints/Progress.antt =====
-- Any sequence of calls that owners and former owners make to the store of checkpoints.py.
use tori_py.Prelude.Dict
use tori_py.Prelude.Dict.{Dict}
use tori_py.Prelude.{
  ◌≡◌, refl, ◌⊎◌, inl, inr, Option, none, some, List, [], ◌∷◌, arith, Bool-cases, Option-cases,
  Result-cases, ◌==◌,
}
use tori_py.Streams.Errors.{ResumeCursor, initialized}
use tori_py.Streams.Models.Positions.{CheckpointKey, OwnershipToken, key_beq_iff, key_eq, kind_beq}
use tori_py.Streams.Checkpoints.{
  CheckpointStore, fence, load, require_owner, set_default, compare_and_create, check_save, save,
}
use tori_py.Streams.Checkpoints.Fencing.{Follows, save_iff}

-- The calls that can change the store.
pub data Call : Type 0 where
  fence_call : CheckpointKey → OwnershipToken → Call
  create_call : CheckpointKey → ResumeCursor → OwnershipToken → Call
  save_call : CheckpointKey → ResumeCursor → ResumeCursor → OwnershipToken → Call

unfoldable pub step : Call → CheckpointStore → CheckpointStore
step (fence_call key owner) store = fence key owner store
step (create_call key cursor owner) store = (compare_and_create key cursor owner store).1
step (save_call key expected cursor owner) store = (save key expected cursor owner store).1

unfoldable pub run : List Call → CheckpointStore → CheckpointStore
run [] store = store
run (c ∷ calls) store = run calls (step c store)

-- The second cursor is the first or follows it; a stored cursor does not disappear.
abbrev pub NotBefore : Option ResumeCursor → Option ResumeCursor → Type 0
NotBefore none _ = Unit
NotBefore (some a) none = ⊥
NotBefore (some a) (some b) = (a ≡ b) ⊎ Follows a b

pub NotBefore-refl : (a : Option ResumeCursor) → NotBefore a a
NotBefore-refl none = tt
NotBefore-refl (some a) = inl refl

pub NotBefore-trans : (a b c : Option ResumeCursor) → NotBefore a b → NotBefore b c → NotBefore a c
NotBefore-trans none b c h k = tt
NotBefore-trans (some a) none c h k = absurd h
NotBefore-trans (some a) (some b) none h k = absurd k
NotBefore-trans (some a) (some b) (some c) (inl e) k = rw e k
NotBefore-trans (some a) (some b) (some c) (inr e) (inl k) = rw (← k) (inr e)
NotBefore-trans (some a) (some b) (some c) (inr e) (inr k) = inr (ground arith)

-- A write of a cursor that follows the stored one.
pub NotBefore-put :
    (cursors : Dict CheckpointKey ResumeCursor) (key other : CheckpointKey) (cursor : ResumeCursor)
    → NotBefore (Dict.get cursors key) (some cursor)
    → NotBefore (Dict.get cursors other) (Dict.get (Dict.put cursors key cursor) other)
NotBefore-put cursors key other cursor h = elim (Bool-cases (key == other)) [
  | inl same ↦ rw (Dict.get-put, same, ← (key_beq_iff key other).0 same) h
  | inr different ↦ rw (Dict.get-put, different) (NotBefore-refl (Dict.get cursors other))
]

fence-NotBefore :
    (key other : CheckpointKey) (owner : OwnershipToken) (store : CheckpointStore)
    → NotBefore (load other store) (load other (fence key owner store))
unfolding load fence
fence-NotBefore key other owner store = NotBefore-refl (Dict.get store.cursors other)

set_default-NotBefore :
    (key other : CheckpointKey) (cursor : ResumeCursor) (store : CheckpointStore)
    → NotBefore (load other store) (load other (set_default key cursor store).1)
unfolding load set_default
set_default-NotBefore key other cursor store = elim (Option-cases (Dict.get store.cursors key)) [
  | inl missing ↦
      simp (missing, set_default) (NotBefore-put store.cursors key other cursor (rw missing tt))
  | inr (current, present) ↦
      simp (present, set_default) (NotBefore-refl (Dict.get store.cursors other))
]

create-NotBefore :
    (key other : CheckpointKey) (cursor : ResumeCursor) (owner : OwnershipToken)
    (store : CheckpointStore)
    → NotBefore (load other store) (load other (compare_and_create key cursor owner store).1)
unfolding compare_and_create
create-NotBefore key other cursor owner store =
    elim (Bool-cases (kind_beq cursor.kind initialized)) [
      | inl first ↦ elim (Result-cases (require_owner key owner store)) [
        | inl (e, refused) ↦
            simp (first, refused, compare_and_create) (NotBefore-refl (load other store))
        | inr (u, owned) ↦
            simp (first, owned, compare_and_create) (set_default-NotBefore key other cursor store)
      ]
      | inr later ↦ simp (later, compare_and_create) (NotBefore-refl (load other store))
    ]

save-NotBefore :
    (key other : CheckpointKey) (expected cursor : ResumeCursor) (owner : OwnershipToken)
    (store : CheckpointStore)
    → NotBefore (load other store) (load other (save key expected cursor owner store).1)
unfolding save load
save-NotBefore key other expected cursor owner store =
    elim (Result-cases (check_save key expected cursor owner store)) [
      | inl (e, refused) ↦ simp (refused, save) (NotBefore-refl (Dict.get store.cursors other))
      | inr (u, checked) ↦
          let (_, stored, follows) = (save_iff key expected cursor owner store).0 (ground arith) in
          simp (checked, save)
            (NotBefore-put store.cursors key other cursor (rw stored (inr follows)))
    ]

step-NotBefore :
    (call : Call) (store : CheckpointStore) (key : CheckpointKey)
    → NotBefore (load key store) (load key (step call store))
unfolding step
step-NotBefore (fence_call k owner) store key = fence-NotBefore k key owner store
step-NotBefore (create_call k cursor owner) store key = create-NotBefore k key cursor owner store
step-NotBefore (save_call k expected cursor owner) store key =
    save-NotBefore k key expected cursor owner store

-- After any sequence of calls, each key's cursor is the one that it had before, or one that follows it:
-- no call of any owner, current or fenced out, removes a cursor or moves it back.
pub run-NotBefore :
    (calls : List Call) (store : CheckpointStore) (key : CheckpointKey)
    → NotBefore (load key store) (load key (run calls store))
unfolding run
run-NotBefore [] store key = NotBefore-refl (load key store)
run-NotBefore (c ∷ calls) store key =
    NotBefore-trans (load key store) (load key (step c store)) (load key (run calls (step c store)))
      (step-NotBefore c store key) (run-NotBefore calls (step c store) key)
