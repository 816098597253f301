-- ===== src/Tests/Cursors.antt =====
-- A key with two owners, and what the in-memory checkpoint store does there.
use tori_py.Prelude.Dict
use tori_py.Prelude.{◌≡◌, ◌≢◌, ◌↔◌, refl, some, [], ◌∷◌, ok, err, arith, string_eq}
use tori_py.Streams.Errors.{ResumeCursor, initialized, last_successful, ownership}
use tori_py.Streams.Models.Positions.{CheckpointKey, OwnershipToken, key_eq}
use tori_py.Streams.Checkpoints.{CheckpointStore, empty, fence, load, compare_and_create, save}
use tori_py.Streams.Checkpoints.Fencing.{Follows, fence_excludes, save_iff}
use tori_py.Streams.Checkpoints.Progress.{
  fence_call, create_call, save_call, run, NotBefore, run-NotBefore,
}

abbrev key : CheckpointKey
key = record { stream = "orders"; group = "billing"; partition = 0 }

abbrev first_owner : OwnershipToken
first_owner = record { owner_id = "a"; generation = 1 }

abbrev second_owner : OwnershipToken
second_owner = record { owner_id = "b"; generation = 2 }

abbrev start : ResumeCursor
start = record { kind = initialized; offset = 0 }

abbrev third : ResumeCursor
third = record { kind = last_successful; offset = 3 }

abbrev store : CheckpointStore
store =
    run
      (fence_call key first_owner
        ∷ create_call key start first_owner
        ∷ save_call key start third first_owner
        ∷ [])
      empty

owners-differ : first_owner ≢ second_owner
owners-differ h = absurd (ground arith)

fence_excludes_example :
    (save key third (record third { offset = 5 }) first_owner (fence key second_owner store)
      ≡ (err ownership, fence key second_owner store))
    × (compare_and_create key start first_owner (fence key second_owner store)
        ≡ (err ownership, fence key second_owner store))
fence_excludes_example =
    fence_excludes key second_owner first_owner store third (record third { offset = 5 }) start
      owners-differ refl

save_iff_example : ((save key third (record third { offset = 5 }) first_owner store).0 ≡ ok tt) ↔ (
    (Dict.get store.owners key ≡ some first_owner)
    × (Dict.get store.cursors key ≡ some third)
    × Follows third (record third { offset = 5 }))
save_iff_example = save_iff key third (record third { offset = 5 }) first_owner store

run-NotBefore_example :
    NotBefore (load key store) (load key (run (save_call key third start first_owner ∷ []) store))
run-NotBefore_example = run-NotBefore (save_call key third start first_owner ∷ []) store key
