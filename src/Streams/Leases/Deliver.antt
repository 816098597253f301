-- ===== src/Streams/Leases/Deliver.antt =====
-- `next_record`, `checkpoint`, `stop` and `release` of a lease and `close` of the log, of inmemory.py:
-- one function for each block that holds the lock, or that runs between two waits.
use tori_py.Prelude.Dict
use tori_py.Prelude.Dict.{Dict}
use tori_py.Prelude.{
  ℕ, Option, some, none, List, [], ◌∷◌, Bool, true, false, ok, err, ◌>>=◌, ◌>>◌, raise_if,
  if◌then◌else◌, ltb, leb, get_elem?, string_eq, nat_eq, option_eq, ◌==◌, ◌&&◌, not,
}
use tori_py.Value.{int}
use tori_py.Streams.Errors.{
  Fallible, ResumeCursor, initialized, last_successful, ownership, checkpoint, lifecycle,
}
use tori_py.Streams.Models.Records.{StoredRecord}
use tori_py.Streams.Models.Positions.{cursor_eq, CheckpointKey, key_eq, token_eq}
use tori_py.Streams.Checkpoints.{validate_advance}
use tori_py.Streams.Log.{
  Lease, Log, PartitionState, stream_state, partition_state, require_retained,
}
use tori_py.Streams.Leases.{set_lease, require_owner_locked}

-- `InMemoryPartitionLease._require_active`
unfoldable pub require_active : Lease → Fallible (Unit {0})
require_active lease = raise_if lease.released lifecycle >> raise_if lease.stopped lifecycle

-- The block of `_load_cursor` for a broker-managed strategy, with the test after it.
unfoldable pub load_broker_cursor : Lease → Log → Fallible ResumeCursor
load_broker_cursor lease log = do
  require_owner_locked lease.key lease.owner log
  elim (Dict.get log.broker_cursors lease.key) [ none ↦ err checkpoint | some cursor ↦ ok cursor ]

-- Whether a record comes after what the cursor says was processed.
unfoldable pub follows : ResumeCursor → StoredRecord → Bool
follows cursor r = elim cursor.kind [
  | initialized ↦ leb cursor.offset r.offset
  | last_successful ↦ ltb cursor.offset r.offset
]

-- The loop of `_next`.
unfoldable pub next_after : ResumeCursor → List StoredRecord → Option StoredRecord
next_after cursor [] = none
next_after cursor (r ∷ records) =
    let rest = next_after cursor records in if follows cursor r then some r else rest

is_some : Option StoredRecord → Bool
is_some none = false
is_some (some r) = true

-- The checks of the block of `_next`; the partition.
unfoldable pub check_next : ResumeCursor → Lease → Log → Fallible PartitionState
unfolding is_some
check_next cursor lease log = do
  require_owner_locked lease.key lease.owner log
  raise_if lease.revocation_requested ownership
  raise_if (is_some lease.in_flight) lifecycle
  state ← stream_state log lease.key.stream
  part ← partition_state state (int lease.key.partition)
  require_retained lease.key.stream lease.key.partition cursor.offset part (some lease.key.group)
  ok part

abbrev pub delivering : Lease → StoredRecord → Lease
delivering lease r = record lease { in_flight = some r; delivery_completed = false }

-- The block of `_next`.
unfoldable pub next_locked : ResumeCursor → ℕ → Lease → Log → Fallible (Option StoredRecord) × Log
next_locked cursor l lease log = elim (check_next cursor lease log) [
  | err e ↦ (err e, log)
  | ok part ↦ elim (next_after cursor part.records) [
    | none ↦ (ok none, log)
    | some r ↦ (ok (some r), set_lease l (delivering lease r) log)
  ]
]

-- A reference to a record: an object of the log, of which there is one for each stream, partition and
-- offset, or another object of the same class.
pub data RecordObject : Type 0 where
  stored : StoredRecord → RecordObject
  made : StoredRecord → RecordObject

abbrev pub record_of : RecordObject → StoredRecord
record_of (stored r) = r
record_of (made r) = r

abbrev pub same_record : StoredRecord → StoredRecord → Bool
same_record a b = a.stream == b.stream && a.partition == b.partition && a.offset == b.offset

-- `record is self._in_flight`
unfoldable pub is_in_flight : RecordObject → Option StoredRecord → Bool
is_in_flight (stored r) (some current) = same_record r current
is_in_flight _ _ = false

-- What `checkpoint` looks at before it calls `_checkpoint`: the owner under the lock, then the record.
unfoldable pub check_in_flight : RecordObject → Lease → Log → Fallible (Unit {0})
check_in_flight r lease log = do
  require_owner_locked lease.key lease.owner log
  raise_if (not (is_in_flight r lease.in_flight)) checkpoint

-- `_complete_delivery_locked`, and what `_stop`, `_release` and `close` do beside it.
abbrev pub completed : Lease → Lease
completed lease = record lease { in_flight = none; delivery_completed = true }

unfoldable pub complete_delivery : ℕ → Lease → Log → Log
complete_delivery l lease log = set_lease l (completed lease) log

-- The last block of `_checkpoint` for a broker-managed strategy.
unfoldable pub check_advance : ResumeCursor → ResumeCursor → Lease → Log → Fallible (Unit {0})
check_advance expected cursor lease log = do
  require_owner_locked lease.key lease.owner log
  raise_if (not (Dict.get log.broker_cursors lease.key == some expected)) checkpoint
  validate_advance expected cursor

unfoldable pub advance : ResumeCursor → ResumeCursor → ℕ → Lease → Log → Fallible (Unit {0}) × Log
advance expected cursor l lease log = elim (check_advance expected cursor lease log) [
  | err e ↦ (err e, log)
  | ok _ ↦ (
    ok tt,
    complete_delivery l lease
        (record log { broker_cursors = Dict.put log.broker_cursors lease.key cursor }),
  )
]

-- The last block of `_checkpoint` for an external strategy.
unfoldable pub confirm : ℕ → Lease → Log → Fallible (Unit {0}) × Log
confirm l lease log = elim (require_owner_locked lease.key lease.owner log) [
  | err e ↦ (err e, log)
  | ok _ ↦ (ok tt, complete_delivery l lease log)
]

-- `_stop`
unfoldable pub stop : ℕ → Lease → Log → Log
stop l lease log = set_lease l (completed (record lease { stopped = true })) log

-- `_release`
unfoldable pub release_locked : ℕ → Lease → Log → Log
release_locked l lease log =
    let freed = set_lease l (completed (record lease { released = true })) log in
    if Dict.get log.leases lease.key == some l
    then record freed {
      leases = Dict.remove freed.leases lease.key;
      owners = Dict.remove freed.owners lease.key;
    }
    else freed

-- The loop of `close` over the leases.
unfoldable pub release_all : List (CheckpointKey × ℕ) → Log → Log
release_all [] log = log
release_all ((key, l) ∷ leases) log = release_all leases (elim (get_elem? log.objects l) [
  | none ↦ log
  | some lease ↦ set_lease l (completed (record lease { released = true })) log
])

unfoldable pub close : Log → Log
close log = record (release_all log.leases (record log { closed = true; quiescing = true })) {
  owners = [];
  leases = [];
  transfers = [];
}
