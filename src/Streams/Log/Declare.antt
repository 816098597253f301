-- ===== src/Streams/Log/Declare.antt =====
-- `__init__`, `start`, `quiesce` and `declare_stream` of inmemory.py.
use tori_py.Prelude.Dict
use tori_py.Prelude.{
  ℕ, some, none, [], Bool, true, false, ok, err, ◌>>=◌, if◌then◌else◌, replicate, ◌==◌, string_eq,
  nat_eq, list_eq, pair_eq,
}
use tori_py.Value.{Value}
use tori_py.Streams.Models.{positive}
use tori_py.Streams.Errors.{Fallible, incompatible_stream}
use tori_py.Streams.Models.Requests.{StreamDefinition, compatibility_key}
use tori_py.Streams.Log.{when_open, Log, PartitionState, StreamState}

-- The fields that `__init__` sets.
abbrev pub new_log : ℕ → Log
new_log n = record {
  max_active_leases = n;
  streams = [];
  owners = [];
  leases = [];
  transfers = [];
  generations = [];
  broker_cursors = [];
  group_strategies = [];
  pending_group_strategies = [];
  closed = false;
  started = false;
  quiescing = false;
  objects = [];
  next_marker = 0;
}

unfoldable pub init : Value → Fallible Log
unfolding positive
init max_active_leases = do n ← positive max_active_leases; ok (new_log n)

unfoldable pub start : Log → Fallible (Unit {0}) × Log
start = when_open λ log. (ok tt, record log { started = true; quiescing = false })

unfoldable pub quiesce : Log → Log
quiesce log = record log { quiescing = true }

abbrev pub empty_partition : PartitionState
empty_partition = record {
  records = [];
  next_offset = 0;
  earliest_offset = 0;
  last_timestamp = none;
  removed_through = none;
}

abbrev pub new_stream : StreamDefinition → StreamState
new_stream definition = record {
  definition = definition;
  partitions = replicate definition.partition_count empty_partition;
  producers = [];
}

-- The test of the two compatibility keys.
unfoldable pub compatible : StreamDefinition → StreamDefinition → Bool
compatible a b = compatibility_key a == compatibility_key b

unfoldable pub declare : StreamDefinition → Log → Fallible (Unit {0}) × Log
unfolding compatible
declare definition log = elim (Dict.get log.streams definition.name) [
  | none ↦
      (ok tt, record log { streams = Dict.put log.streams definition.name (new_stream definition) })
  | some current ↦
      if compatible current.definition definition
      then (ok tt, log)
      else (err (incompatible_stream definition.name), log)
]

-- `definition` is the validated snapshot.
unfoldable pub declare_stream : StreamDefinition → Log → Fallible (Unit {0}) × Log
declare_stream definition = when_open (declare definition)
