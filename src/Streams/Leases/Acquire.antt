-- ===== src/Streams/Leases/Acquire.antt =====
-- `acquire` of inmemory.py, one function for each block that holds the lock: the claim, the
-- installation of the lease, the undoing of a claim, the cursor that a first lease starts from, and
-- the end.
use tori_py.Prelude.Dict
use tori_py.Prelude.{
  ℕ, ◌+◌, String, Option, some, none, [], ◌∷◌, ◌++◌, Bool, true, false, ok, err, ◌>>=◌, ◌>>◌,
  raise_if, if◌then◌else◌, ltb, leb, length, get_elem?, string_eq, pair_eq, nat_eq, option_eq, ◌==◌,
  not,
}
use Prim.Native.String.{count}
use tori_py.Value.{Value, int, text}
use tori_py.Streams.Errors.{
  Fallible, ResumeCursor, initialized, validation, type_error, resource_limit, ownership,
  checkpoint_strategy,
}
use tori_py.Streams.Models.Positions.{
  supports, cursor_at, CheckpointKey, key_eq, token_eq, Subscription,
}
use tori_py.Streams.Ownership.{number}
use tori_py.Streams.Log.{StrategyBinding, Lease, Log, require_open, stream_state, partition_state}
use tori_py.Streams.Leases.{
  set_lease, require_owner_locked, Scope, check_strategy, reserve_strategy,
  release_strategy_reservation, validate_subscription, start_mode_capabilities, resolve_start,
}

-- `ExternalCheckpointStrategy` has its identity and the identity of its store object.
pub data Strategy : Type 0 where
  broker_managed : Strategy
  external : String → ℕ → Strategy
  unsupported : Strategy

-- `ExternalCheckpointStrategy.__post_init__`; `none` is an object that is no checkpoint store.
unfoldable pub external_strategy : Value → Option ℕ → Fallible Strategy
external_strategy (text identity) store =
    raise_if (identity == "") validation
    >> raise_if (ltb 256 (count identity)) validation
    >> (elim store [ none ↦ err type_error | some s ↦ ok (external identity s) ])
external_strategy _ store = err validation

unfoldable pub binding_of : Strategy → Fallible StrategyBinding
binding_of broker_managed = ok (record { mode = "broker_managed"; identity = none; store = none })
binding_of (external identity store) =
    ok (record { mode = "external"; identity = some identity; store = some store })
binding_of unsupported = err checkpoint_strategy

-- The local variables of a call. `marker` is `transfer_marker`, `current` is `current_lease`.
pub record Acquisition : Type 0 where
  pub subscription : Subscription
  pub key : CheckpointKey
  pub binding : StrategyBinding
  pub current : Option ℕ
  pub marker : Option ℕ

abbrev pub scope : Acquisition → Scope
scope a = (a.subscription.stream, a.subscription.group)

-- The checks of the first block up to `_reserve_strategy`; the partition that passed.
unfoldable pub check_acquire : Subscription → Value → Log → Fallible CheckpointKey
check_acquire subscription (int partition) log = do
  require_open log
  state ← stream_state log subscription.stream
  partition_state state (int partition)
  validate_subscription state.definition subscription
  raise_if (not (supports start_mode_capabilities subscription.start)) validation
  ok (record { stream = subscription.stream; group = subscription.group; partition = partition })
check_acquire subscription partition log = do
  require_open log
  state ← stream_state log subscription.stream
  part ← partition_state state partition
  err validation

unfoldable pub release_claim : Acquisition → Log → Log
release_claim a log = release_strategy_reservation (scope a) a.binding log

unfoldable pub in_flight : Log → ℕ → Bool
in_flight log l = elim (get_elem? log.objects l) [
  | none ↦ false
  | some lease ↦ elim lease.in_flight [ none ↦ false | some r ↦ true ]
]

unfoldable pub set_revocation : Bool → ℕ → Log → Log
set_revocation requested l log = elim (get_elem? log.objects l) [
  | none ↦ log
  | some lease ↦ set_lease l (record lease { revocation_requested = requested }) log
]

-- The owner of the partition is asked to give it up.
unfoldable pub request_transfer : Acquisition → ℕ → Log → Acquisition × Log
request_transfer a l log = (
  record a { current = some l; marker = some log.next_marker },
  set_revocation true l (record log {
    transfers = Dict.put log.transfers a.key log.next_marker;
    next_marker = log.next_marker + 1;
  }),
)

-- The rest of the first block.
unfoldable pub claim : Bool → Acquisition → Log → Fallible Acquisition × Log
claim transfer a log = elim (Dict.get log.leases a.key) [
  | none ↦
      if leb log.max_active_leases (length log.owners)
      then (err resource_limit, release_claim a log)
      else (ok a, log)
  | some l ↦
      if not transfer
      then (err ownership, release_claim a log)
      else if Dict.has log.transfers a.key
      then (err ownership, release_claim a log)
      else (let (a', log') = request_transfer a l log in (ok a', log'))
]

-- The part before the first wait.
unfoldable pub begin_acquire :
    Subscription → Value → Strategy → Bool → Log → Fallible Acquisition × Log
begin_acquire subscription partition strategy transfer log = elim (binding_of strategy) [
  | err e ↦ (err e, log)
  | ok binding ↦ elim (check_acquire subscription partition log) [
    | err e ↦ (err e, log)
    | ok key ↦
        let a : Acquisition = record {
          subscription = subscription;
          key = key;
          binding = binding;
          current = none;
          marker = none;
        } in
        elim (check_strategy (scope a) binding log) [
          | err e ↦ (err e, log)
          | ok _ ↦ claim transfer a (reserve_strategy (scope a) binding log)
        ]
  ]
]

-- `self._leases.get(key) is current_lease`, for the lease that a transfer replaces.
unfoldable pub still_current : Acquisition → Log → Bool
still_current a log = Dict.get log.leases a.key == a.current

unfoldable pub current_in_flight : Acquisition → Log → Bool
unfolding in_flight
current_in_flight a log = elim a.current [ none ↦ false | some l ↦ in_flight log l ]

unfoldable pub check_install : Acquisition → Log → Fallible (Unit {0})
check_install a log = require_open log >> elim a.marker [
  | none ↦ raise_if (Dict.has log.leases a.key) ownership
  | some m ↦
      if Dict.get log.transfers a.key == some m
      then raise_if (if still_current a log then current_in_flight a log else false) ownership
      else err ownership
]

-- What a transfer deletes before the new lease is installed.
unfoldable pub retire : Acquisition → Log → Log
unfolding still_current
retire a log = elim a.marker [
  | none ↦ log
  | some m ↦
      let kept =
        if still_current a log
        then record log {
          leases = Dict.remove log.leases a.key;
          owners = Dict.remove log.owners a.key;
        }
        else log in
      record kept { transfers = Dict.remove kept.transfers a.key }
]

-- `self._generations.get(key, 0)`
unfoldable pub generation_of : Log → CheckpointKey → ℕ
generation_of log key = number (Dict.get log.generations key)

-- `InMemoryPartitionLease(self, subscription, key, token, store)`
unfoldable pub new_lease : Acquisition → ℕ → Lease
new_lease a generation = record {
  subscription = a.subscription;
  key = a.key;
  owner = record { owner_id = a.subscription.owner_id; generation = generation };
  store = a.binding.store;
  stopped = false;
  released = false;
  revocation_requested = false;
  in_flight = none;
  delivery_completed = true;
}

unfoldable pub add_lease : Lease → Log → Log
add_lease lease log = record log {
  generations = Dict.put log.generations lease.key lease.owner.generation;
  owners = Dict.put log.owners lease.key lease.owner;
  leases = Dict.put log.leases lease.key (length log.objects);
  objects = log.objects ++ lease ∷ [];
}

-- The second block; the new lease is the last object.
unfoldable pub install : Acquisition → Log → Fallible ℕ × Log
install a log = elim (check_install a log) [
  | err e ↦ (err e, log)
  | ok _ ↦ (
    ok (length log.objects),
    add_lease (new_lease a (generation_of log a.key + 1)) (retire a log),
  )
]

-- `_cancel_acquire`
unfoldable pub cancel_acquire : Acquisition → Log → Log
unfolding still_current
cancel_acquire a log = elim a.marker [
  | none ↦ release_claim a log
  | some m ↦
      if Dict.get log.transfers a.key == some m
      then (let removed = record log { transfers = Dict.remove log.transfers a.key } in
          release_claim a (
            if still_current a removed
            then elim a.current [ none ↦ removed | some l ↦ set_revocation false l removed ]
            else removed))
      else release_claim a log
]

-- `_resolved_cursor`; it is also the new entry of `_broker_cursors`.
unfoldable pub resolved_cursor : Value → Lease → Log → Fallible ResumeCursor
resolved_cursor clock lease log = do
  require_owner_locked lease.key lease.owner log
  state ← stream_state log lease.key.stream
  part ← partition_state state (int lease.key.partition)
  n ← resolve_start clock lease.subscription.start lease.key.stream lease.key.partition part
  ok (cursor_at initialized n)

-- The block of `_initialize` for a broker-managed strategy.
unfoldable pub initialize_broker : Value → Lease → Log → Fallible (Unit {0}) × Log
initialize_broker clock lease log = elim (require_owner_locked lease.key lease.owner log) [
  | err e ↦ (err e, log)
  | ok _ ↦
      if Dict.has log.broker_cursors lease.key
      then (ok tt, log)
      else elim (resolved_cursor clock lease log) [
        | err e ↦ (err e, log)
        | ok cursor ↦
            (ok tt, record log { broker_cursors = Dict.put log.broker_cursors lease.key cursor })
      ]
]

-- The last block.
unfoldable pub finish_acquire : Acquisition → Log → Log
finish_acquire a log =
    release_claim a
      (record log { group_strategies = Dict.put log.group_strategies (scope a) a.binding })
