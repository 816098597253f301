-- ===== src/Streams/Leases.antt =====
-- Leases of inmemory.py: the lease objects, the guard on their owner, the strategies of consumer groups
-- and the offset that a start position stands for. A lease is named by its place in `objects`; Python
-- has no reference to an object that is not there, and `on_lease` answers such a one with `assertion`.
pub mod Acquire
pub mod Deliver
pub mod Tasks
pub mod Scheduler
pub mod View
pub mod Run
pub mod Refines
pub mod Cursors
pub mod Streams
pub mod History
pub mod Owners
pub mod Ends
pub mod Next
pub mod Handover
pub mod Acquired
use tori_py.Prelude.Dict
use tori_py.Prelude.{
  ℕ, ◌+◌, ◌-◌, ◌*◌, ◌≡◌, ◌↔◌, String, Option, some, none, List, [], ◌∷◌, Bool, true, false, Result,
  ok, err, ◌>>=◌, ◌>>◌, raise_if, if◌then◌else◌, ltb, leb, get_elem?, set, string_eq, pair_eq,
  nat_eq, option_eq, option_beq_iff, Eq, ◌==◌, ◌&&◌, not, arith,
}
use Prim.Native.String.{count}
use tori_py.Value.{Value, int}
use tori_py.Streams.Errors.{
  Error, Fallible, RetentionGap, requested_timestamp, retention_gap, validation, resource_limit,
  ownership, checkpoint_strategy, assertion, overflow_error,
}
use tori_py.Streams.Models.{aware}
use tori_py.Streams.Models.Requests.{StreamDefinition}
use tori_py.Streams.Models.Records.{StoredRecord}
use tori_py.Streams.Models.Positions.{
  StartPosition, beginning, end, exact_offset, timestamp, relative_time, StartModeCapabilities,
  supports, CheckpointKey, key_eq, OwnershipToken, token_eq, Subscription,
}
use tori_py.Streams.Log.{
  PartitionState, StrategyBinding, Lease, Log, require_open, stream_state, partition_state,
  bounds_of, require_retained,
}

abbrev pub on_lease {ℓ} :
    {A : Type ℓ} → ℕ → (Lease → Log → Result Error A × Log) → Log → Result Error A × Log
on_lease l body log = elim (get_elem? log.objects l) [
  | none ↦ (err assertion, log)
  | some lease ↦ body lease log
]

unfoldable pub set_lease : ℕ → Lease → Log → Log
set_lease l lease log = record log { objects = set log.objects l lease }

unfoldable pub require_owner_locked : CheckpointKey → OwnershipToken → Log → Fallible (Unit {0})
require_owner_locked key owner log =
    require_open log >> (if Dict.get log.owners key == some owner then ok tt else err ownership)

-- `_StrategyBinding.__eq__`
abbrev pub binding_beq : StrategyBinding → StrategyBinding → Bool
binding_beq a b = a.mode == b.mode && a.identity == b.identity && a.store == b.store

pub binding_beq_iff : (a b : StrategyBinding) → (binding_beq a b ≡ true) ↔ (a ≡ b)
binding_beq_iff a b = (
  λ h. ground (
    arith,
    string_eq.beq_iff a.mode b.mode,
    option_beq_iff a.identity b.identity,
    option_beq_iff a.store b.store,
  ),
  λ h. ground (
    arith,
    string_eq.beq_iff a.mode b.mode,
    option_beq_iff a.identity b.identity,
    option_beq_iff a.store b.store,
  ),
)

instance abbrev pub binding_eq : Eq StrategyBinding
binding_eq = record { beq = binding_beq; beq_iff = binding_beq_iff }

abbrev pub Scope : Type 0
Scope = String × String

-- `current is not None and current != binding`
unfoldable pub check_binding : StrategyBinding → Option StrategyBinding → Fallible (Unit {0})
check_binding binding none = ok tt
check_binding binding (some current) = raise_if (not (current == binding)) checkpoint_strategy

abbrev pub pending_binding : Option (StrategyBinding × ℕ) → Option StrategyBinding
pending_binding none = none
pending_binding (some (binding, n)) = some binding

-- The two checks of `_reserve_strategy`.
unfoldable pub check_strategy : Scope → StrategyBinding → Log → Fallible (Unit {0})
unfolding check_binding
check_strategy scope binding log =
    check_binding binding (Dict.get log.group_strategies scope)
    >> check_binding binding (pending_binding (Dict.get log.pending_group_strategies scope))

unfoldable pub reservations : Option (StrategyBinding × ℕ) → ℕ
reservations none = 0
reservations (some (binding, n)) = n

unfoldable pub reserve_strategy : Scope → StrategyBinding → Log → Log
unfolding reservations
reserve_strategy scope binding log = record log {
  pending_group_strategies =
      Dict.put log.pending_group_strategies scope
        (binding, reservations (Dict.get log.pending_group_strategies scope) + 1);
}

release_pending : Scope → StrategyBinding → Option (StrategyBinding × ℕ) → Log → Log
release_pending scope binding none log = log
release_pending scope binding (some (pending, n)) log =
    if pending == binding
    then (if n == 1
        then record log {
          pending_group_strategies = Dict.remove log.pending_group_strategies scope;
        }
        else record log {
          pending_group_strategies = Dict.put log.pending_group_strategies scope (binding, n - 1);
        })
    else log

unfoldable pub release_strategy_reservation : Scope → StrategyBinding → Log → Log
unfolding release_pending
release_strategy_reservation scope binding log =
    release_pending scope binding (Dict.get log.pending_group_strategies scope) log

-- `timedelta(days=…)` raises above 999,999,999 days.
unfoldable pub check_age : ℕ → StartPosition → Fallible (Unit {0})
check_age days (relative_time age) =
    raise_if (ltb 999_999_999 days) overflow_error
    >> raise_if (ltb (days * 86_400_000_000) age) resource_limit
check_age days _ = ok tt

unfoldable pub validate_subscription : StreamDefinition → Subscription → Fallible (Unit {0})
unfolding check_age
validate_subscription definition subscription =
    raise_if (ltb definition.limits.max_group_chars (count subscription.group)) resource_limit
    >> raise_if (ltb definition.limits.max_owner_chars (count subscription.owner_id)) resource_limit
    >> check_age definition.limits.max_relative_age_days subscription.start

-- `InMemoryPersistentLog.start_mode_capabilities`
abbrev pub start_mode_capabilities : StartModeCapabilities
start_mode_capabilities = record {
  beginning = true;
  end = true;
  exact_offset = true;
  timestamp = true;
  relative_time = true;
}

-- The first record at or after a moment, or the end.
unfoldable pub offset_at : ℕ → ℕ → List StoredRecord → ℕ
offset_at target end_offset [] = end_offset
offset_at target end_offset (r ∷ records) =
    let rest = offset_at target end_offset records in
    if leb target r.appended_at then r.offset else rest

removed_since : ℕ → Option ℕ → Bool
removed_since target none = false
removed_since target (some t) = leb target t

unfoldable pub resolve_moment : ℕ → String → ℕ → PartitionState → Fallible ℕ
unfolding removed_since
resolve_moment target stream partition part =
    if removed_since target part.removed_through
    then (do
      b ← bounds_of part
      err (
          retention_gap (record {
            stream = stream;
            partition = partition;
            requested = requested_timestamp target;
            bounds = b;
            group = none;
          })))
    else ok (offset_at target part.next_offset part.records)

-- `clock` is what the log's clock returns.
unfoldable pub resolve_start : Value → StartPosition → String → ℕ → PartitionState → Fallible ℕ
resolve_start clock beginning stream partition part = ok part.earliest_offset
resolve_start clock end stream partition part = ok part.next_offset
resolve_start clock (exact_offset n) stream partition part =
    require_retained stream partition n part none >> ok n
resolve_start clock (timestamp t) stream partition part = resolve_moment t stream partition part
resolve_start clock (relative_time age) stream partition part = do
  now ← aware clock
  raise_if (ltb now age) validation
  resolve_moment (now - age) stream partition part
