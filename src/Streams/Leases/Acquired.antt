-- ===== src/Streams/Leases/Acquired.antt =====
-- An `acquire` of inmemory.py that nothing stands in the way of.
use mathlib.Core.Path.{subst}
use tori_py.Prelude.Dict
use tori_py.Prelude.{
  string_eq, ℕ, zero, suc, ◌+◌, ◌<◌, ◌≡◌, refl, ap, ◌∙◌, none, some, false, ok, arith, Bool-cases,
  inl, inr, get_elem?, length, leb,
}
use tori_py.Value.{Value, int}
use tori_py.Streams.Errors.{Error, initialized, Fallible, ResumeCursor}
use tori_py.Streams.Models.Positions.{CheckpointKey, key_eq, Subscription, cursor_at}
use tori_py.Streams.Ownership.Valid.{get_elem?-snoc_last}
use tori_py.Streams.Log.Guards.{stream_state_lem, partition_state_lem}
use tori_py.Streams.Log.{Lease, Log, PartitionState, StreamState, StrategyBinding, require_open}
use tori_py.Streams.Leases.{require_owner_locked, reserve_strategy, check_strategy, resolve_start}
use tori_py.Streams.Leases.Acquire.{
  Acquisition, broker_managed, binding_of, scope, check_acquire, claim, begin_acquire,
  check_install, retire, generation_of, new_lease, add_lease, install, resolved_cursor,
  initialize_broker, current_in_flight,
}
use tori_py.Streams.Leases.Tasks.{
  failing, undoing, Task, acquiring, initializing, finishing, finished, leased,
}
use tori_py.Streams.Leases.Scheduler.{
  on_lock, guarded, after, with_lease, raises, claim_wait, initialization,
}
use tori_py.Streams.Leases.Handover.{install-owner}

-- A task that gets the lock so many times, with no other call between.
abbrev pub lock_all : ℕ → Value → Task × Log → Task × Log
lock_all zero clock p = p
lock_all (suc n) clock p = lock_all n clock (on_lock clock p.0 p.1)

abbrev pub broker_binding : StrategyBinding
broker_binding = record { mode = "broker_managed"; identity = none; store = none }

abbrev pub first_claim : Subscription → CheckpointKey → Acquisition
first_claim subscription key = record {
  subscription = subscription;
  key = key;
  binding = broker_binding;
  current = none;
  marker = none;
}

binding_of_broker : binding_of broker_managed ≡ ok broker_binding
unfolding binding_of
binding_of_broker = refl

claim_free :
    (a : Acquisition) (log : Log)
    → Dict.get log.leases a.key ≡ none
    → leb log.max_active_leases (length log.owners) ≡ false
    → claim false a log ≡ (ok a, log)
unfolding claim
claim_free a log unowned room = simp (unowned, room, claim) refl

begin_acquire_free :
    (subscription : Subscription) (partition : Value) (key : CheckpointKey) (log : Log)
    → check_acquire subscription partition log ≡ ok key
    → check_strategy (scope (first_claim subscription key)) broker_binding log ≡ ok tt
    → Dict.get log.leases key ≡ none
    → leb log.max_active_leases (length log.owners) ≡ false
    → begin_acquire subscription partition broker_managed false log ≡ (
      ok (first_claim subscription key),
      reserve_strategy (scope (first_claim subscription key)) broker_binding log,
    )
unfolding begin_acquire reserve_strategy
begin_acquire_free subscription partition key log checked fits unowned room =
    simp (binding_of_broker, checked, fits, begin_acquire)
      (claim_free (first_claim subscription key)
        (reserve_strategy (scope (first_claim subscription key)) broker_binding log) unowned room)

install_free :
    (subscription : Subscription) (key : CheckpointKey) (log : Log)
    → check_install (first_claim subscription key) log ≡ ok tt
    → install (first_claim subscription key) log ≡ (
      ok (length log.objects),
      add_lease (new_lease (first_claim subscription key) (generation_of log key + 1)) log,
    )
unfolding install retire
install_free subscription key log free = simp (free, install) refl

check_install_free :
    (subscription : Subscription) (key : CheckpointKey) (log : Log)
    → log.closed ≡ false
    → Dict.get log.leases key ≡ none
    → check_install (first_claim subscription key) log ≡ ok tt
unfolding check_install require_open
check_install_free subscription key log usable unowned = ground (arith, Dict.has-get log.leases key)

resolved_cursor_free :
    (clock : Value) (lease : Lease) (log : Log) (state : StreamState) (part : PartitionState)
    (n : ℕ)
    → require_owner_locked lease.key lease.owner log ≡ ok tt
    → Dict.get log.streams lease.key.stream ≡ some state
    → get_elem? state.partitions lease.key.partition ≡ some part
    → resolve_start clock lease.subscription.start lease.key.stream lease.key.partition part ≡ ok n
    → resolved_cursor clock lease log ≡ ok (cursor_at initialized n)
unfolding resolved_cursor
resolved_cursor_free clock lease log state part n owned known there resolved =
    simp
      (
        owned,
        stream_state_lem log lease.key.stream state known,
        partition_state_lem state lease.key.partition part there,
        resolved,
        resolved_cursor,
      )
      refl

initialize_broker_free :
    (clock : Value) (lease : Lease) (log : Log) (cursor : ResumeCursor)
    → require_owner_locked lease.key lease.owner log ≡ ok tt
    → resolved_cursor clock lease log ≡ ok cursor
    → (initialize_broker clock lease log).0 ≡ ok tt
unfolding initialize_broker
initialize_broker_free clock lease log cursor owned resolved =
    elim (Bool-cases (Dict.has log.broker_cursors lease.key)) [
      | inl present ↦ simp (owned, present, initialize_broker) refl
      | inr missing ↦ simp (owned, missing, resolved, initialize_broker) refl
    ]

check_acquire-open :
    (subscription : Subscription) (n : ℕ) (key : CheckpointKey) (log : Log)
    → check_acquire subscription (int n) log ≡ ok key
    → log.closed ≡ false
unfolding check_acquire require_open
check_acquire-open subscription n key log h = ground arith

after_ok :
    {A : Type 0} (failure : Error → Task) (success : A → Task) (p : Fallible A × Log) (a : A)
    → p.0 ≡ ok a
    → after failure success p ≡ (success a, p.1)
after_ok failure success (r, log) a h = ap (λ q. guarded q failure success log) h

abbrev pub key_of : Subscription → ℕ → CheckpointKey
key_of subscription n = record {
  stream = subscription.stream;
  group = subscription.group;
  partition = n;
}

module _ (clock : Value) (subscription : Subscription) (n : ℕ) (log : Log) (state : StreamState)
    (part : PartitionState) (o : ℕ) where
  abbrev a : Acquisition
  a = first_claim subscription (key_of subscription n)

  abbrev reserved : Log
  reserved = reserve_strategy (scope a) broker_binding log

  abbrev lease : Lease
  lease = new_lease a (generation_of reserved a.key + 1)

  abbrev owned : Log
  owned = add_lease lease reserved

  installed_free :
      log.closed ≡ false
      → Dict.get log.leases a.key ≡ none
      → install a reserved ≡ (ok (length log.objects), owned)
  unfolding reserve_strategy
  installed_free usable unowned =
      install_free subscription a.key reserved
        (check_install_free subscription a.key reserved usable unowned)

  owned-owner :
      log.closed ≡ false
      → Dict.get log.leases a.key ≡ none
      → require_owner_locked lease.key lease.owner owned ≡ ok tt
  unfolding new_lease
  owned-owner usable unowned =
      let placed = installed_free usable unowned in
      subst (λ p. require_owner_locked a.key lease.owner p.1 ≡ ok tt) placed
        (install-owner a (length log.objects) reserved (ap (λ p. p.0) placed))

  owned-initialized :
      log.closed ≡ false
      → Dict.get log.leases a.key ≡ none
      → Dict.get log.streams subscription.stream ≡ some state
      → get_elem? state.partitions n ≡ some part
      → resolve_start clock subscription.start subscription.stream n part ≡ ok o
      → on_lock clock (initializing a (length log.objects)) owned
        ≡ (finishing a (length log.objects), (initialize_broker clock lease owned).1)
  unfolding on_lock new_lease add_lease reserve_strategy
  owned-initialized usable unowned known there resolved =
      let passed = owned-owner usable unowned in
      let cursor =
        resolved_cursor_free clock lease owned state part o passed known there resolved in
      let begun =
        initialize_broker_free clock lease owned (cursor_at initialized o) passed cursor in
      simp (get_elem?-snoc_last log.objects lease, with_lease)
        (after_ok (failing a (length log.objects)) (λ u. finishing a (length log.objects))
          (initialize_broker clock lease owned) tt begun)

-- An `acquire` of a broker-managed partition that nobody owns returns its lease after it has had
-- the lock four times, where its arguments pass the checks, its strategy fits its group's, the
-- lease limit leaves room, the clock's answer gives its start position an offset, and no other call
-- gets the lock meanwhile.
pub acquire-leased :
    (clock : Value) (subscription : Subscription) (n : ℕ) (log : Log) (state : StreamState)
    (part : PartitionState) (o : ℕ)
    → check_acquire subscription (int n) log ≡ ok (key_of subscription n)
    → check_strategy (scope (first_claim subscription (key_of subscription n))) broker_binding log
      ≡ ok tt
    → Dict.get log.leases (key_of subscription n) ≡ none
    → length log.owners < log.max_active_leases
    → Dict.get log.streams subscription.stream ≡ some state
    → get_elem? state.partitions n ≡ some part
    → resolve_start clock subscription.start subscription.stream n part ≡ ok o
    → (lock_all 4 clock (acquiring subscription (int n) broker_managed false, log)).0
      ≡ finished (leased (length log.objects))
unfolding on_lock current_in_flight
acquire-leased clock subscription n log state part o checked fits unowned room known there
      resolved =
    let usable = check_acquire-open subscription n (key_of subscription n) log checked in
    let full : leb log.max_active_leases (length log.owners) ≡ false = ground (arith, room) in
    let c = a clock subscription n log state part o in
    let l = length log.objects in
    let begun =
      begin_acquire_free subscription (int n) (key_of subscription n) log checked fits unowned
        full in
    let placed = installed_free clock subscription n log state part o usable unowned in
    let ready =
      owned-initialized clock subscription n log state part o usable unowned known there resolved in
    ap (λ p. (lock_all 3 clock (guarded p.0 raises (claim_wait p.1) p.1)).0) begun
    ∙ ap (λ p. (lock_all 2 clock (after (undoing c) (initialization c) p)).0) placed
    ∙ ap (λ p. (lock_all 1 clock p).0) ready
