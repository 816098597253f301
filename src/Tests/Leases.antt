-- ===== src/Tests/Leases.antt =====
-- A consumer that takes, uses and gives up a partition.
mod Steps
use tori_py.Prelude.Dict
use tori_py.Prelude.{
  ℕ, string_eq, length, ◌+◌, ◌<◌, ◌≤◌, ◌≡◌, ◌≢◌, refl, Option, none, some, List, [], ◌∷◌, ◌++◌,
  true, false, ok, err, arith, get_elem?,
}
use tori_py.Value.{int, moment}
use tori_py.Streams.Errors.{ownership, lifecycle, initialized}
use tori_py.Streams.Models.{aware, positive}
use tori_py.Streams.Models.Positions.{
  key_eq, supports, Subscription, beginning, cursor_at, CheckpointKey,
}
use tori_py.Streams.Log.{Log, Lease, require_open, stream_state, partition_state, when_open}
use tori_py.Streams.Log.Declare.{init, declare, declare_stream}
use tori_py.Streams.Log.Valid.{LogIsValid}
use tori_py.Streams.Leases.{
  require_owner_locked, validate_subscription, check_age, check_strategy, check_binding,
  reserve_strategy, reservations, release_strategy_reservation, resolve_start, set_lease,
}
use tori_py.Streams.Leases.Acquire.{
  set_revocation, request_transfer, still_current, in_flight, Acquisition, broker_managed,
  binding_of, check_acquire, claim, begin_acquire, check_install, retire, generation_of, new_lease,
  add_lease, install, initialize_broker, resolved_cursor, finish_acquire, release_claim,
  current_in_flight,
}
use tori_py.Streams.Leases.Deliver.{release_locked, check_next, next_after, next_locked, follows}
use tori_py.Streams.Leases.Tasks.{acquiring, leased, finished, claimed, Outcome, nothing}
use tori_py.Streams.Leases.Scheduler.{
  System, Action, acquire, release_lease, declaring, event, locked, act, act_all, add_task, on_task,
  lease_task, release_call, resume, on_lock,
}
use tori_py.Streams.Leases.Owners.{new_system, owner_unique, fenced_out-stays}
use tori_py.Streams.Leases.Streams.{act_all-LogIsValid}
use tori_py.Streams.Leases.Cursors.{act_all-NotBefore}
use tori_py.Streams.Leases.Ends.{Turn, serve_all}
use tori_py.Streams.Leases.Ends.Total.{serve_all-ends}
use tori_py.Streams.Leases.Next.{next_after-read, next_locked-next_locked, first}
use tori_py.Streams.Leases.Handover.{install-owner, install-in_flight}
use tori_py.Streams.Leases.Refines.{act_all-Refines}
use tori_py.Streams.Leases.View.{ownership as ownership_of}
use tori_py.Streams.Ownership.{Moves, generation}
use tori_py.Streams.Checkpoints.Progress.{NotBefore}
use tori_py.Streams.Log.Read.{page_of}
use tori_py.Streams.Log.{require_retained, update_stream}
use tori_py.Streams.Models.Records.{StoredRecord, stored_record}
use tori_py.Streams.Limits.{validate_append_request_limits}
use tori_py.Streams.Log.Append.{
  append, append_stream, admit, route_partition, check_producer, append_new, store_record,
  append_time, new_record, remember, check_existing,
}
use tori_py.Streams.Leases.Acquired.{lock_all, broker_binding, acquire-leased}
use tori_py.Streams.Log.Declare.{empty_partition}
use tori_py.Tests.Logs.{
  orders_state, orders_log-state, stored, filled_partition, orders, empty_log, empty_log-IsValid,
  orders_log, filled_log,
}

abbrev pub consumer : Subscription
consumer = record { stream = "orders"; group = "billing"; owner_id = "first"; start = beginning }

abbrev taking : List Action
taking =
    declaring orders
    ∷ acquire consumer (int 0) broker_managed false
    ∷ event 0 (locked (moment 1))
    ∷ event 0 (locked (moment 1))
    ∷ event 0 (locked (moment 1))
    ∷ event 0 (locked (moment 1))
    ∷ []

abbrev pub taken : System
taken = act_all taking (new_system empty_log)

abbrev pub key : CheckpointKey
key = record { stream = "orders"; group = "billing"; partition = 0 }

abbrev pub lease : Lease
lease = record {
  subscription = consumer;
  key = key;
  owner = record { owner_id = "first"; generation = 1 };
  store = none;
  stopped = false;
  released = false;
  revocation_requested = false;
  in_flight = none;
  delivery_completed = true;
}

init-empty_log : init (int 4) ≡ ok empty_log
unfolding init positive
init-empty_log = refl

taken-facts :
    (get_elem? taken.log.objects 0 ≡ some lease)
    × (require_owner_locked key lease.owner taken.log ≡ ok tt)
unfolding act_all act add_task on_task resume on_lock begin_acquire binding_of check_acquire
    validate_subscription check_age check_strategy check_binding reserve_strategy reservations claim
    install check_install require_open retire generation_of new_lease add_lease initialize_broker
    require_owner_locked resolved_cursor resolve_start stream_state partition_state finish_acquire
    release_claim release_strategy_reservation declare_stream when_open declare Dict.get Dict.put
    Dict.remove Dict.has current_in_flight supports
taken-facts = (refl, refl)

abbrev giving : List Action
giving = taking ++ release_lease 0 ∷ event 1 (locked (moment 2)) ∷ []

abbrev given : System
given = act_all giving (new_system empty_log)

abbrev given_lease : Lease
given_lease = record lease { released = true }

given-facts :
    (get_elem? given.log.objects 0 ≡ some given_lease)
    × (require_owner_locked key lease.owner given.log ≡ err ownership)
unfolding act_all act add_task on_task resume on_lock begin_acquire binding_of check_acquire
    validate_subscription check_age check_strategy check_binding reserve_strategy reservations claim
    install check_install require_open retire generation_of new_lease add_lease initialize_broker
    require_owner_locked resolved_cursor resolve_start stream_state partition_state finish_acquire
    release_claim release_strategy_reservation declare_stream when_open declare Dict.get Dict.put
    Dict.remove Dict.has current_in_flight supports lease_task release_call release_locked set_lease
given-facts = (refl, refl)

abbrev pub next_consumer : Subscription
next_consumer = record {
  stream = "orders";
  group = "billing";
  owner_id = "second";
  start = beginning;
}

abbrev retaking : List Action
retaking =
    acquire next_consumer (int 0) broker_managed false
    ∷ event 2 (locked (moment 3))
    ∷ event 2 (locked (moment 3))
    ∷ event 2 (locked (moment 3))
    ∷ []

owner_unique_example : ◌≡◌ {A = ℕ} 0 0
owner_unique_example =
    owner_unique (int 4) empty_log taking 0 0 lease lease init-empty_log taken-facts.0 taken-facts.0
      refl taken-facts.1 taken-facts.1

fenced_out-stays_example : require_owner_locked key lease.owner (act_all retaking given).log ≢ ok tt
fenced_out-stays_example =
    fenced_out-stays (int 4) empty_log giving retaking 0 given_lease init-empty_log given-facts.0
      given-facts.1

act_all-Refines_example : Moves (ownership_of given.log) (ownership_of (act_all retaking given).log)
act_all-Refines_example = act_all-Refines retaking given

act_all-LogIsValid_example : LogIsValid taken.log
act_all-LogIsValid_example = act_all-LogIsValid taking (new_system empty_log) empty_log-IsValid

act_all-NotBefore_example :
    NotBefore
      (Dict.get taken.log.broker_cursors key)
      (Dict.get (act_all retaking taken).log.broker_cursors key)
act_all-NotBefore_example = act_all-NotBefore retaking taken key
