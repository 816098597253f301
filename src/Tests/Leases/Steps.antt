-- ===== src/Tests/Leases/Steps.antt =====
-- One step of a lease at a time.
use tori_py.Prelude.Dict
use tori_py.Prelude.{
  string_eq, length, ◌<◌, ◌≡◌, refl, Option, none, some, [], ◌∷◌, true, false, ok, err, arith,
  get_elem?,
}
use tori_py.Value.{int, moment}
use tori_py.Streams.Errors.{lifecycle, initialized}
use tori_py.Streams.Models.{aware}
use tori_py.Streams.Models.Positions.{key_eq, supports, beginning, cursor_at}
use tori_py.Streams.Log.{Log, Lease, require_open, stream_state, partition_state, when_open}
use tori_py.Streams.Log.Declare.{declare, declare_stream}
use tori_py.Streams.Leases.{
  require_owner_locked, validate_subscription, check_age, check_strategy, check_binding,
  reserve_strategy, reservations, release_strategy_reservation, resolve_start, set_lease,
}
use tori_py.Streams.Leases.Acquire.{
  set_revocation, request_transfer, still_current, in_flight, Acquisition, broker_managed,
  binding_of, check_acquire, claim, begin_acquire, check_install, retire, generation_of, new_lease,
  add_lease, install, initialize_broker, resolved_cursor, finish_acquire, release_claim,
  current_in_flight,
}
use tori_py.Streams.Leases.Deliver.{check_next, next_after, next_locked, follows}
use tori_py.Streams.Leases.Tasks.{acquiring, leased, finished, claimed, Outcome, nothing}
use tori_py.Streams.Leases.Scheduler.{act, act_all, add_task, on_task, resume, on_lock}
use tori_py.Streams.Leases.Ends.{Turn, serve_all}
use tori_py.Streams.Leases.Ends.Total.{serve_all-ends}
use tori_py.Streams.Leases.Next.{next_after-read, next_locked-next_locked, first}
use tori_py.Streams.Leases.Handover.{install-in_flight}
use tori_py.Streams.Log.Read.{page_of}
use tori_py.Streams.Log.{require_retained, update_stream}
use tori_py.Streams.Models.Records.{StoredRecord, stored_record}
use tori_py.Streams.Limits.{validate_append_request_limits}
use tori_py.Streams.Log.Append.{
  append, append_stream, admit, route_partition, check_producer, append_new, store_record,
  append_time, new_record, remember, check_existing,
}
use tori_py.Streams.Leases.Acquired.{lock_all, broker_binding, acquire-leased}
use tori_py.Streams.Log.Declare.{empty_partition}
use tori_py.Tests.Logs.{
  orders_state, orders_log-state, stored, filled_partition, orders_log, filled_log,
}
use tori_py.Tests.Leases.{consumer, key, lease, taken, next_consumer}

abbrev claim_of : Acquisition
claim_of = record {
  subscription = consumer;
  key = key;
  binding = record { mode = "broker_managed"; identity = none; store = none };
  current = none;
  marker = none;
}

abbrev turn : Turn
turn = (moment 1, nothing, orders_log)

serve_all-ends_example :
    (o : Outcome) × (serve_all
        (turn ∷ turn ∷ turn ∷ turn ∷ turn ∷ turn ∷ turn ∷ turn ∷ turn ∷ turn ∷ turn ∷ [])
        (claimed claim_of)
      ≡ finished o)
serve_all-ends_example =
    serve_all-ends (turn ∷ turn ∷ turn ∷ turn ∷ turn ∷ turn ∷ turn ∷ turn ∷ turn ∷ turn ∷ turn ∷ [])
      (claimed claim_of) refl (omega arith)

-- The second consumer asks for the partition of the first one.
abbrev asked_log : Log
asked_log = (begin_acquire next_consumer (int 0) broker_managed true taken.log).1

abbrev transfer : Acquisition
transfer = record claim_of { subscription = next_consumer; current = some 0; marker = some 0 }

abbrev asked_lease : Lease
asked_lease = record lease { revocation_requested = true }

asked-facts :
    (Dict.get asked_log.leases key ≡ some 0)
    × (get_elem? asked_log.objects 0 ≡ some asked_lease)
    × ((install transfer asked_log).0 ≡ ok 1)
unfolding act_all act add_task on_task resume on_lock begin_acquire binding_of check_acquire
    validate_subscription check_age check_strategy check_binding reserve_strategy reservations claim
    install check_install require_open retire generation_of new_lease add_lease initialize_broker
    require_owner_locked resolved_cursor resolve_start stream_state partition_state finish_acquire
    release_claim release_strategy_reservation declare_stream when_open declare Dict.get Dict.put
    Dict.remove Dict.has current_in_flight supports set_lease set_revocation request_transfer
    still_current in_flight
asked-facts = (refl, refl, refl)

install-in_flight_example : ◌≡◌ {A = Option StoredRecord} none none
install-in_flight_example =
    install-in_flight transfer 1 0 asked_lease asked_log asked-facts.0 refl asked-facts.1
      asked-facts.2

next_after-read_example :
    next_after (cursor_at initialized 0) filled_partition.records
    ≡ first (page_of filled_partition 0 1)
next_after-read_example = next_after-read (cursor_at initialized 0) filled_partition

abbrev stocked_log : Log
stocked_log = record filled_log {
  owners = (key, lease.owner) ∷ [];
  leases = (key, 0) ∷ [];
  objects = lease ∷ [];
}

abbrev busy_lease : Lease
busy_lease = record lease { in_flight = some stored; delivery_completed = false }

delivered-facts :
    ((next_locked (cursor_at initialized 0) 0 lease stocked_log).0 ≡ ok (some stored))
    × (get_elem? (next_locked (cursor_at initialized 0) 0 lease stocked_log).1.objects 0
        ≡ some busy_lease)
unfolding next_locked check_next next_after follows require_owner_locked require_open stream_state
    partition_state require_retained set_lease append when_open update_stream append_stream admit
    validate_append_request_limits route_partition check_producer append_new store_record
    append_time new_record stored_record remember declare_stream declare Dict.get Dict.put aware
    check_existing
delivered-facts = (refl, refl)

next_locked-next_locked_example :
    (next_locked
      (cursor_at initialized 0)
      0
      busy_lease
      (next_locked (cursor_at initialized 0) 0 lease stocked_log).1).0
    ≡ err lifecycle
next_locked-next_locked_example =
    next_locked-next_locked (cursor_at initialized 0) (cursor_at initialized 0) 0 lease busy_lease
      stocked_log stored refl delivered-facts.0 delivered-facts.1

consumer-checked : check_acquire consumer (int 0) orders_log ≡ ok key
unfolding check_acquire require_open stream_state partition_state validate_subscription check_age
    supports declare_stream when_open declare Dict.get Dict.put
consumer-checked = refl

consumer-fits : check_strategy ("orders", "billing") broker_binding orders_log ≡ ok tt
unfolding check_strategy check_binding declare_stream when_open declare Dict.get Dict.put
consumer-fits = refl

orders_log-unowned :
    (Dict.get orders_log.leases key ≡ none)
    × (length orders_log.owners < orders_log.max_active_leases)
unfolding declare_stream when_open declare Dict.get Dict.put
orders_log-unowned = (refl, omega arith)

consumer-resolved : resolve_start (moment 1) beginning "orders" 0 empty_partition ≡ ok 0
unfolding resolve_start
consumer-resolved = refl

acquire-leased_example :
    (lock_all 4 (moment 1) (acquiring consumer (int 0) broker_managed false, orders_log)).0
    ≡ finished (leased (length orders_log.objects))
acquire-leased_example =
    acquire-leased (moment 1) consumer 0 orders_log orders_state empty_partition 0 consumer-checked
      consumer-fits orders_log-unowned.0 orders_log-unowned.1 orders_log-state refl
      consumer-resolved
