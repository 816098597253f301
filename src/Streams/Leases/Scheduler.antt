-- ===== src/Streams/Leases/Scheduler.antt =====
-- What the tasks of a log do when they get the lock, or are cancelled, and the log with all its tasks.
use tori_py.Prelude.{
  ℕ, String, some, none, List, [], ◌∷◌, ◌++◌, Bool, ok, err, if◌then◌else◌, get_elem?, set,
}
use tori_py.Value.{Value}
use tori_py.Streams.Errors.{Error, Fallible, last_successful, assertion, cancelled}
use tori_py.Streams.Models.Requests.{AppendRequest, StreamDefinition}
use tori_py.Streams.Models.Records.{StoredRecord}
use tori_py.Streams.Models.Positions.{cursor_at, Subscription}
use tori_py.Streams.Log.{Lease, Log}
use tori_py.Streams.Log.Append.{append}
use tori_py.Streams.Log.Trim.{trim}
use tori_py.Streams.Log.Declare.{declare_stream, start, quiesce}
use tori_py.Streams.Leases.{require_owner_locked}
use tori_py.Streams.Leases.Acquire.{
  Strategy, Acquisition, begin_acquire, install, cancel_acquire, resolved_cursor, initialize_broker,
  finish_acquire, release_claim, current_in_flight,
}
use tori_py.Streams.Leases.Deliver.{
  require_active, load_broker_cursor, next_locked, RecordObject, record_of, check_in_flight,
  advance, confirm, stop, release_locked, close,
}
use tori_py.Streams.Leases.Tasks.{
  Reply, leased, delivered, returned, raised, Task, acquiring, awaiting, claimed, undoing,
  initializing, fencing, loading, resolving, creating, confirming, failing, unreserving, finishing,
  next_cursor, next_loading, next_owner, next_taking, checking, saved_cursor, saved_loading,
  saved_owner, save_owner, saving, save_confirming, advancing, stopping_for, stopping, releasing,
  closing, finished, on_reply,
}

-- `CancelledError` at the wait.
unfoldable pub on_cancel : Task → Task
on_cancel (awaiting a) = undoing a cancelled
on_cancel (claimed a) = undoing a cancelled
on_cancel (undoing a e) = undoing a e
on_cancel (initializing a l) = failing a l cancelled
on_cancel (fencing a l) = failing a l cancelled
on_cancel (loading a l) = failing a l cancelled
on_cancel (resolving a l) = failing a l cancelled
on_cancel (creating a l c) = failing a l cancelled
on_cancel (confirming a l) = failing a l cancelled
on_cancel (failing a l e) = failing a l e
on_cancel (unreserving a e) = unreserving a e
on_cancel (finished o) = finished o
on_cancel _ = finished (raised cancelled)

abbrev pub raise_error : Error → Log → Task × Log
raise_error e log = (finished (raised e), log)

-- A step on the lease object of a task.
abbrev pub with_lease : ℕ → (Lease → Log → Task × Log) → Log → Task × Log
with_lease l body log = elim (get_elem? log.objects l) [
  | none ↦ raise_error assertion log
  | some lease ↦ body lease log
]

-- A guard that raises, or lets the task go on.
abbrev pub guarded : {A : Type 0} → Fallible A → (Error → Task) → (A → Task) → Log → Task × Log
guarded r failure success log = elim r [ err e ↦ (failure e, log) | ok a ↦ (success a, log) ]

abbrev pub after : {A : Type 0} → (Error → Task) → (A → Task) → Fallible A × Log → Task × Log
after failure success (r, log) = guarded r failure success log

abbrev pub raises : Error → Task
raises e = finished (raised e)

-- After the first block: the wait for the delivery that is in flight, or the second block.
abbrev pub claim_wait : Log → Acquisition → Task
claim_wait log a = if current_in_flight a log then awaiting a else claimed a

abbrev pub initialization : Acquisition → ℕ → Task
initialization a l = elim a.binding.store [ none ↦ initializing a l | some store ↦ fencing a l ]

abbrev pub saved_wait : ℕ → StoredRecord → Lease → Task
saved_wait l r lease = elim lease.store [ none ↦ saved_cursor l r | some store ↦ saved_loading l r ]

abbrev pub release_wait : Acquisition → ℕ → Error → Lease → Log → Task × Log
release_wait a l e lease log =
    (unreserving a e, if lease.released then log else release_locked l lease log)

-- The block after the wait; `clock` is what the log's clock returns. A task that waits for a store
-- stays where it is.
unfoldable pub on_lock : Value → Task → Log → Task × Log
on_lock clock (acquiring subscription partition strategy transfer) log =
    let (r, log') = begin_acquire subscription partition strategy transfer log in
    guarded r raises (claim_wait log') log'
on_lock clock (awaiting a) log = (if current_in_flight a log then awaiting a else claimed a, log)
on_lock clock (claimed a) log = after (undoing a) (initialization a) (install a log)
on_lock clock (undoing a e) log = raise_error e (cancel_acquire a log)
on_lock clock (initializing a l) log =
    with_lease l
      (λ lease log'. after (failing a l) (λ u. finishing a l) (initialize_broker clock lease log'))
      log
on_lock clock (resolving a l) log =
    with_lease l
      (λ lease log'. guarded (resolved_cursor clock lease log') (failing a l) (creating a l) log')
      log
on_lock clock (confirming a l) log =
    with_lease l
      (λ lease log'.
        guarded (require_owner_locked lease.key lease.owner log') (failing a l) (λ u. finishing a l)
          log')
      log
on_lock clock (failing a l e) log = with_lease l (release_wait a l e) log
on_lock clock (unreserving a e) log = raise_error e (release_claim a log)
on_lock clock (finishing a l) log = (finished (leased l), finish_acquire a log)
on_lock clock (next_cursor l) log =
    with_lease l (λ lease log'. guarded (load_broker_cursor lease log') raises (next_taking l) log')
      log
on_lock clock (next_owner l c) log =
    with_lease l
      (λ lease log'.
        guarded (require_owner_locked lease.key lease.owner log') raises (λ u. next_taking l c)
          log')
      log
on_lock clock (next_taking l c) log =
    with_lease l
      (λ lease log'. after raises (λ r. finished (delivered r)) (next_locked c l lease log')) log
on_lock clock (checking l r) log =
    with_lease l
      (λ lease log'.
        guarded (check_in_flight r lease log') raises (λ u. saved_wait l (record_of r) lease) log')
      log
on_lock clock (saved_cursor l r) log =
    with_lease l (λ lease log'. guarded (load_broker_cursor lease log') raises (advancing l r) log')
      log
on_lock clock (saved_owner l r c) log =
    with_lease l
      (λ lease log'.
        guarded (require_owner_locked lease.key lease.owner log') raises (λ u. save_owner l r c)
          log')
      log
on_lock clock (save_owner l r c) log =
    with_lease l
      (λ lease log'.
        guarded (require_owner_locked lease.key lease.owner log') raises (λ u. saving l r c) log')
      log
on_lock clock (save_confirming l) log =
    with_lease l (λ lease log'. after raises (λ u. finished returned) (confirm l lease log')) log
on_lock clock (advancing l r c) log =
    with_lease l
      (λ lease log'.
        after raises (λ u. finished returned)
          (advance c (cursor_at last_successful r.offset) l lease log'))
      log
on_lock clock (stopping_for l e) log =
    with_lease l (λ lease log'. raise_error e (stop l lease log')) log
on_lock clock (stopping l) log =
    with_lease l (λ lease log'. (finished returned, stop l lease log')) log
on_lock clock (releasing l) log =
    with_lease l (λ lease log'. (finished returned, release_locked l lease log')) log
on_lock clock closing log = (finished returned, close log)
on_lock clock task log = (task, log)

-- What can happen to a task at its wait.
pub data Event : Type 0 where
  locked : Value → Event
  cancel : Event
  replied : Reply → Event

unfoldable pub resume : Event → Task → Log → Task × Log
resume (locked clock) task log = on_lock clock task log
resume cancel task log = (on_cancel task, log)
resume (replied r) task log = (on_reply r task, log)

-- The part of a lease's method before its first wait.
unfoldable pub next_call : ℕ → Lease → Task
next_call l lease = elim (require_active lease) [
  | err e ↦ raises e
  | ok _ ↦ elim lease.store [ none ↦ next_cursor l | some store ↦ next_loading l ]
]

unfoldable pub checkpoint_call : ℕ → RecordObject → Lease → Task
checkpoint_call l r lease = elim (require_active lease) [ err e ↦ raises e | ok _ ↦ checking l r ]

unfoldable pub release_call : ℕ → Lease → Task
release_call l lease = if lease.released then finished returned else releasing l

-- The log, and the calls on it that have begun.
pub record System : Type 0 where
  pub log : Log
  pub tasks : List Task

pub data Action : Type 0 where
  acquire : Subscription → Value → Strategy → Bool → Action
  next_record : ℕ → Action
  checkpoint : ℕ → RecordObject → Action
  stop_lease : ℕ → Action
  release_lease : ℕ → Action
  close_log : Action
  event : ℕ → Event → Action
  appending : Value → String → AppendRequest → Action
  trimming : String → Value → Value → Action
  declaring : StreamDefinition → Action
  starting : Action
  quiescing : Action

unfoldable pub add_task : Task → System → System
add_task task s = record s { tasks = s.tasks ++ task ∷ [] }

unfoldable pub on_task : ℕ → Event → System → System
on_task i e s = elim (get_elem? s.tasks i) [
  | none ↦ s
  | some task ↦
      let (task', log') = resume e task s.log in record { log = log'; tasks = set s.tasks i task' }
]

-- A call on a lease object that there is.
unfoldable pub lease_task : ℕ → (Lease → Task) → System → System
lease_task l call s = elim (get_elem? s.log.objects l) [
  | none ↦ s
  | some lease ↦ add_task (call lease) s
]

unfoldable pub act : Action → System → System
act (acquire subscription partition strategy transfer) s =
    add_task (acquiring subscription partition strategy transfer) s
act (next_record l) s = lease_task l (next_call l) s
act (checkpoint l r) s = lease_task l (checkpoint_call l r) s
act (stop_lease l) s = lease_task l (λ lease. stopping l) s
act (release_lease l) s = lease_task l (release_call l) s
act close_log s = add_task closing s
act (event i e) s = on_task i e s
act (appending clock name request) s = record s { log = (append clock name request s.log).1 }
act (trimming name partition n) s = record s { log = (trim name partition n s.log).1 }
act (declaring definition) s = record s { log = (declare_stream definition s.log).1 }
act starting s = record s { log = (start s.log).1 }
act quiescing s = record s { log = quiesce s.log }

unfoldable pub act_all : List Action → System → System
act_all [] s = s
act_all (a ∷ actions) s = act_all actions (act a s)
