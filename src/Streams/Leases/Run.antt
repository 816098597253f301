-- ===== src/Streams/Leases/Run.antt =====
-- A run of the tasks of inmemory.py: what each block keeps, the whole run keeps.
use mathlib.Core.Path.{subst}
use tori_py.Prelude.{
  ℕ, ◌≡◌, refl, sym, String, some, List, [], ◌∷◌, Bool, true, false, ok, err, get_elem?,
  Option-cases, inl, inr, if◌then◌else◌,
}
use tori_py.Streams.Errors.{Error, Fallible}
use tori_py.Value.{Value}
use tori_py.Streams.Models.Positions.{cursor_at}
use tori_py.Streams.Errors.{last_successful}
use tori_py.Streams.Errors.{ResumeCursor}
use tori_py.Streams.Models.Requests.{AppendRequest, StreamDefinition}
use tori_py.Streams.Log.{Lease, Log}
use tori_py.Streams.Log.Append.{append}
use tori_py.Streams.Log.Trim.{trim}
use tori_py.Streams.Log.Declare.{declare_stream, start, quiesce}
use tori_py.Streams.Leases.{require_owner_locked}
use tori_py.Streams.Leases.Acquire.{
  Acquisition, resolved_cursor, begin_acquire, install, initialize_broker, cancel_acquire,
  release_claim, finish_acquire,
}
use tori_py.Streams.Leases.Deliver.{
  load_broker_cursor, check_in_flight, record_of, next_locked, advance, confirm, stop,
  release_locked, close,
}
use tori_py.Streams.Leases.Tasks.{
  Task, delivered, returned, acquiring, awaiting, claimed, undoing, initializing, fencing, loading,
  resolving, creating, confirming, failing, unreserving, finishing, next_cursor, next_loading,
  next_owner, next_taking, checking, saved_cursor, saved_loading, saved_owner, save_owner, saving,
  save_confirming, advancing, stopping_for, stopping, releasing, closing, finished,
}
use tori_py.Streams.Leases.Scheduler.{
  next_call, checkpoint_call, release_call, raise_error, raises, claim_wait, initialization,
  saved_wait, with_lease, guarded, after, on_lock, Event, locked, cancel, replied, resume, System,
  Action, acquire, next_record, checkpoint, stop_lease, release_lease, close_log, event, appending,
  trimming, declaring, starting, quiescing, add_task, on_task, lease_task, act, act_all,
  release_wait,
}
use tori_py.Streams.Leases.View.{view}
use tori_py.Streams.Leases.View.Claims.{
  view-release_claim, view-begin_acquire, view-cancel_acquire, view-finish_acquire,
}
use tori_py.Streams.Leases.View.Blocks.{view-next_locked, view-confirm, view-stop}
use tori_py.Streams.Leases.View.Methods.{view-start, view-quiesce}

-- A relation between the log before and after: what leaves the view as it is keeps it, and so does each
-- block and each method that changes the view.
pub record Steps (R : Log → Log → Type 0) : Type 0 where
  pub viewed : (log log' : Log) → view log' ≡ view log → R log log'
  pub join : (a b c : Log) → R a b → R b c → R a c
  pub install_step : (a : Acquisition) (log : Log) → R log (install a log).1
  pub initialize_broker_step :
      (clock : Value) (lease : Lease) (log : Log) → R log (initialize_broker clock lease log).1
  pub advance_step :
      (expected : ResumeCursor) (n l : ℕ) (lease : Lease) (log : Log)
      → get_elem? log.objects l ≡ some lease
      → R log (advance expected (cursor_at last_successful n) l lease log).1
  pub release_step :
      (l : ℕ) (lease : Lease) (log : Log)
      → get_elem? log.objects l ≡ some lease
      → R log (release_locked l lease log)
  pub close_step : (log : Log) → R log (close log)
  pub append_step :
      (clock : Value) (name : String) (request : AppendRequest) (log : Log)
      → R log (append clock name request log).1
  pub trim_step :
      (name : String) (partition before_offset : Value) (log : Log)
      → R log (trim name partition before_offset log).1
  pub declare_step :
      (definition : StreamDefinition) (log : Log) → R log (declare_stream definition log).1

module _ (R : Log → Log → Type 0) (p : Steps R) where
  guarded_log :
      {A : Type 0} (r : Fallible A) (failure : Error → Task) (success : A → Task) (log : Log)
      → (guarded r failure success log).1 ≡ log
  guarded_log (err e) failure success log = refl
  guarded_log (ok a) failure success log = refl

  guarded-steps :
      {A : Type 0} (r : Fallible A) (failure : Error → Task) (success : A → Task) (log log' : Log)
      → R log log'
      → R log (guarded r failure success log').1
  guarded-steps r failure success log log' h =
      subst (R log) (sym (guarded_log r failure success log')) h

  after-steps :
      {A : Type 0} (failure : Error → Task) (success : A → Task) (p : Fallible A × Log) (log : Log)
      → R log p.1
      → R log (after failure success p).1
  after-steps failure success (r, log') log h = guarded-steps r failure success log log' h

  with_lease-steps :
      (l : ℕ) (body : Lease → Log → Task × Log) (log : Log)
      → ((lease : Lease) → get_elem? log.objects l ≡ some lease → R log (body lease log).1)
      → R log (with_lease l body log).1
  with_lease-steps l body log h = elim (Option-cases (get_elem? log.objects l)) [
    | inl missing ↦ simp (missing, with_lease) (p.viewed log log refl)
    | inr (lease, there) ↦ simp (there, with_lease) (h lease there)
  ]

  unless_released-steps :
      (released : Bool) (l : ℕ) (lease : Lease) (log : Log)
      → get_elem? log.objects l ≡ some lease
      → R log (if released then log else release_locked l lease log)
  unless_released-steps true l lease log there = p.viewed log log refl
  unless_released-steps false l lease log there = p.release_step l lease log there

  -- A block that reads, and a block that leaves the ownership as it is.
  test-steps :
      {A : Type 0} (l : ℕ) (test : Lease → Log → Fallible A) (failure : Error → Task)
      (success : Lease → A → Task) (log : Log)
      → R log
          (with_lease l
            (λ lease log'. guarded (test lease log') failure (success lease) log')
            log).1
  test-steps l test failure success log =
      with_lease-steps l (λ lease log'. guarded (test lease log') failure (success lease) log') log
        (λ lease there.
          guarded-steps (test lease log) failure (success lease) log log (p.viewed log log refl))

  block-steps :
      {A : Type 0} (l : ℕ) (block : Lease → Log → Fallible A × Log) (failure : Error → Task)
      (success : A → Task) (log : Log)
      → ((lease : Lease) → get_elem? log.objects l ≡ some lease → R log (block lease log).1)
      → R log (with_lease l (λ lease log'. after failure success (block lease log')) log).1
  block-steps l block failure success log kept =
      with_lease-steps l (λ lease log'. after failure success (block lease log')) log
        (λ lease there. after-steps failure success (block lease log) log (kept lease there))

  on_lock-steps : (clock : Value) (task : Task) (log : Log) → R log (on_lock clock task log).1
  unfolding on_lock
  on_lock-steps clock (acquiring subscription partition strategy transfer) log =
      guarded-steps (begin_acquire subscription partition strategy transfer log).0 raises
        (claim_wait (begin_acquire subscription partition strategy transfer log).1) log
        (begin_acquire subscription partition strategy transfer log).1
        (p.viewed log (begin_acquire subscription partition strategy transfer log).1
          (view-begin_acquire subscription partition strategy transfer log))
  on_lock-steps clock (awaiting a) log = p.viewed log log refl
  on_lock-steps clock (claimed a) log =
      after-steps (undoing a) (initialization a) (install a log) log (p.install_step a log)
  on_lock-steps clock (undoing a e) log =
      p.viewed log (cancel_acquire a log) (view-cancel_acquire a log)
  on_lock-steps clock (initializing a l) log =
      block-steps l (initialize_broker clock) (failing a l) (λ u. finishing a l) log
        (λ lease there. p.initialize_broker_step clock lease log)
  on_lock-steps clock (fencing a l) log = p.viewed log log refl
  on_lock-steps clock (loading a l) log = p.viewed log log refl
  on_lock-steps clock (resolving a l) log =
      test-steps l (resolved_cursor clock) (failing a l) (λ lease. creating a l) log
  on_lock-steps clock (creating a l c) log = p.viewed log log refl
  on_lock-steps clock (confirming a l) log =
      test-steps l (λ lease. require_owner_locked lease.key lease.owner) (failing a l)
        (λ lease u. finishing a l) log
  on_lock-steps clock (failing a l e) log =
      with_lease-steps l (release_wait a l e) log
        (λ lease there. unless_released-steps lease.released l lease log there)
  on_lock-steps clock (unreserving a e) log =
      p.viewed log (release_claim a log) (view-release_claim a log)
  on_lock-steps clock (finishing a l) log =
      p.viewed log (finish_acquire a log) (view-finish_acquire a log)
  on_lock-steps clock (next_cursor l) log =
      test-steps l load_broker_cursor raises (λ lease. next_taking l) log
  on_lock-steps clock (next_loading l) log = p.viewed log log refl
  on_lock-steps clock (next_owner l c) log =
      test-steps l (λ lease. require_owner_locked lease.key lease.owner) raises
        (λ lease u. next_taking l c) log
  on_lock-steps clock (next_taking l c) log =
      block-steps l (next_locked c l) raises (λ r. finished (delivered r)) log
        (λ lease there.
          p.viewed log (next_locked c l lease log).1 (view-next_locked c l lease log there))
  on_lock-steps clock (checking l r) log =
      test-steps l (check_in_flight r) raises (λ lease u. saved_wait l (record_of r) lease) log
  on_lock-steps clock (saved_cursor l r) log =
      test-steps l load_broker_cursor raises (λ lease. advancing l r) log
  on_lock-steps clock (saved_loading l r) log = p.viewed log log refl
  on_lock-steps clock (saved_owner l r c) log =
      test-steps l (λ lease. require_owner_locked lease.key lease.owner) raises
        (λ lease u. save_owner l r c) log
  on_lock-steps clock (save_owner l r c) log =
      test-steps l (λ lease. require_owner_locked lease.key lease.owner) raises
        (λ lease u. saving l r c) log
  on_lock-steps clock (saving l r c) log = p.viewed log log refl
  on_lock-steps clock (save_confirming l) log =
      block-steps l (confirm l) raises (λ u. finished returned) log
        (λ lease there. p.viewed log (confirm l lease log).1 (view-confirm l lease log there))
  on_lock-steps clock (advancing l r c) log =
      block-steps l (advance c (cursor_at last_successful r.offset) l) raises
        (λ u. finished returned) log (λ lease there. p.advance_step c r.offset l lease log there)
  on_lock-steps clock (stopping_for l e) log =
      with_lease-steps l (λ lease log'. raise_error e (stop l lease log')) log
        (λ lease there. p.viewed log (stop l lease log) (view-stop l lease log there))
  on_lock-steps clock (stopping l) log =
      with_lease-steps l (λ lease log'. (finished returned, stop l lease log')) log
        (λ lease there. p.viewed log (stop l lease log) (view-stop l lease log there))
  on_lock-steps clock (releasing l) log =
      with_lease-steps l (λ lease log'. (finished returned, release_locked l lease log')) log
        (λ lease there. p.release_step l lease log there)
  on_lock-steps clock closing log = p.close_step log
  on_lock-steps clock (finished o) log = p.viewed log log refl

  resume-steps : (e : Event) (task : Task) (log : Log) → R log (resume e task log).1
  unfolding resume
  resume-steps (locked clock) task log = on_lock-steps clock task log
  resume-steps cancel task log = p.viewed log log refl
  resume-steps (replied r) task log = p.viewed log log refl

  on_task-steps : (i : ℕ) (e : Event) (s : System) → R s.log (on_task i e s).log
  unfolding on_task
  on_task-steps i e s = elim (Option-cases (get_elem? s.tasks i)) [
    | inl missing ↦ simp (missing, on_task) (p.viewed s.log s.log refl)
    | inr (task, there) ↦ simp (there, on_task) (resume-steps e task s.log)
  ]

  lease_task-steps : (l : ℕ) (call : Lease → Task) (s : System) → R s.log (lease_task l call s).log
  unfolding lease_task add_task
  lease_task-steps l call s = elim (Option-cases (get_elem? s.log.objects l)) [
    | inl missing ↦ simp (missing, lease_task) (p.viewed s.log s.log refl)
    | inr (lease, there) ↦ simp (there, lease_task) (p.viewed s.log s.log refl)
  ]

  act-steps : (a : Action) (s : System) → R s.log (act a s).log
  unfolding act add_task
  act-steps (acquire subscription partition strategy transfer) s = p.viewed s.log s.log refl
  act-steps (next_record l) s = lease_task-steps l (next_call l) s
  act-steps (checkpoint l r) s = lease_task-steps l (checkpoint_call l r) s
  act-steps (stop_lease l) s = lease_task-steps l (λ lease. stopping l) s
  act-steps (release_lease l) s = lease_task-steps l (release_call l) s
  act-steps close_log s = p.viewed s.log s.log refl
  act-steps (event i e) s = on_task-steps i e s
  act-steps (appending clock name request) s = p.append_step clock name request s.log
  act-steps (trimming name partition n) s = p.trim_step name partition n s.log
  act-steps (declaring definition) s = p.declare_step definition s.log
  act-steps starting s = p.viewed s.log (start s.log).1 (view-start s.log)
  act-steps quiescing s = p.viewed s.log (quiesce s.log) (view-quiesce s.log)

  -- A run of actions.
  pub act_all-steps : (actions : List Action) (s : System) → R s.log (act_all actions s).log
  unfolding act_all
  act_all-steps [] s = p.viewed s.log s.log refl
  act_all-steps (a ∷ actions) s =
      p.join s.log (act a s).log (act_all actions (act a s)).log (act-steps a s)
        (act_all-steps actions (act a s))
