-- ===== src/Streams/Leases/Ends/Serve.antt =====
-- One event of each task of inmemory.py.
use tori_py.Prelude.{◌<◌, ◌≡◌, refl, true, arith}
use tori_py.Value.{Value}
use tori_py.Streams.Models.Positions.{cursor_at}
use tori_py.Streams.Errors.{last_successful}
use tori_py.Streams.Log.{Log}
use tori_py.Streams.Leases.Acquire.{install, resolved_cursor, initialize_broker}
use tori_py.Streams.Leases.{require_owner_locked}
use tori_py.Streams.Leases.Deliver.{
  stop, release_locked, load_broker_cursor, next_locked, check_in_flight, record_of, advance,
  confirm,
}
use tori_py.Streams.Leases.Tasks.{
  delivered, returned, nothing, cursor, malformed, failed, Task, Reply, acquiring, awaiting,
  claimed, undoing, initializing, fencing, loading, resolving, creating, confirming, failing,
  unreserving, finishing, next_cursor, next_loading, next_owner, next_taking, checking,
  saved_cursor, saved_loading, saved_owner, save_owner, saving, save_confirming, advancing,
  stopping_for, stopping, releasing, closing, finished, on_reply, validate_checkpoint_store_call,
}
use tori_py.Streams.Leases.Scheduler.{
  saved_wait, release_wait, raise_error, resume, on_lock, raises, initialization,
}
use tori_py.Streams.Leases.Ends.{rank, at_store, serve, past_wait}
use tori_py.Streams.Leases.Ends.Blocks.{
  Below, test-Below, block-Below, with_lease-Below, option-Below, after-Below,
}

-- A reply of the store.
reply-Below :
    (reply : Reply) (task : Task) → at_store task ≡ true → Below (rank task) (on_reply reply task)
unfolding on_reply validate_checkpoint_store_call
reply-Below reply (fencing a l) waits = elim reply as (λ k. Below 10 (on_reply k (fencing a l))) [
  | nothing ↦ (omega arith, refl)
  | cursor d ↦ (omega arith, refl)
  | malformed ↦ (omega arith, refl)
  | failed ↦ (omega arith, refl)
]
reply-Below reply (loading a l) waits = elim reply as (λ k. Below 9 (on_reply k (loading a l))) [
  | nothing ↦ (omega arith, refl)
  | cursor d ↦ (omega arith, refl)
  | malformed ↦ (omega arith, refl)
  | failed ↦ (omega arith, refl)
]
reply-Below reply (creating a l c) waits =
    elim reply as (λ k. Below 7 (on_reply k (creating a l c))) [
      | nothing ↦ (omega arith, refl)
      | cursor d ↦ (omega arith, refl)
      | malformed ↦ (omega arith, refl)
      | failed ↦ (omega arith, refl)
    ]
reply-Below reply (next_loading l) waits =
    elim reply as (λ k. Below 4 (on_reply k (next_loading l))) [
      | nothing ↦ (omega arith, refl)
      | cursor d ↦ (omega arith, refl)
      | malformed ↦ (omega arith, refl)
      | failed ↦ (omega arith, refl)
    ]
reply-Below reply (saved_loading l r) waits =
    elim reply as (λ k. Below 6 (on_reply k (saved_loading l r))) [
      | nothing ↦ (omega arith, refl)
      | cursor d ↦ (omega arith, refl)
      | malformed ↦ (omega arith, refl)
      | failed ↦ (omega arith, refl)
    ]
reply-Below reply (saving l r c) waits = elim reply as (λ k. Below 3 (on_reply k (saving l r c))) [
  | nothing ↦ (omega arith, refl)
  | cursor d ↦ (omega arith, refl)
  | malformed ↦ (omega arith, refl)
  | failed ↦ (omega arith, refl)
]
reply-Below reply task waits = absurd (ground arith)

pub serve-Below :
    (clock : Value) (reply : Reply) (task : Task) (log : Log)
    → past_wait task ≡ true
    → 0 < rank task
    → Below (rank task) (serve clock reply task log).0
unfolding resume on_lock on_reply validate_checkpoint_store_call
serve-Below clock reply (acquiring subscription partition strategy transfer) log past left =
    absurd cc
serve-Below clock reply (awaiting a) log past left = absurd cc
serve-Below clock reply (claimed a) log past left =
    after-Below 11 (install a log) (undoing a) (initialization a) (λ e. (omega arith, refl))
      (λ l.
        option-Below 11 a.binding.store (initializing a l) (λ store. fencing a l)
          (omega arith, refl) (λ store. (omega arith, refl)))
serve-Below clock reply (undoing a e) log past left = (omega arith, refl)
serve-Below clock reply (initializing a l) log past left =
    block-Below 9 l (initialize_broker clock) (failing a l) (λ u. finishing a l) log (omega arith)
      (λ e. (omega arith, refl)) (λ x. (omega arith, refl))
serve-Below clock reply (fencing a l) log past left = reply-Below reply (fencing a l) refl
serve-Below clock reply (loading a l) log past left = reply-Below reply (loading a l) refl
serve-Below clock reply (resolving a l) log past left =
    test-Below 8 l (resolved_cursor clock) (failing a l) (λ lease. creating a l) log (omega arith)
      (λ e. (omega arith, refl)) (λ lease x. (omega arith, refl))
serve-Below clock reply (creating a l c) log past left = reply-Below reply (creating a l c) refl
serve-Below clock reply (confirming a l) log past left =
    test-Below 6 l (λ lease. require_owner_locked lease.key lease.owner) (failing a l)
      (λ lease u. finishing a l) log (omega arith) (λ e. (omega arith, refl))
      (λ lease x. (omega arith, refl))
serve-Below clock reply (failing a l e) log past left =
    with_lease-Below 4 l (release_wait a l e) log (omega arith) (λ lease. (omega arith, refl))
serve-Below clock reply (unreserving a e) log past left = (omega arith, refl)
serve-Below clock reply (finishing a l) log past left = (omega arith, refl)
serve-Below clock reply (next_cursor l) log past left =
    test-Below 2 l load_broker_cursor raises (λ lease. next_taking l) log (omega arith)
      (λ e. (omega arith, refl)) (λ lease x. (omega arith, refl))
serve-Below clock reply (next_loading l) log past left = reply-Below reply (next_loading l) refl
serve-Below clock reply (next_owner l c) log past left =
    test-Below 2 l (λ lease. require_owner_locked lease.key lease.owner) raises
      (λ lease u. next_taking l c) log (omega arith) (λ e. (omega arith, refl))
      (λ lease x. (omega arith, refl))
serve-Below clock reply (next_taking l c) log past left =
    block-Below 1 l (next_locked c l) raises (λ r. finished (delivered r)) log (omega arith)
      (λ e. (omega arith, refl)) (λ x. (omega arith, refl))
serve-Below clock reply (checking l r) log past left =
    test-Below 7 l (check_in_flight r) raises (λ lease u. saved_wait l (record_of r) lease) log
      (omega arith) (λ e. (omega arith, refl))
      (λ lease u.
        option-Below 7 lease.store (saved_cursor l (record_of r))
          (λ store. saved_loading l (record_of r)) (omega arith, refl)
          (λ store. (omega arith, refl)))
serve-Below clock reply (saved_cursor l r) log past left =
    test-Below 2 l load_broker_cursor raises (λ lease. advancing l r) log (omega arith)
      (λ e. (omega arith, refl)) (λ lease x. (omega arith, refl))
serve-Below clock reply (saved_loading l r) log past left =
    reply-Below reply (saved_loading l r) refl
serve-Below clock reply (saved_owner l r c) log past left =
    test-Below 5 l (λ lease. require_owner_locked lease.key lease.owner) raises
      (λ lease u. save_owner l r c) log (omega arith) (λ e. (omega arith, refl))
      (λ lease x. (omega arith, refl))
serve-Below clock reply (save_owner l r c) log past left =
    test-Below 4 l (λ lease. require_owner_locked lease.key lease.owner) raises
      (λ lease u. saving l r c) log (omega arith) (λ e. (omega arith, refl))
      (λ lease x. (omega arith, refl))
serve-Below clock reply (saving l r c) log past left = reply-Below reply (saving l r c) refl
serve-Below clock reply (save_confirming l) log past left =
    block-Below 1 l (confirm l) raises (λ u. finished returned) log (omega arith)
      (λ e. (omega arith, refl)) (λ x. (omega arith, refl))
serve-Below clock reply (advancing l r c) log past left =
    block-Below 1 l (advance c (cursor_at last_successful r.offset) l) raises
      (λ u. finished returned) log (omega arith) (λ e. (omega arith, refl))
      (λ x. (omega arith, refl))
serve-Below clock reply (stopping_for l e) log past left =
    with_lease-Below 1 l (λ lease log'. raise_error e (stop l lease log')) log (omega arith)
      (λ lease. (omega arith, refl))
serve-Below clock reply (stopping l) log past left =
    with_lease-Below 1 l (λ lease log'. (finished returned, stop l lease log')) log (omega arith)
      (λ lease. (omega arith, refl))
serve-Below clock reply (releasing l) log past left =
    with_lease-Below 1 l (λ lease log'. (finished returned, release_locked l lease log')) log
      (omega arith) (λ lease. (omega arith, refl))
serve-Below clock reply closing log past left = (omega arith, refl)
serve-Below clock reply (finished o) log past left = absurd (omega arith)
