-- ===== src/Streams/Leases/Ends.antt =====
-- How many events the calls of inmemory.py need.
pub mod Blocks
pub mod Serve
pub mod Total
use tori_py.Prelude.{
  ℕ, zero, suc, ◌+◌, ◌≤◌, ◌<◌, ◌≡◌, refl, Option, none, some, List, length, [], ◌∷◌, Bool, true,
  false, ok, err, arith, get_elem?, Bool-cases, Option-cases, Result-cases, inl, inr, ◌⊎◌,
  if◌then◌else◌,
}
use tori_py.Value.{Value}
use tori_py.Streams.Models.Positions.{cursor_at}
use tori_py.Streams.Errors.{last_successful, Error, Fallible}
use tori_py.Streams.Log.{Lease, Log}
use tori_py.Streams.Leases.Acquire.{install, resolved_cursor, initialize_broker}
use tori_py.Streams.Leases.{require_owner_locked}
use tori_py.Streams.Leases.Deliver.{
  stop, release_locked, load_broker_cursor, next_locked, check_in_flight, record_of, advance,
  confirm,
}
use tori_py.Streams.Leases.Tasks.{
  delivered, returned, nothing, cursor, malformed, failed, Task, Reply, Outcome, acquiring,
  awaiting, claimed, undoing, initializing, fencing, loading, resolving, creating, confirming,
  failing, unreserving, finishing, next_cursor, next_loading, next_owner, next_taking, checking,
  saved_cursor, saved_loading, saved_owner, save_owner, saving, save_confirming, advancing,
  stopping_for, stopping, releasing, closing, finished, on_reply, validate_checkpoint_store_call,
}
use tori_py.Streams.Leases.Scheduler.{
  saved_wait, release_wait, raise_error, Event, locked, replied, resume, on_lock, raises,
  initialization, guarded, after, with_lease,
}

-- The most events that a call still needs.
abbrev pub rank : Task → ℕ
rank (acquiring subscription partition strategy transfer) = 13
rank (awaiting a) = 12
rank (claimed a) = 11
rank (undoing a e) = 1
rank (initializing a l) = 9
rank (fencing a l) = 10
rank (loading a l) = 9
rank (resolving a l) = 8
rank (creating a l c) = 7
rank (confirming a l) = 6
rank (failing a l e) = 4
rank (unreserving a e) = 1
rank (finishing a l) = 1
rank (next_cursor l) = 2
rank (next_loading l) = 4
rank (next_owner l c) = 2
rank (next_taking l c) = 1
rank (checking l r) = 7
rank (saved_cursor l r) = 2
rank (saved_loading l r) = 6
rank (saved_owner l r c) = 5
rank (save_owner l r c) = 4
rank (saving l r c) = 3
rank (save_confirming l) = 1
rank (advancing l r c) = 1
rank (stopping_for l e) = 1
rank (stopping l) = 1
rank (releasing l) = 1
rank closing = 1
rank (finished o) = 0

-- Whether a task waits for a checkpoint store, not for the lock.
abbrev pub at_store : Task → Bool
at_store (fencing a l) = true
at_store (loading a l) = true
at_store (creating a l c) = true
at_store (next_loading l) = true
at_store (saved_loading l r) = true
at_store (saving l r c) = true
at_store _ = false

-- What a task waits for comes: a reply of the store, or the lock.
abbrev pub serve : Value → Reply → Task → Log → Task × Log
serve clock reply task log =
    if at_store task then resume (replied reply) task log else resume (locked clock) task log

-- One turn for each event: the clock, the store's reply, and the log as the other calls have left it.
abbrev pub Turn : Type 0
Turn = Value × Reply × Log

abbrev pub serve_all : List Turn → Task → Task
serve_all [] task = task
serve_all ((clock, reply, log) ∷ turns) task = serve_all turns (serve clock reply task log).0

-- Whether `acquire` does not wait, now or later, for another lease's delivery to end.
abbrev pub past_wait : Task → Bool
past_wait (acquiring subscription partition strategy transfer) = false
past_wait (awaiting a) = false
past_wait _ = true
