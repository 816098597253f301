-- ===== src/Streams/Leases/Streams.antt =====
-- The stored records of inmemory.py under the calls of its leases.
use tori_py.Prelude.{ℕ, true, ◌≡◌, refl, ap, List, Result-cases, inl, inr, arith, string_eq}
use tori_py.Value.{Value}
use tori_py.Streams.Errors.{ResumeCursor}
use tori_py.Streams.Errors.{last_successful}
use tori_py.Streams.Models.Positions.{cursor_at}
use tori_py.Streams.Log.{Lease, Log}
use tori_py.Streams.Log.Valid.{LogIsValid}
use tori_py.Streams.Log.Valid.Append.{append-LogIsValid}
use tori_py.Streams.Log.Valid.Trim.{trim-LogIsValid, declare_stream-LogIsValid}
use tori_py.Streams.Leases.{set_lease}
use tori_py.Streams.Leases.Acquire.{
  Acquisition, check_install, retire, add_lease, install, initialize_broker,
}
use tori_py.Streams.Leases.Deliver.{complete_delivery, advance, release_locked, close}
use tori_py.Streams.Leases.View.Blocks.{view-release_all}
use tori_py.Streams.Leases.Run.{Steps, act_all-steps}
use tori_py.Streams.Leases.Scheduler.{System, Action, act_all}

abbrev Keeps : Log → Log → Type 0
Keeps log log' = LogIsValid log → LogIsValid log'

Keeps-same : (log log' : Log) → log'.streams ≡ log.streams → Keeps log log'
Keeps-same log log' same v = record { streams = rw same v.streams }

streams-retire : (a : Acquisition) (log : Log) → (retire a log).streams ≡ log.streams
unfolding retire
streams-retire a log = ground arith

pub streams-install : (a : Acquisition) (log : Log) → (install a log).1.streams ≡ log.streams
unfolding install add_lease
streams-install a log = elim (Result-cases (check_install a log)) [
  | inl (e, refused) ↦ simp (refused, install) refl
  | inr (_, free) ↦ simp (free, install) (streams-retire a log)
]

pub streams-initialize_broker :
    (clock : Value) (lease : Lease) (log : Log)
    → (initialize_broker clock lease log).1.streams ≡ log.streams
unfolding initialize_broker
streams-initialize_broker clock lease log = ground arith

pub streams-advance :
    (expected cursor : ResumeCursor) (l : ℕ) (lease : Lease) (log : Log)
    → (advance expected cursor l lease log).1.streams ≡ log.streams
unfolding advance complete_delivery set_lease
streams-advance expected cursor l lease log = ground arith

pub streams-release_locked :
    (l : ℕ) (lease : Lease) (log : Log) → (release_locked l lease log).streams ≡ log.streams
unfolding release_locked set_lease
streams-release_locked l lease log = ground arith

pub streams-close : (log : Log) → (close log).streams ≡ log.streams
unfolding close
streams-close log =
    ap (λ v. v.1) (view-release_all log.leases (record log { closed = true; quiescing = true }))

Keeps-Steps : Steps Keeps
Keeps-Steps = record {
  viewed = λ log log' same. Keeps-same log log' (ap (λ v. v.1) same);
  join = λ a b c h k v. k (h v);
  install_step = λ a log. Keeps-same log (install a log).1 (streams-install a log);
  initialize_broker_step = λ clock lease log.
      Keeps-same log (initialize_broker clock lease log).1
        (streams-initialize_broker clock lease log);
  advance_step = λ e n l lease log there.
      Keeps-same log (advance e (cursor_at last_successful n) l lease log).1
        (streams-advance e (cursor_at last_successful n) l lease log);
  release_step = λ l lease log there.
      Keeps-same log (release_locked l lease log) (streams-release_locked l lease log);
  close_step = λ log. Keeps-same log (close log) (streams-close log);
  append_step = append-LogIsValid;
  trim_step = trim-LogIsValid;
  declare_step = declare_stream-LogIsValid;
}

-- A run of calls on a well-formed log, appends, trims, declarations and the calls of leases interleaved
-- in any order, leaves a well-formed log.
pub act_all-LogIsValid :
    (actions : List Action) (s : System) → LogIsValid s.log → LogIsValid (act_all actions s).log
act_all-LogIsValid actions s = act_all-steps Keeps Keeps-Steps actions s
