-- ===== src/Streams/Leases/Cursors.antt =====
-- The cursors of the log of inmemory.py for broker-managed strategies.
use tori_py.Prelude.Dict
use tori_py.Prelude.{
  ℕ, List, ◌≡◌, refl, sym, ap, some, true, ok, arith, Bool-cases, Result-cases, inl, inr, option_eq,
  option_beq_iff,
}
use mathlib.Core.Path.{subst}
use tori_py.Value.{Value}
use tori_py.Streams.Errors.{ResumeCursor, last_successful}
use tori_py.Streams.Models.Positions.{CheckpointKey, key_eq, cursor_eq, cursor_at}
use tori_py.Streams.Checkpoints.{validate_advance}
use tori_py.Streams.Checkpoints.Fencing.{validate_advance_iff}
use tori_py.Streams.Checkpoints.Progress.{NotBefore, NotBefore-refl, NotBefore-trans, NotBefore-put}
use tori_py.Streams.Log.{Lease, Log}
use tori_py.Streams.Log.Append.{append}
use tori_py.Streams.Log.Trim.{trim}
use tori_py.Streams.Log.Declare.{declare_stream}
use tori_py.Streams.Leases.{require_owner_locked, set_lease}
use tori_py.Streams.Leases.Acquire.{
  Acquisition, check_install, retire, add_lease, install, resolved_cursor, initialize_broker,
}
use tori_py.Streams.Leases.Deliver.{
  complete_delivery, check_advance, advance, release_locked, close,
}
use tori_py.Streams.Leases.View.Blocks.{view-release_all}
use tori_py.Streams.Leases.View.Methods.{held-append, held-trim, held-declare_stream}
use tori_py.Streams.Leases.Run.{Steps, act_all-steps}
use tori_py.Streams.Leases.Scheduler.{System, Action, act_all}

abbrev Advances : Log → Log → Type 0
Advances log log' =
    (key : CheckpointKey)
    → NotBefore (Dict.get log.broker_cursors key) (Dict.get log'.broker_cursors key)

Advances-same : (log log' : Log) → log'.broker_cursors ≡ log.broker_cursors → Advances log log'
Advances-same log log' same key =
    subst (λ d. NotBefore (Dict.get log.broker_cursors key) (Dict.get d key)) (sym same)
      (NotBefore-refl (Dict.get log.broker_cursors key))

broker_cursors-retire :
    (a : Acquisition) (log : Log) → (retire a log).broker_cursors ≡ log.broker_cursors
unfolding retire
broker_cursors-retire a log = ground arith

install-Advances : (a : Acquisition) (log : Log) → Advances log (install a log).1
unfolding install add_lease
install-Advances a log = elim (Result-cases (check_install a log)) [
  | inl (e, refused) ↦ simp (refused, install) (Advances-same log log refl)
  | inr (_, free) ↦
      simp (free, install) (Advances-same log (retire a log) (broker_cursors-retire a log))
]

initialize_broker-Advances :
    (clock : Value) (lease : Lease) (log : Log) → Advances log (initialize_broker clock lease log).1
unfolding initialize_broker
initialize_broker-Advances clock lease log =
    elim (Result-cases (require_owner_locked lease.key lease.owner log)) [
      | inl (e, refused) ↦ simp (refused, initialize_broker) (Advances-same log log refl)
      | inr (_, owned) ↦ elim (Bool-cases (Dict.has log.broker_cursors lease.key)) [
        | inl present ↦ simp (owned, present, initialize_broker) (Advances-same log log refl)
        | inr missing ↦ elim (Result-cases (resolved_cursor clock lease log)) [
          | inl (e, failed) ↦
              simp (owned, missing, failed, initialize_broker) (Advances-same log log refl)
          | inr (cursor, resolved) ↦
              simp (owned, missing, resolved, initialize_broker)
                (λ key.
                  NotBefore-put log.broker_cursors lease.key key cursor
                    (rw (Dict.get-none_of_has log.broker_cursors lease.key missing) tt))
        ]
      ]
    ]

check_advance_stored :
    (expected cursor : ResumeCursor) (lease : Lease) (log : Log)
    → check_advance expected cursor lease log ≡ ok tt
    → (Dict.get log.broker_cursors lease.key ≡ some expected)
      × (validate_advance expected cursor ≡ ok tt)
unfolding check_advance
check_advance_stored expected cursor lease log h =
    ground (arith, option_beq_iff (Dict.get log.broker_cursors lease.key) (some expected))

advance-Advances :
    (expected : ResumeCursor) (n l : ℕ) (lease : Lease) (log : Log)
    → Advances log (advance expected (cursor_at last_successful n) l lease log).1
unfolding advance complete_delivery set_lease
advance-Advances expected n l lease log =
    let cursor = cursor_at last_successful n in
    elim (Result-cases (check_advance expected cursor lease log)) [
      | inl (e, refused) ↦ simp (refused, advance) (Advances-same log log refl)
      | inr (_, checked) ↦
          let (stored, valid) = check_advance_stored expected cursor lease log checked in
          simp (checked, advance)
            (λ key.
              NotBefore-put log.broker_cursors lease.key key cursor
                (rw stored (inr ((validate_advance_iff expected cursor refl).0 valid))))
    ]

broker_cursors-release_locked :
    (l : ℕ) (lease : Lease) (log : Log)
    → (release_locked l lease log).broker_cursors ≡ log.broker_cursors
unfolding release_locked set_lease
broker_cursors-release_locked l lease log = ground arith

broker_cursors-close : (log : Log) → (close log).broker_cursors ≡ log.broker_cursors
unfolding close
broker_cursors-close log =
    ap (λ v. v.0.1) (view-release_all log.leases (record log { closed = true; quiescing = true }))

Advances-Steps : Steps Advances
Advances-Steps = record {
  viewed = λ log log' same. Advances-same log log' (ap (λ v. v.0.1) same);
  join = λ a b c h k key.
      NotBefore-trans (Dict.get a.broker_cursors key) (Dict.get b.broker_cursors key)
        (Dict.get c.broker_cursors key) (h key) (k key);
  install_step = install-Advances;
  initialize_broker_step = initialize_broker-Advances;
  advance_step = λ e n l lease log there. advance-Advances e n l lease log;
  release_step = λ l lease log there.
      Advances-same log (release_locked l lease log) (broker_cursors-release_locked l lease log);
  close_step = λ log. Advances-same log (close log) (broker_cursors-close log);
  append_step = λ clock n r log.
      Advances-same log (append clock n r log).1 (ap (λ h. h.1) (held-append clock n r log));
  trim_step =
      λ n p b log. Advances-same log (trim n p b log).1 (ap (λ h. h.1) (held-trim n p b log));
  declare_step = λ d log.
      Advances-same log (declare_stream d log).1 (ap (λ h. h.1) (held-declare_stream d log));
}

-- After any run of calls on a log, with any interleaving of their waits, each key's broker-managed
-- cursor is the one that it had before, or one that follows it: no lease, current or replaced,
-- removes a cursor or moves it back.
pub act_all-NotBefore :
    (actions : List Action) (s : System) (key : CheckpointKey)
    → NotBefore
        (Dict.get s.log.broker_cursors key)
        (Dict.get (act_all actions s).log.broker_cursors key)
act_all-NotBefore actions s = act_all-steps Advances Advances-Steps actions s
