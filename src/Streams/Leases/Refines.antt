-- ===== src/Streams/Leases/Refines.antt =====
-- The log of inmemory.py as the ownership machine: every block is a sequence of its moves.
use mathlib.Core.Path.{subst}
use tori_py.Prelude.Dict
use tori_py.Prelude.{
  ℕ, ◌+◌, ◌≡◌, refl, sym, ap, ap₂, some, List, true, get_elem?, arith, Bool-cases, Option-cases,
  Result-cases, inl, inr, ◌==◌, nat_eq, option_eq, string_eq, pair_eq,
}
use tori_py.Value.{Value}
use tori_py.Streams.Models.Positions.{key_eq, OwnershipToken}
use tori_py.Streams.Ownership.{
  number, issue, drop_key, clear, issued_to, dropped, cleared, Moves, here, Moves-one, Moves-trans,
}
use tori_py.Streams.Errors.{last_successful}
use tori_py.Streams.Models.Positions.{cursor_at}
use tori_py.Streams.Log.{Lease, Log}
use tori_py.Streams.Leases.{binding_eq, set_lease}
use tori_py.Streams.Leases.Acquire.{
  Acquisition, retire, new_lease, generation_of, add_lease, install, initialize_broker,
  still_current, check_install,
}
use tori_py.Streams.Leases.Deliver.{completed, complete_delivery, release_locked, close}
use tori_py.Streams.Errors.{ResumeCursor}
use tori_py.Streams.Ownership.{Moves}
use tori_py.Streams.Log.Append.{append}
use tori_py.Streams.Log.Trim.{trim}
use tori_py.Streams.Log.Declare.{declare_stream}
use tori_py.Streams.Leases.Deliver.{check_advance, advance}
use tori_py.Streams.Leases.Run.{Steps, act_all-steps}
use tori_py.Streams.Leases.Scheduler.{System, Action, act_all}
use tori_py.Streams.Leases.View.Blocks.{view-release_all}
use tori_py.Streams.Leases.View.Methods.{held-append, held-trim, held-declare_stream}
use tori_py.Streams.Leases.View.{identity, ownership, held, map-snoc, length-map, view-set_lease}

-- The log moves as the ownership machine may.
abbrev pub Refines : Log → Log → Type 0
Refines log log' = Moves (ownership log) (ownership log')

pub Refines-same : (log log' : Log) → ownership log' ≡ ownership log → Refines log log'
Refines-same log log' same = subst (Moves (ownership log)) (sym same) here

retire-Refines : (a : Acquisition) (log : Log) → Refines log (retire a log)
unfolding retire
retire-Refines a log = elim (Option-cases a.marker) [
  | inl none_asked ↦ simp (none_asked, retire) here
  | inr (m, asked) ↦ elim (Bool-cases (still_current a log)) [
    | inl current ↦ simp (asked, current, retire) (Moves-one (dropped (ownership log) a.key))
    | inr replaced ↦ simp (asked, replaced, retire) here
  ]
]

generation_of-retire :
    (a : Acquisition) (log : Log) → generation_of (retire a log) a.key ≡ generation_of log a.key
unfolding retire generation_of
generation_of-retire a log = elim (Option-cases a.marker) [
  | inl none_asked ↦ simp (none_asked, retire) refl
  | inr (m, asked) ↦ elim (Bool-cases (still_current a log)) [
    | inl current ↦ simp (asked, current, retire) refl
    | inr replaced ↦ simp (asked, replaced, retire) refl
  ]
]

-- The new object has the next number, and the next generation of its key.
add_lease-Refines :
    (a : Acquisition) (log : Log)
    → Refines log (add_lease (new_lease a (generation_of log a.key + 1)) log)
unfolding add_lease new_lease generation_of
add_lease-Refines a log =
    let o = ownership log in
    let token : OwnershipToken = record {
      owner_id = a.subscription.owner_id;
      generation = number (Dict.get log.generations a.key) + 1;
    } in
    subst (Moves o)
      (ap₂
        (λ n members. record (issue a.key a.subscription.owner_id o) {
          holders = Dict.put log.leases a.key n;
          issued = members;
        })
        (length-map identity log.objects)
        (sym (map-snoc identity log.objects (new_lease a (generation_of log a.key + 1)))))
      (Moves-one (issued_to o a.key a.subscription.owner_id))

install-Refines : (a : Acquisition) (log : Log) → Refines log (install a log).1
unfolding install
install-Refines a log = elim (Result-cases (check_install a log)) [
  | inl (e, refused) ↦ simp (refused, install) here
  | inr (_, free) ↦
      simp (free, install)
        (Moves-trans (retire-Refines a log)
          (rw (← generation_of-retire a log) (add_lease-Refines a (retire a log))))
]

ownership-initialize_broker :
    (clock : Value) (lease : Lease) (log : Log)
    → ownership (initialize_broker clock lease log).1 ≡ ownership log
unfolding initialize_broker
ownership-initialize_broker clock lease log = ground arith

ownership-advance :
    (expected cursor : ResumeCursor) (l : ℕ) (lease : Lease) (log : Log)
    → get_elem? log.objects l ≡ some lease
    → ownership (advance expected cursor l lease log).1 ≡ ownership log
unfolding advance complete_delivery
ownership-advance expected cursor l lease log there =
    elim (Result-cases (check_advance expected cursor lease log)) [
      | inl (e, refused) ↦ simp (refused, advance) refl
      | inr (_, checked) ↦
          simp (checked, advance)
            (ap (λ v. v.0.0)
              (view-set_lease l lease (completed lease)
                (record log { broker_cursors = Dict.put log.broker_cursors lease.key cursor }) there
                refl))
    ]

release_locked-Refines :
    (l : ℕ) (lease : Lease) (log : Log)
    → get_elem? log.objects l ≡ some lease
    → Refines log (release_locked l lease log)
unfolding release_locked set_lease
release_locked-Refines l lease log there =
    let freed = completed (record lease { released = true }) in
    let same = ap (λ v. v.0.0) (view-set_lease l lease freed log there refl) in
    elim (Bool-cases (Dict.get log.leases lease.key == some l)) [
      | inl current ↦
          simp (current, release_locked)
            (subst (Moves (ownership log)) (ap (drop_key lease.key) (sym same))
              (Moves-one (dropped (ownership log) lease.key)))
      | inr replaced ↦
          simp (replaced, release_locked) (Refines-same log (set_lease l freed log) same)
    ]

close-Refines : (log : Log) → Refines log (close log)
unfolding close
close-Refines log =
    let closing = record log { closed = true; quiescing = true } in
    subst (Moves (ownership log))
      (ap (λ v. clear v.0.0) (sym (view-release_all log.leases closing)))
      (Moves-one (cleared (ownership log)))

Refines-held : (log log' : Log) → held log' ≡ held log → Refines log log'
Refines-held log log' same = Refines-same log log' (ap (λ h. h.0) same)

Refines-Steps : Steps Refines
Refines-Steps = record {
  viewed = λ log log' same. Refines-same log log' (ap (λ v. v.0.0) same);
  join = λ a b c h k. Moves-trans h k;
  install_step = install-Refines;
  initialize_broker_step = λ clock lease log.
      Refines-same log (initialize_broker clock lease log).1
        (ownership-initialize_broker clock lease log);
  advance_step = λ e n l lease log there.
      Refines-same log (advance e (cursor_at last_successful n) l lease log).1
        (ownership-advance e (cursor_at last_successful n) l lease log there);
  release_step = release_locked-Refines;
  close_step = close-Refines;
  append_step =
      λ clock n r log. Refines-held log (append clock n r log).1 (held-append clock n r log);
  trim_step = λ n p b log. Refines-held log (trim n p b log).1 (held-trim n p b log);
  declare_step = λ d log. Refines-held log (declare_stream d log).1 (held-declare_stream d log);
}

-- Whatever calls are made on a log, however their waits interleave, and whichever of them are cancelled
-- or refused by a store, the log's leases, owners, generations and lease objects change as a sequence
-- of moves of the ownership machine.
pub act_all-Refines :
    (actions : List Action) (s : System)
    → Moves (ownership s.log) (ownership (act_all actions s).log)
act_all-Refines actions s = act_all-steps Refines Refines-Steps actions s
