-- ===== src/Streams/Leases/Handover.antt =====
-- The second block of `acquire` of inmemory.py, where a partition gets its new owner.
use tori_py.Prelude.Dict
use tori_py.Prelude.{
  ℕ, ◌+◌, ◌≡◌, ◌≢◌, refl, none, some, true, false, ok, arith, Option-cases, Result-cases, inl, inr,
  get_elem?, option_beq_iff, option_eq, nat_eq, ==_refl,
}
use tori_py.Streams.Models.Positions.{CheckpointKey, key_eq, token_eq}
use tori_py.Streams.Models.Records.{StoredRecord}
use tori_py.Streams.Log.{Lease, Log, require_open}
use tori_py.Streams.Leases.{require_owner_locked}
use tori_py.Streams.Leases.Acquire.{
  Acquisition, still_current, in_flight, current_in_flight, check_install, retire, generation_of,
  new_lease, add_lease, install,
}

closed-retire : (a : Acquisition) (log : Log) → (retire a log).closed ≡ log.closed
unfolding retire
closed-retire a log = ground arith

check_install-open :
    (a : Acquisition) (log : Log) → check_install a log ≡ ok tt → log.closed ≡ false
unfolding check_install require_open
check_install-open a log h = ground arith

installed :
    (a : Acquisition) (n : ℕ) (log : Log) → (install a log).0 ≡ ok n → check_install a log ≡ ok tt
unfolding install
installed a n log h = elim (Result-cases (check_install a log)) [
  | inl (e, refused) ↦ absurd (ground arith)
  | inr (_, free) ↦ free
]

-- The lease that `install` adds is the owner: the guard lets its token pass in the log that
-- `install` leaves, and its generation is one more than the key's last.
pub install-owner :
    (a : Acquisition) (n : ℕ) (log : Log)
    → (install a log).0 ≡ ok n
    → require_owner_locked a.key
        (record { owner_id = a.subscription.owner_id; generation = generation_of log a.key + 1 })
        (install a log).1
      ≡ ok tt
unfolding install add_lease new_lease require_owner_locked require_open
install-owner a n log h =
    let free = installed a n log h in
    simp (free, install, closed-retire, check_install-open a log free, Dict.get-put_self, ==_refl)
      refl

in_flight_lem :
    (log : Log) (l : ℕ) (lease : Lease) (r : StoredRecord)
    → get_elem? log.objects l ≡ some lease
    → lease.in_flight ≡ some r
    → in_flight log l ≡ true
unfolding in_flight
in_flight_lem log l lease r there busy = simp (there, busy, in_flight) refl

still_current_lem :
    (a : Acquisition) (l : ℕ) (log : Log)
    → Dict.get log.leases a.key ≡ some l
    → a.current ≡ some l
    → still_current a log ≡ true
unfolding still_current
still_current_lem a l log owned asked =
    ground (arith, option_beq_iff (Dict.get log.leases a.key) a.current)

check_install-busy :
    (a : Acquisition) (l : ℕ) (log : Log)
    → Dict.has log.leases a.key ≡ true
    → still_current a log ≡ true
    → current_in_flight a log ≡ true
    → check_install a log ≢ ok tt
unfolding check_install require_open
check_install-busy a l log owned current busy passed = ground arith

has_owned :
    (key : CheckpointKey) (l : ℕ) (log : Log)
    → Dict.get log.leases key ≡ some l
    → Dict.has log.leases key ≡ true
has_owned key l log owned = ground (arith, Dict.has-get log.leases key)

-- A transfer waits for the delivery of the lease that it asked: where `install` replaces it while
-- it is still the key's lease, that lease has no delivery in flight.
pub install-in_flight :
    (a : Acquisition) (n l : ℕ) (lease : Lease) (log : Log)
    → Dict.get log.leases a.key ≡ some l
    → a.current ≡ some l
    → get_elem? log.objects l ≡ some lease
    → (install a log).0 ≡ ok n
    → lease.in_flight ≡ none
unfolding current_in_flight
install-in_flight a n l lease log owned asked there h = elim (Option-cases lease.in_flight) [
  | inl settled ↦ settled
  | inr (r, busy) ↦
      let busy' : current_in_flight a log ≡ true =
        simp (asked, current_in_flight) (in_flight_lem log l lease r there busy) in
      absurd (
        check_install-busy a l log (has_owned a.key l log owned)
          (still_current_lem a l log owned asked) busy' (installed a n log h))
]
