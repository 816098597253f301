-- ===== src/Streams/Leases/Ends/Blocks.antt =====
-- Where the blocks of inmemory.py take a task.
use tori_py.Prelude.{
  ℕ, ◌<◌, ◌≡◌, refl, Option, none, some, true, ok, err, get_elem?, Option-cases, inl, inr,
}
use tori_py.Streams.Errors.{Error, Fallible}
use tori_py.Streams.Log.{Lease, Log}
use tori_py.Streams.Leases.Tasks.{Task}
use tori_py.Streams.Leases.Scheduler.{guarded, after, with_lease}
use tori_py.Streams.Leases.Ends.{rank, past_wait}

abbrev pub Below : ℕ → Task → Type 0
Below n task = (rank task < n) × (past_wait task ≡ true)

pub guarded-Below :
    {A : Type 0} (n : ℕ) (r : Fallible A) (failure : Error → Task) (success : A → Task) (log : Log)
    → ((e : Error) → Below n (failure e))
    → ((a : A) → Below n (success a))
    → Below n (guarded r failure success log).0
guarded-Below n (err e) failure success log h k = h e
guarded-Below n (ok a) failure success log h k = k a

pub after-Below :
    {A : Type 0} (n : ℕ) (p : Fallible A × Log) (failure : Error → Task) (success : A → Task)
    → ((e : Error) → Below n (failure e))
    → ((a : A) → Below n (success a))
    → Below n (after failure success p).0
after-Below n (r, log) failure success h k = guarded-Below n r failure success log h k

pub with_lease-Below :
    (n l : ℕ) (body : Lease → Log → Task × Log) (log : Log)
    → 0 < n
    → ((lease : Lease) → Below n (body lease log).0)
    → Below n (with_lease l body log).0
with_lease-Below n l body log some_left h = elim (Option-cases (get_elem? log.objects l)) [
  | inl missing ↦ simp (missing, with_lease) (some_left, refl)
  | inr (lease, there) ↦ simp (there, with_lease) (h lease)
]

pub option-Below :
    {A : Type 0} (n : ℕ) (o : Option A) (t : Task) (u : A → Task)
    → Below n t
    → ((a : A) → Below n (u a))
    → Below n (elim o [ none ↦ t | some a ↦ u a ])
option-Below n none t u h k = h
option-Below n (some a) t u h k = k a

-- A block that reads under a guard, and one that writes.
pub test-Below :
    {A : Type 0} (n l : ℕ) (test : Lease → Log → Fallible A) (failure : Error → Task)
    (success : Lease → A → Task) (log : Log)
    → 0 < n
    → ((e : Error) → Below n (failure e))
    → ((lease : Lease) (a : A) → Below n (success lease a))
    → Below n
        (with_lease l (λ lease log'. guarded (test lease log') failure (success lease) log') log).0
test-Below n l test failure success log some_left h k =
    with_lease-Below n l (λ lease log'. guarded (test lease log') failure (success lease) log') log
      some_left (λ lease. guarded-Below n (test lease log) failure (success lease) log h (k lease))

pub block-Below :
    {A : Type 0} (n l : ℕ) (block : Lease → Log → Fallible A × Log) (failure : Error → Task)
    (success : A → Task) (log : Log)
    → 0 < n
    → ((e : Error) → Below n (failure e))
    → ((a : A) → Below n (success a))
    → Below n (with_lease l (λ lease log'. after failure success (block lease log')) log).0
block-Below n l block failure success log some_left h k =
    with_lease-Below n l (λ lease log'. after failure success (block lease log')) log some_left
      (λ lease. after-Below n (block lease log) failure success h k)
