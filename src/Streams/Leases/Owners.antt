-- ===== src/Streams/Leases/Owners.antt =====
-- What the owner tokens of inmemory.py promise to its leases.
use tori_py.Prelude.Dict
use tori_py.Prelude.{
  >>=-eq-ok, ℕ, zero, suc, ◌≡◌, ◌≢◌, sym, ap, ◌∙◌, some, List, [], ◌∷◌, ok, err, map, get_elem?,
  arith, option_beq_iff,
}
use mathlib.Core.Path.{subst}
use tori_py.Value.{Value}
use tori_py.Streams.Models.{positive}
use tori_py.Streams.Errors.{ownership}
use tori_py.Streams.Models.Positions.{CheckpointKey, key_eq, OwnershipToken, token_eq}
use tori_py.Streams.Ownership.Valid.{OwnershipIsValid, Moves-IsValid}
use tori_py.Streams.Ownership.Lost.{Lost, Moves-Lost}
use tori_py.Streams.Log.{Lease, Log, require_open}
use tori_py.Streams.Log.Declare.{new_log, init}
use tori_py.Streams.Leases.{require_owner_locked}
use tori_py.Streams.Leases.View.{identity, ownership as owned}
use tori_py.Streams.Leases.Refines.{act_all-Refines}
use tori_py.Streams.Leases.Scheduler.{System, Action, act_all}

-- A log as `__init__` leaves it, with no call begun.
abbrev pub new_system : Log → System
new_system log = record { log = log; tasks = [] }

empty-IsValid :
    OwnershipIsValid (record { holders = []; tokens = []; generations = []; issued = [] })
unfolding Dict.get
empty-IsValid = record {
  held = λ key l h. absurd (ground arith);
  kept = λ key token h. absurd (ground arith);
  numbered = λ l key token h. absurd (ground arith);
  unique = λ i j key t u h k same. absurd (ground arith);
}

init-new_log : (max : Value) (log : Log) → init max ≡ ok log → (n : ℕ) × (new_log n ≡ log)
unfolding init
init-new_log max log h =
    let (n, _, made) = >>=-eq-ok (positive max) (λ n. ok (new_log n)) h in (n, cc)

init-IsValid : (max : Value) (log : Log) → init max ≡ ok log → OwnershipIsValid (owned log)
init-IsValid max log h =
    let (n, made) = init-new_log max log h in
    subst (λ l. OwnershipIsValid (owned l)) made empty-IsValid

pub run-IsValid :
    (max : Value) (log : Log) (actions : List Action)
    → init max ≡ ok log
    → OwnershipIsValid (owned (act_all actions (new_system log)).log)
run-IsValid max log actions h =
    Moves-IsValid (act_all-Refines actions (new_system log)) (init-IsValid max log h)

get_elem?-map {ℓ κ} :
    {A : Type ℓ} {B : Type κ} (f : A → B) (xs : List A) (i : ℕ) (x : A)
    → get_elem? xs i ≡ some x
    → get_elem? (map f xs) i ≡ some (f x)
get_elem?-map f [] i x h = cc
get_elem?-map f (y ∷ xs) zero x h = let same : y ≡ x = cc in ap (λ z. some (f z)) same
get_elem?-map f (y ∷ xs) (suc i) x h = get_elem?-map f xs i x h

pub require_owner_locked_owner :
    (key : CheckpointKey) (token : OwnershipToken) (log : Log)
    → require_owner_locked key token log ≡ ok tt
    → Dict.get log.owners key ≡ some token
unfolding require_owner_locked require_open
require_owner_locked_owner key token log h =
    ground (arith, option_beq_iff (Dict.get log.owners key) (some token))

require_owner_locked_other :
    (key : CheckpointKey) (token : OwnershipToken) (log : Log)
    → require_owner_locked key token log ≡ err ownership
    → Dict.get log.owners key ≢ some token
unfolding require_owner_locked require_open
require_owner_locked_other key token log h held =
    ground (arith, option_beq_iff (Dict.get log.owners key) (some token))

-- In a run of calls on a new log, at most one lease object of each key is its partition's owner: two
-- lease objects of the same key that the owner guard lets pass are the same object.
pub owner_unique :
    (max : Value) (log : Log) (actions : List Action) (i j : ℕ) (a b : Lease)
    → init max ≡ ok log
    → get_elem? (act_all actions (new_system log)).log.objects i ≡ some a
    → get_elem? (act_all actions (new_system log)).log.objects j ≡ some b
    → a.key ≡ b.key
    → require_owner_locked a.key a.owner (act_all actions (new_system log)).log ≡ ok tt
    → require_owner_locked b.key b.owner (act_all actions (new_system log)).log ≡ ok tt
    → i ≡ j
owner_unique max log actions i j a b new there_a there_b same passed_a passed_b =
    let log' = (act_all actions (new_system log)).log in
    let v = run-IsValid max log actions new in
    let owner_a = require_owner_locked_owner a.key a.owner log' passed_a in
    let owner_b = require_owner_locked_owner b.key b.owner log' passed_b in
    let tokens : some a.owner ≡ some b.owner =
      sym owner_a ∙ ap (Dict.get log'.owners) same ∙ owner_b in
    v.unique i j a.key a.owner b.owner (get_elem?-map identity log'.objects i a there_a)
      (get_elem?-map identity log'.objects j b there_b ∙ ap (λ k. some (k, b.owner)) (sym same))
      (ground arith)

-- In a run of calls on a new log, a lease object that the owner guard refuses as no owner is not let
-- pass again, whatever is called after it: a lease that was released or replaced stays fenced out.
pub fenced_out-stays :
    (max : Value) (log : Log) (before after : List Action) (i : ℕ) (a : Lease)
    → init max ≡ ok log
    → get_elem? (act_all before (new_system log)).log.objects i ≡ some a
    → require_owner_locked a.key a.owner (act_all before (new_system log)).log ≡ err ownership
    → require_owner_locked a.key a.owner (act_all after (act_all before (new_system log))).log
      ≢ ok tt
fenced_out-stays max log before after i a new there refused passed =
    let s = act_all before (new_system log) in
    let v = run-IsValid max log before new in
    let lost : Lost a.key a.owner (owned s.log) = record {
      before = v.numbered i a.key a.owner (get_elem?-map identity s.log.objects i a there);
      other = require_owner_locked_other a.key a.owner s.log refused;
    } in
    (Moves-Lost a.key a.owner (act_all-Refines after s) lost).other
      (require_owner_locked_owner a.key a.owner (act_all after s).log passed)
