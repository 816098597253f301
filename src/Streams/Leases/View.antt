-- ===== src/Streams/Leases/View.antt =====
-- The parts of the state of inmemory.py that its promises are about, and what leaves them as they are.
pub mod Claims
pub mod Blocks
pub mod Methods
use tori_py.Prelude.Dict.{Dict}
use tori_py.Prelude.{
  ℕ, zero, suc, ◌+◌, ◌≡◌, refl, sym, ap, ◌∙◌, Option, none, some, List, [], ◌∷◌, ◌++◌, String, map,
  length, get_elem?, set, arith,
}
use tori_py.Streams.Errors.{ResumeCursor}
use tori_py.Streams.Models.Positions.{CheckpointKey, OwnershipToken}
use tori_py.Streams.Ownership.{Ownership}
use tori_py.Streams.Log.{Lease, Log, StreamState}
use tori_py.Streams.Leases.{set_lease}

-- What does not change in a lease object.
abbrev pub identity : Lease → CheckpointKey × OwnershipToken
identity lease = (lease.key, lease.owner)

abbrev pub ownership : Log → Ownership
ownership log = record {
  holders = log.leases;
  tokens = log.owners;
  generations = log.generations;
  issued = map identity log.objects;
}

-- What a lease may change, and the whole view.
abbrev pub held : Log → Ownership × Dict CheckpointKey ResumeCursor
held log = (ownership log, log.broker_cursors)

abbrev pub view : Log → (Ownership × Dict CheckpointKey ResumeCursor) × Dict String StreamState
view log = (held log, log.streams)

pub map-set_same {ℓ κ} :
    {A : Type ℓ} {B : Type κ} (f : A → B) (xs : List A) (i : ℕ) (x y : A)
    → get_elem? xs i ≡ some x
    → f y ≡ f x
    → map f (set xs i y) ≡ map f xs
map-set_same f [] i x y h same = refl
map-set_same f (z ∷ xs) zero x y h same =
    let here : z ≡ x = cc in ap (λ w. w ∷ map f xs) (same ∙ ap f (sym here))
map-set_same f (z ∷ xs) (suc i) x y h same = ap (◌∷◌ (f z)) (map-set_same f xs i x y h same)

pub length-map {ℓ κ} :
    {A : Type ℓ} {B : Type κ} (f : A → B) (xs : List A) → length (map f xs) ≡ length xs
length-map f [] = refl
length-map f (x ∷ xs) = ap suc (length-map f xs)

pub map-snoc {ℓ κ} :
    {A : Type ℓ} {B : Type κ} (f : A → B) (xs : List A) (x : A)
    → map f (xs ++ x ∷ []) ≡ map f xs ++ f x ∷ []
map-snoc f [] x = refl
map-snoc f (y ∷ xs) x = ap (◌∷◌ (f y)) (map-snoc f xs x)

pub view-set_lease :
    (l : ℕ) (lease changed : Lease) (log : Log)
    → get_elem? log.objects l ≡ some lease
    → identity changed ≡ identity lease
    → view (set_lease l changed log) ≡ view log
unfolding set_lease
view-set_lease l lease changed log there same =
    ap (λ xs. ((record (ownership log) { issued = xs }, log.broker_cursors), log.streams))
      (map-set_same identity log.objects l lease changed there same)
