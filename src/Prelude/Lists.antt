-- ===== src/Prelude/Lists.antt =====
-- List functions over the native numbers, under the library's names.
use Prim.Native.Nat.{ℕ, zero, suc, ◌+◌, ◌≤◌, ◌<◌}
use mathlib.Core.Path.{◌≡◌, refl, ap, subst}
use mathlib.Core.Logic.{◌⊎◌, ◌≢◌, inl, inr}
use mathlib.Core.Bool.{Bool}
use mathlib.Core.Option.{Option, none, some}
use mathlib.Core.List.{List, [], ◌∷◌, ◌++◌}
use native.Mathlib.Omega.{arith}
use tori_py.Prelude.Tests.{if◌then◌else◌}

module _ {ℓ} {A : Type ℓ} where
  abbrev pub length : List A → ℕ
  length [] = 0
  length (x ∷ xs) = suc (length xs)

  abbrev pub get_elem? : List A → ℕ → Option A
  get_elem? [] i = none
  get_elem? (x ∷ xs) zero = some x
  get_elem? (x ∷ xs) (suc i) = get_elem? xs i

  -- A write out of bounds changes nothing.
  abbrev pub set : List A → ℕ → A → List A
  set [] i v = []
  set (x ∷ xs) zero v = v ∷ xs
  set (x ∷ xs) (suc i) v = x ∷ set xs i v

  abbrev pub take : ℕ → List A → List A
  take zero xs = []
  take (suc n) [] = []
  take (suc n) (x ∷ xs) = x ∷ take n xs

  abbrev pub drop : ℕ → List A → List A
  drop zero xs = xs
  drop (suc n) [] = []
  drop (suc n) (x ∷ xs) = drop n xs

  abbrev pub replicate : ℕ → A → List A
  replicate zero x = []
  replicate (suc n) x = x ∷ replicate n x

  -- The members that pass a test, in order.
  abbrev pub select : (A → Bool) → List A → List A
  select p [] = []
  select p (x ∷ xs) = let rest = select p xs in if p x then x ∷ rest else rest

  abbrev pub last? : List A → Option A
  last? [] = none
  last? (x ∷ []) = some x
  last? (x ∷ y ∷ xs) = last? (y ∷ xs)

  pub length-append : (xs ys : List A) → length (xs ++ ys) ≡ length xs + length ys
  length-append [] ys = omega arith
  length-append (x ∷ xs) ys = omega (arith, length-append xs ys)

  pub length-set : (xs : List A) (i : ℕ) (v : A) → length (set xs i v) ≡ length xs
  length-set [] i v = refl
  length-set (x ∷ xs) zero v = refl
  length-set (x ∷ xs) (suc i) v = ap suc (length-set xs i v)

  pub last?-append : (xs : List A) (x : A) → last? (xs ++ x ∷ []) ≡ some x
  last?-append [] x = refl
  last?-append (y ∷ []) x = refl
  last?-append (y ∷ z ∷ xs) x = last?-append (z ∷ xs) x

  pub take-le : (n : ℕ) (xs : List A) → length (take n xs) ≤ n
  take-le zero xs = omega arith
  take-le (suc n) [] = omega arith
  take-le (suc n) (x ∷ xs) = omega (arith, take-le n xs)

  -- A predicate that holds of every member.
  abbrev pub All {κ} : (A → Type κ) → List A → Type κ
  All P [] = Unit
  All P (x ∷ xs) = P x × All P xs

  pub All-append {κ} : (P : A → Type κ) (xs ys : List A) → All P xs → All P ys → All P (xs ++ ys)
  All-append P (x ∷ xs) ys (first, rest) all = (first, All-append P xs ys rest all)
  All-append P [] ys empty all = all

  pub All-map {κ μ} :
      (P : A → Type κ) (Q : A → Type μ)
      → ((x : A) → P x → Q x)
      → (xs : List A) → All P xs
      → All Q xs
  All-map P Q f [] h = tt
  All-map P Q f (x ∷ xs) h = (f x h.0, All-map P Q f xs h.1)

  -- A write changes the value at its place, where there is one.
  pub get_elem?-set :
      (xs : List A) (i j : ℕ) (v w : A)
      → get_elem? (set xs i v) j ≡ some w
      → ((i ≡ j) × (v ≡ w)) ⊎ (get_elem? xs j ≡ some w)
  get_elem?-set [] i j v w h = inr h
  get_elem?-set (x ∷ xs) zero zero v w h = inl (refl, ground arith)
  get_elem?-set (x ∷ xs) zero (suc j) v w h = inr h
  get_elem?-set (x ∷ xs) (suc i) zero v w h = inr h
  get_elem?-set (x ∷ xs) (suc i) (suc j) v w h = elim (get_elem?-set xs i j v w h) [
    | inl e ↦ inl (ap suc e.0, e.1)
    | inr e ↦ inr e
  ]

  pub get_elem?-set_self :
      (xs : List A) (i : ℕ) (v w : A) → get_elem? xs i ≡ some w → get_elem? (set xs i v) i ≡ some v
  get_elem?-set_self [] i v w h = cc
  get_elem?-set_self (x ∷ xs) zero v w h = refl
  get_elem?-set_self (x ∷ xs) (suc i) v w h = get_elem?-set_self xs i v w h

  pub get_elem?-set_other :
      (xs : List A) (i j : ℕ) (v : A) → i ≢ j → get_elem? (set xs i v) j ≡ get_elem? xs j
  get_elem?-set_other [] i j v h = refl
  get_elem?-set_other (x ∷ xs) zero zero v h = absurd (h refl)
  get_elem?-set_other (x ∷ xs) zero (suc j) v h = refl
  get_elem?-set_other (x ∷ xs) (suc i) zero v h = refl
  get_elem?-set_other (x ∷ xs) (suc i) (suc j) v h =
      get_elem?-set_other xs i j v (λ e. h (ap suc e))

  pub get_elem?-replicate : (n i : ℕ) (v w : A) → get_elem? (replicate n v) i ≡ some w → v ≡ w
  get_elem?-replicate zero i v w h = cc
  get_elem?-replicate (suc n) zero v w h = ground arith
  get_elem?-replicate (suc n) (suc i) v w h = get_elem?-replicate n i v w h

  pub length-replicate : (n : ℕ) (v : A) → length (replicate n v) ≡ n
  length-replicate zero v = refl
  length-replicate (suc n) v = ap suc (length-replicate n v)

  pub get_elem?-lt : (xs : List A) (i : ℕ) → i < length xs → (x : A) × (get_elem? xs i ≡ some x)
  get_elem?-lt [] i h = absurd (omega arith)
  get_elem?-lt (x ∷ xs) zero h = (x, refl)
  get_elem?-lt (x ∷ xs) (suc i) h = get_elem?-lt xs i (omega arith)

  pub take-nil : (n : ℕ) → take n [] ≡ []
  take-nil zero = refl
  take-nil (suc n) = refl

  pub All-set {κ} :
      (P : A → Type κ) (xs : List A) (i : ℕ) (v : A) → All P xs → P v → All P (set xs i v)
  All-set P [] i v h k = tt
  All-set P (x ∷ xs) zero v h k = (k, h.1)
  All-set P (x ∷ xs) (suc i) v h k = (h.0, All-set P xs i v h.1 k)

  some_inj : {x y : A} → some x ≡ some y → x ≡ y
  some_inj h = cc

  pub All-get_elem? {κ} :
      (P : A → Type κ) (xs : List A) (i : ℕ) (v : A) → All P xs → get_elem? xs i ≡ some v → P v
  All-get_elem? P [] i v h k = cc
  All-get_elem? P (x ∷ xs) zero v h k = subst P (some_inj k) h.0
  All-get_elem? P (x ∷ xs) (suc i) v h k = All-get_elem? P xs i v h.1 k
