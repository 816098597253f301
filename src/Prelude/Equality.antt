-- ===== src/Prelude/Equality.antt =====
-- Python's `==` on the types that the program compares, as an interface with its law.
use Prim.Native.Nat.{ℕ}
use Prim.Native.String.{String}
use mathlib.Core.Path.{◌≡◌, refl}
use mathlib.Core.Logic.{◌↔◌}
use mathlib.Core.Bool.{Bool, true, false, ◌&&◌}
use mathlib.Core.Option.{Option, none, some}
use mathlib.Core.List.{List, [], ◌∷◌}
use native.Mathlib.Omega.{arith}
use text.Mathlib.Text.{◌==◌ as string_beq}
use text.Mathlib.TextEquality.{eq_iff}
use tori_py.Prelude.Tests.{nat_beq, nat_beq_iff, if◌then◌else◌}

pub record Eq {ℓ} (A : Type ℓ) : Type ℓ where
  pub beq : (x y : A) → Bool
  pub beq_iff : (x y : A) → (beq x y ≡ true) ↔ (x ≡ y)

instance abbrev pub nat_eq : Eq ℕ
nat_eq = record { beq_iff = nat_beq_iff; beq = nat_beq }

infix 50 ◌==◌
abbrev pub ◌==◌ {ℓ} : {A : Type ℓ} ⦃type : Eq A⦄ → A → A → Bool
◌==◌ ⦃type⦄ = type.beq

instance abbrev pub string_eq : Eq String
string_eq = record { beq_iff = eq_iff; beq = string_beq }

pub ==_refl {ℓ} : {A : Type ℓ} ⦃e : Eq A⦄ (a : A) → (a == a) ≡ true
==_refl ⦃e⦄ a = (e.beq_iff a a).1 refl

abbrev pub pair_beq {ℓ κ} : {A : Type ℓ} {B : Type κ} ⦃e : Eq A⦄ ⦃f : Eq B⦄ → A × B → A × B → Bool
pair_beq p q = p.0 == q.0 && p.1 == q.1

pub pair_beq_iff {ℓ κ} :
    {A : Type ℓ} {B : Type κ} ⦃e : Eq A⦄ ⦃f : Eq B⦄ (p q : A × B) → (pair_beq p q ≡ true) ↔ (p ≡ q)
pair_beq_iff ⦃e⦄ ⦃f⦄ (a, b) (c, d) = (
  λ h. ground (arith, e.beq_iff a c, f.beq_iff b d),
  λ h. ground (arith, e.beq_iff a c, f.beq_iff b d),
)

instance abbrev pub pair_eq {ℓ κ} : {A : Type ℓ} {B : Type κ} ⦃e : Eq A⦄ ⦃f : Eq B⦄ → Eq (A × B)
pair_eq = record { beq = pair_beq; beq_iff = pair_beq_iff }

abbrev pub option_beq {ℓ} : {A : Type ℓ} ⦃e : Eq A⦄ → Option A → Option A → Bool
option_beq none none = true
option_beq (some a) (some b) = a == b
option_beq _ _ = false

pub option_beq_iff {ℓ} :
    {A : Type ℓ} ⦃e : Eq A⦄ (p q : Option A) → (option_beq p q ≡ true) ↔ (p ≡ q)
option_beq_iff none none = (λ h. refl, λ h. refl)
option_beq_iff none (some b) = (λ h. cc, λ h. cc)
option_beq_iff (some a) none = (λ h. cc, λ h. cc)
option_beq_iff ⦃e⦄ (some a) (some b) =
    (λ h. ground (arith, e.beq_iff a b), λ h. ground (arith, e.beq_iff a b))

instance abbrev pub option_eq {ℓ} : {A : Type ℓ} ⦃e : Eq A⦄ → Eq (Option A)
option_eq = record { beq = option_beq; beq_iff = option_beq_iff }

abbrev pub list_beq {ℓ} : {A : Type ℓ} ⦃e : Eq A⦄ → List A → List A → Bool
list_beq [] [] = true
list_beq (a ∷ p) (b ∷ q) = a == b && list_beq p q
list_beq _ _ = false

pub list_beq_iff {ℓ} : {A : Type ℓ} ⦃e : Eq A⦄ (p q : List A) → (list_beq p q ≡ true) ↔ (p ≡ q)
list_beq_iff [] [] = (λ h. refl, λ h. refl)
list_beq_iff [] (b ∷ q) = (λ h. cc, λ h. cc)
list_beq_iff (a ∷ p) [] = (λ h. cc, λ h. cc)
list_beq_iff ⦃e⦄ (a ∷ p) (b ∷ q) = (
  λ h. ground (arith, e.beq_iff a b, list_beq_iff p q),
  λ h. ground (arith, e.beq_iff a b, list_beq_iff p q),
)

instance abbrev pub list_eq {ℓ} : {A : Type ℓ} ⦃e : Eq A⦄ → Eq (List A)
list_eq = record { beq = list_beq; beq_iff = list_beq_iff }

-- `x in xs`
unfoldable pub contains {ℓ} : {A : Type ℓ} ⦃e : Eq A⦄ → List A → A → Bool
contains [] x = false
contains (y ∷ ys) x = if y == x then true else contains ys x
