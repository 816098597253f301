-- ===== src/Prelude/Distinct.antt =====
-- Lists without repetition, read from the left with the members seen so far.
use mathlib.Core.Path.{◌≡◌, refl, sym, ◌∙◌}
use mathlib.Core.Bool.{true, false, ◌||◌}
use mathlib.Core.List.{List, [], ◌∷◌, ◌++◌}
use native.Mathlib.Omega.{arith}
use tori_py.Prelude.Equality.{Eq, contains}

module _ {ℓ} {A : Type ℓ} ⦃e : Eq A⦄ where
  -- No member is among those seen, or twice in the list.
  abbrev pub Fresh : List A → List A → Type 0
  Fresh seen [] = Unit
  Fresh seen (x ∷ xs) = (contains seen x ≡ false) × Fresh (x ∷ seen) xs

  abbrev pub push : List A → List A → List A
  push [] seen = seen
  push (x ∷ xs) seen = push xs (x ∷ seen)

  pub Fresh-append :
      (seen xs ys : List A) → Fresh seen xs → Fresh (push xs seen) ys → Fresh seen (xs ++ ys)
  Fresh-append seen [] ys h k = k
  Fresh-append seen (x ∷ xs) ys h k = (h.0, Fresh-append (x ∷ seen) xs ys h.1 k)

  pub push-append : (xs ys seen : List A) → push (xs ++ ys) seen ≡ push ys (push xs seen)
  push-append [] ys seen = refl
  push-append (x ∷ xs) ys seen = push-append xs ys (x ∷ seen)

  pub Fresh_same :
      (s t xs : List A) → ((x : A) → contains s x ≡ contains t x) → Fresh s xs → Fresh t xs
  unfolding contains
  Fresh_same s t [] same h = tt
  Fresh_same s t (x ∷ xs) same h =
      (sym (same x) ∙ h.0, Fresh_same (x ∷ s) (x ∷ t) xs (λ y. ground (arith, same y)) h.1)

  pub contains-push :
      (xs seen : List A) (x : A) → contains (push xs seen) x ≡ (contains xs x || contains seen x)
  unfolding contains
  contains-push [] seen x = refl
  contains-push (y ∷ xs) seen x = ground (arith, contains-push xs (y ∷ seen) x)

  pub contains-push-nil : (xs : List A) (x : A) → contains (push xs []) x ≡ contains xs x
  unfolding contains
  contains-push-nil xs x = ground (arith, contains-push xs [] x)

  pub contains-append :
      (xs ys : List A) (x : A) → contains (xs ++ ys) x ≡ (contains xs x || contains ys x)
  unfolding contains
  contains-append [] ys x = refl
  contains-append (y ∷ xs) ys x = ground (arith, contains-append xs ys x)

  -- A list without repetition, with a member that it lacks put last.
  pub Fresh-snoc :
      (xs : List A) (x : A) → Fresh [] xs → contains xs x ≡ false → Fresh [] (xs ++ x ∷ [])
  Fresh-snoc xs x h k = Fresh-append [] xs (x ∷ []) h (contains-push-nil xs x ∙ k, tt)

  -- What was seen is not in the list.
  pub contains_of_Fresh :
      (seen xs : List A) (x : A) → Fresh seen xs → contains seen x ≡ true → contains xs x ≡ false
  unfolding contains
  contains_of_Fresh seen [] x h k = refl
  contains_of_Fresh seen (y ∷ xs) x h k =
      ground (arith, e.beq_iff y x, contains_of_Fresh (y ∷ seen) xs x h.1)
