-- ===== src/Prelude/Dict.antt =====
-- Python's `dict`: an association list in insertion order, with the laws of its operations.
use mathlib.Core.Path.{◌≡◌, refl, sym, ap, ◌∙◌, subst₂}
use mathlib.Core.Logic.{inl, inr}
use mathlib.Core.Bool.{Bool, true, false}
use mathlib.Core.Option.{Option, none, some, none-ne-some}
use mathlib.Core.List.{List, [], ◌∷◌}
use native.Mathlib.Omega.{arith}
use tori_py.Prelude.Tests.{if◌then◌else◌, Bool-cases}
use tori_py.Prelude.Equality.{Eq, ◌==◌, ==_refl}

abbrev pub Dict {ℓ κ} : Type ℓ → Type κ → Type (ℓ ⊔ κ)
Dict K V = List (K × V)

module _ {ℓ κ} {K : Type ℓ} {V : Type κ} ⦃e : Eq K⦄ where
  -- `d.get(k)`
  unfoldable pub get : Dict K V → K → Option V
  get [] k = none
  get ((j, v) ∷ d) k = if j == k then some v else get d k

  -- `d[k] = v`: an entry keeps its place, a new one goes last.
  unfoldable pub put : Dict K V → K → V → Dict K V
  put [] k v = (k, v) ∷ []
  put ((j, w) ∷ d) k v = if j == k then (j, v) ∷ d else (j, w) ∷ put d k v

  -- `del d[k]`, `d.pop(k, None)`
  unfoldable pub remove : Dict K V → K → Dict K V
  remove [] k = []
  remove ((j, w) ∷ d) k = let rest = remove d k in if j == k then rest else (j, w) ∷ rest

  -- `k in d`
  unfoldable pub has : Dict K V → K → Bool
  has [] k = false
  has ((j, v) ∷ d) k = if j == k then true else has d k

  pub get-put :
      (d : Dict K V) (k j : K) (v : V) → get (put d k v) j ≡ (if k == j then some v else get d j)
  unfolding get put
  get-put [] k j v = refl
  get-put ((i, w) ∷ d) k j v =
      ground (arith, e.beq_iff k j, e.beq_iff i k, e.beq_iff i j, get-put d k j v)

  pub get-put_self : (d : Dict K V) (k : K) (v : V) → get (put d k v) k ≡ some v
  get-put_self d k v = rw (get-put, ==_refl k) refl

  pub get-remove :
      (d : Dict K V) (k j : K) → get (remove d k) j ≡ (if k == j then none else get d j)
  unfolding get remove
  get-remove [] k j = ground arith
  get-remove ((i, w) ∷ d) k j =
      ground (arith, e.beq_iff k j, e.beq_iff i k, e.beq_iff i j, get-remove d k j)

  pub has-get : (d : Dict K V) (k : K) → has d k ≡ elim (get d k) [ none ↦ false | some _ ↦ true ]
  unfolding has get
  has-get [] k = refl
  has-get ((j, v) ∷ d) k = ground (arith, has-get d k)

  -- What holds of every entry holds after a write that it holds of.
  pub put_keeps {μ} :
      (P : K → V → Type μ) (d : Dict K V) (k : K) (v : V)
      → ((j : K) (w : V) → get d j ≡ some w → P j w)
      → P k v
      → (j : K) (w : V) → get (put d k v) j ≡ some w
      → P j w
  put_keeps P d k v all here j w h = elim (Bool-cases (k == j)) [
    | inl same ↦ subst₂ P ((e.beq_iff k j).0 same) (ground (arith, get-put d k j v)) here
    | inr other ↦ all j w (rw (get-put, other) at h)
  ]

  pub remove_keeps {μ} :
      (P : K → V → Type μ) (d : Dict K V) (k : K)
      → ((j : K) (w : V) → get d j ≡ some w → P j w)
      → (j : K) (w : V) → get (remove d k) j ≡ some w
      → P j w
  remove_keeps P d k all j w h = all j w (ground (arith, get-remove d k j))

  -- To write the value that is there changes nothing.
  pub put_same : (d : Dict K V) (k : K) (v : V) → get d k ≡ some v → put d k v ≡ d
  unfolding get put
  put_same [] k v h = cc
  put_same ((j, w) ∷ d) k v h = ground (arith, put_same d k v)

  -- No key stands twice, as in every `dict`.
  abbrev pub HasDistinctKeys : Dict K V → Type 0
  HasDistinctKeys [] = Unit
  HasDistinctKeys ((j, v) ∷ d) = (has d j ≡ false) × HasDistinctKeys d

  has-put :
      (d : Dict K V) (k j : K) (v : V) → has (put d k v) j ≡ (if k == j then true else has d j)
  unfolding has put
  has-put [] k j v = refl
  has-put ((i, w) ∷ d) k j v =
      ground (arith, e.beq_iff k j, e.beq_iff i k, e.beq_iff i j, has-put d k j v)

  pub put-HasDistinctKeys :
      (d : Dict K V) (k : K) (v : V) → HasDistinctKeys d → HasDistinctKeys (put d k v)
  unfolding has put
  put-HasDistinctKeys [] k v h = (refl, tt)
  put-HasDistinctKeys ((j, w) ∷ d) k v h = elim (Bool-cases (j == k)) [
    | inl same ↦ rw same h
    | inr other ↦ rw other (
      ground (arith, has-put d k j v, e.beq_iff j k, e.beq_iff k j),
      put-HasDistinctKeys d k v h.1,
    )
  ]

  pub get-none_of_has : (d : Dict K V) (k : K) → has d k ≡ false → get d k ≡ none
  unfolding has get
  get-none_of_has [] k h = refl
  get-none_of_has ((j, v) ∷ d) k h = ground (arith, get-none_of_has d k)

  -- A write of a key that is not there leaves each entry.
  pub put_keeps_other :
      (d : Dict K V) (k j : K) (v w : V)
      → has d k ≡ false
      → get d j ≡ some w
      → get (put d k v) j ≡ some w
  put_keeps_other d k j v w fresh there = elim (Bool-cases (k == j)) [
    | inl same ↦
        let missing = get-none_of_has d k fresh in
        let here : k ≡ j = (e.beq_iff k j).0 same in
        absurd (none-ne-some w (sym missing ∙ ap (get d) here ∙ there))
    | inr other ↦ rw (get-put, other) there
  ]
