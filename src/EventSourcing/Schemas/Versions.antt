-- ===== src/EventSourcing/Schemas/Versions.antt =====
-- The check of `EventSchema` that there is an upcaster for each earlier version.
use tori_py.Prelude.Dict
use tori_py.Prelude.Dict.{Dict}
use tori_py.Prelude.{
  ℕ, ◌+◌, ◌-◌, ◌≤◌, ◌<◌, ◌≡◌, refl, sym, ◌∙◌, some, List, [], ◌∷◌, true, ok, arith, length,
  contains, nat_eq, nat_beq_iff, ◌==◌, Bool-cases, inl, inr,
}
use tori_py.EventSourcing.Schemas.{Upcaster, versions, insert, sorted, counts_from, check_versions}

contains-insert : (n : ℕ) (ms : List ℕ) (x : ℕ) → contains (insert n ms) x ≡ contains (n ∷ ms) x
unfolding contains insert
contains-insert n [] x = refl
contains-insert n (m ∷ ms) x = ground (arith, contains-insert n ms x)

contains-sorted : (ns : List ℕ) (x : ℕ) → contains (sorted ns) x ≡ contains ns x
unfolding contains sorted
contains-sorted [] x = refl
contains-sorted (n ∷ ns) x = contains-insert n (sorted ns) x ∙ ground (arith, contains-sorted ns x)

counts_from-contains :
    (n : ℕ) (ms : List ℕ) (x : ℕ)
    → counts_from n ms ≡ true
    → n ≤ x
    → x < n + length ms
    → contains ms x ≡ true
unfolding counts_from contains
counts_from-contains n [] x h low high = absurd (omega arith)
counts_from-contains n (m ∷ ms) x h low high =
    ground (arith, nat_beq_iff m x, nat_beq_iff m n, counts_from-contains (n + 1) ms x)

contains-versions :
    (d : Dict ℕ Upcaster) (x : ℕ)
    → contains (versions d) x ≡ true
    → (up : Upcaster) × (Dict.get d x ≡ some up)
unfolding contains Dict.get
contains-versions [] x h = absurd (ground arith)
contains-versions ((n, up) ∷ items) x h = elim (Bool-cases (n == x)) [
  | inl here ↦ (up, ground arith)
  | inr there ↦
      let (other, found) = contains-versions items x (ground arith) in (other, ground arith)
]

-- Where the check passes, each version from 1 up to the current one has an upcaster.
pub check_versions_lem :
    (version : ℕ) (upcasters : Dict ℕ Upcaster) (v : ℕ)
    → check_versions version upcasters ≡ ok tt
    → 1 ≤ v
    → v < version
    → (up : Upcaster) × (Dict.get upcasters v ≡ some up)
unfolding check_versions
check_versions_lem version upcasters v h low high =
    let ns = sorted (versions upcasters) in
    let counted : counts_from 1 ns ≡ true = ground arith in
    let sized : length ns ≡ version - 1 = ground (arith, nat_beq_iff (length ns) (version - 1)) in
    contains-versions upcasters v (
      sym (contains-sorted (versions upcasters) v)
      ∙ counts_from-contains 1 ns v counted low (omega (arith, sized)))
