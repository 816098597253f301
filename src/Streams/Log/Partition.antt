-- ===== src/Streams/Log/Partition.antt =====
-- The order of a partition's records: offsets, timestamps, and what the lists that the log builds
-- from them keep.
use Prim.Native.Nat.{max}
use tori_py.Prelude.{
  ℕ, zero, suc, ◌+◌, ◌≤◌, String, ◌≡◌, refl, Option, none, some, Bool, true, List, [], ◌∷◌, ◌++◌,
  arith, leb, take, select, All, leb→le, Bool-cases, inl, inr,
}
use tori_py.Streams.Models.Records.{StoredRecord, increasing}
use tori_py.Streams.Log.{PartitionState, before, at_or_after}

-- Offsets grow by two at least, from `lo` on, and stay below `hi`.
abbrev pub Chain : ℕ → List StoredRecord → ℕ → Type 0
Chain lo [] hi = lo ≤ hi
Chain lo (r ∷ rs) hi = (lo ≤ r.offset) × Chain (r.offset + 2) rs hi

-- Timestamps never go back, from `lo` to `hi`.
abbrev pub Dated : ℕ → List StoredRecord → ℕ → Type 0
Dated lo [] hi = lo ≤ hi
Dated lo (r ∷ rs) hi = (lo ≤ r.appended_at) × Dated r.appended_at rs hi

-- The moment, or the earliest one where there is none.
abbrev pub moment_or_zero : Option ℕ → ℕ
moment_or_zero none = 0
moment_or_zero (some t) = t

abbrev pub BelongsTo : String → ℕ → StoredRecord → Type 0
BelongsTo stream partition r = (r.stream ≡ stream) × (r.partition ≡ partition)

pub record PartitionIsValid (stream : String) (partition : ℕ) (part : PartitionState) : Type 0 where
  pub chain : Chain part.earliest_offset part.records part.next_offset
  pub dated :
      Dated (moment_or_zero part.removed_through) part.records (moment_or_zero part.last_timestamp)
  pub owned : All (BelongsTo stream partition) part.records

pub Chain-le : (lo hi : ℕ) (rs : List StoredRecord) → Chain lo rs hi → lo ≤ hi
Chain-le lo hi [] h = h
Chain-le lo hi (r ∷ rs) h = omega (arith, Chain-le (r.offset + 2) hi rs h.1)

pub Chain-lower :
    (lo lo' hi : ℕ) (rs : List StoredRecord) → lo' ≤ lo → Chain lo rs hi → Chain lo' rs hi
Chain-lower lo lo' hi [] e h = omega arith
Chain-lower lo lo' hi (r ∷ rs) e h = (omega arith, h.1)

pub Chain-snoc :
    (lo : ℕ) (rs : List StoredRecord) (r : StoredRecord)
    → Chain lo rs r.offset
    → Chain lo (rs ++ r ∷ []) (r.offset + 2)
Chain-snoc lo [] r h = (h, omega arith)
Chain-snoc lo (s ∷ rs) r h = (h.0, Chain-snoc (s.offset + 2) rs r h.1)

pub Chain-raise :
    (lo hi hi' : ℕ) (rs : List StoredRecord) → hi ≤ hi' → Chain lo rs hi → Chain lo rs hi'
Chain-raise lo hi hi' [] e h = omega arith
Chain-raise lo hi hi' (r ∷ rs) e h = (h.0, Chain-raise (r.offset + 2) hi hi' rs e h.1)

pub Dated-lower :
    (lo lo' hi : ℕ) (rs : List StoredRecord) → lo' ≤ lo → Dated lo rs hi → Dated lo' rs hi
Dated-lower lo lo' hi [] e h = omega arith
Dated-lower lo lo' hi (r ∷ rs) e h = (omega arith, h.1)

pub Dated-snoc :
    (lo hi : ℕ) (rs : List StoredRecord) (r : StoredRecord)
    → Dated lo rs hi
    → hi ≤ r.appended_at
    → Dated lo (rs ++ r ∷ []) r.appended_at
Dated-snoc lo hi [] r h e = (omega arith, omega arith)
Dated-snoc lo hi (s ∷ rs) r h e = (h.0, Dated-snoc s.appended_at hi rs r h.1 e)

pub All-select {κ} :
    (P : StoredRecord → Type κ) (p : StoredRecord → Bool) (rs : List StoredRecord)
    → All P rs
    → All P (select p rs)
All-select P p [] h = tt
All-select P p (r ∷ rs) h = elim (Bool-cases (p r)) [
  | inl e ↦ rw e (h.0, All-select P p rs h.1)
  | inr e ↦ rw e (All-select P p rs h.1)
]

-- All records of a chain that starts at the boundary stay, and none is before it.
pub select-at_or_after_all :
    (b lo hi : ℕ) (rs : List StoredRecord)
    → b ≤ lo
    → Chain lo rs hi
    → select (at_or_after b) rs ≡ rs
select-at_or_after_all b lo hi [] e h = refl
select-at_or_after_all b lo hi (r ∷ rs) e h =
    ground (arith, select-at_or_after_all b (r.offset + 2) hi rs)

pub select-before_none :
    (b lo hi : ℕ) (rs : List StoredRecord) → b ≤ lo → Chain lo rs hi → select (before b) rs ≡ []
select-before_none b lo hi [] e h = refl
select-before_none b lo hi (r ∷ rs) e h = ground (arith, select-before_none b (r.offset + 2) hi rs)

-- The two halves of a cut make up the records again.
pub select-before-at_or_after :
    (b lo hi : ℕ) (rs : List StoredRecord)
    → Chain lo rs hi
    → select (before b) rs ++ select (at_or_after b) rs ≡ rs
select-before-at_or_after b lo hi [] h = refl
select-before-at_or_after b lo hi (r ∷ rs) h = ground (
  arith,
  select-before_none b (r.offset + 2) hi rs,
  select-at_or_after_all b (r.offset + 2) hi rs,
  select-before-at_or_after b (r.offset + 2) hi rs,
)

pub Chain-select :
    (b lo hi : ℕ) (rs : List StoredRecord)
    → b ≤ hi
    → Chain lo rs hi
    → Chain (max lo b) (select (at_or_after b) rs) hi
Chain-select b lo hi [] e h = omega arith
Chain-select b lo hi (r ∷ rs) e h =
    let ih = Chain-select b (r.offset + 2) hi rs e h.1 in
    elim (Bool-cases (leb b r.offset)) [
      | inl p ↦ rw p (
        omega (arith, leb→le b r.offset p),
        Chain-lower (max (r.offset + 2) b) (r.offset + 2) hi (select (at_or_after b) rs)
            (omega arith) ih,
      )
      | inr p ↦ rw p (
          Chain-lower (max (r.offset + 2) b) (max lo b) hi (select (at_or_after b) rs) (omega arith)
            ih)
    ]

-- Any stretch of a chain passes the test of `RecordPage`.
pub increasing-take :
    (n lo hi : ℕ) (rs : List StoredRecord) → Chain lo rs hi → increasing (take n rs) ≡ true
unfolding increasing
increasing-take zero lo hi rs h = refl
increasing-take (suc n) lo hi [] h = refl
increasing-take (suc zero) lo hi (r ∷ rs) h = refl
increasing-take (suc (suc n)) lo hi (r ∷ []) h = refl
increasing-take (suc (suc n)) lo hi (r ∷ s ∷ rs) h =
    ground (arith, increasing-take (suc n) (r.offset + 2) hi (s ∷ rs) h.1)
