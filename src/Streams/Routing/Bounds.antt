-- ===== src/Streams/Routing/Bounds.antt =====
-- The partition that the SHA-256 router chooses.
use native.Mathlib.Nat.{mod-lt}
use tori_py.Prelude.{ℕ, zero, suc, ◌%◌, ◌<◌, ◌≡◌, refl, List, ◌∷◌, ok, arith}
use tori_py.Value.{int}
use tori_py.Streams.Routing.{route, from_bytes}

-- For a key that is not empty and a positive partition count, the router answers with a partition
-- that is in range, whatever the digest is.
pub route-in_range :
    (sha256 : List ℕ → List ℕ) (b : ℕ) (key : List ℕ) (count : ℕ)
    → 0 < count
    → (p : ℕ) × (route sha256 (b ∷ key) (int count) ≡ ok p) × (p < count)
unfolding route
route-in_range sha256 b key zero h = absurd (omega arith)
route-in_range sha256 b key (suc n) h =
    (from_bytes (sha256 (b ∷ key)) % suc n, refl, mod-lt (from_bytes (sha256 (b ∷ key))) h)
