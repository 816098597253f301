-- ===== src/Streams/Routing.antt =====
-- routing.py: partition routers. `sha256` is hashlib's, a parameter.
pub mod Bounds
use mathlib.Core.List.{foldl}
use tori_py.Prelude.{ℕ, ◌+◌, ◌*◌, ◌%◌, String, List, [], ◌∷◌, ok, err, ◌>>=◌}
use tori_py.Value.{Value, int, text}
use tori_py.Streams.Errors.{Fallible, validation}
use tori_py.Streams.Models.{positive}

-- What `PartitionRouter` promises: it may answer with anything, or raise.
pub record PartitionRouter : Type 0 where
  pub identity : Value
  pub compatibility_key : List String
  pub route : List ℕ → ℕ → Fallible Value

-- `int.from_bytes(digest, "big")`
unfoldable pub from_bytes : List ℕ → ℕ
from_bytes = foldl (λ n b. n * 256 + b) 0

module _ (sha256 : List ℕ → List ℕ) where
  unfoldable pub route : List ℕ → Value → Fallible ℕ
  unfolding positive from_bytes
  route [] count = err validation
  route (b ∷ key) count = do n ← positive count; ok (from_bytes (sha256 (b ∷ key)) % n)

  abbrev pub sha256_router : PartitionRouter
  sha256_router = record {
    identity = text "sha256-v1";
    compatibility_key = "sha256-v1" ∷ [];
    route = λ key count. (do p ← route key (int count); ok (int p));
  }
