-- ===== src/Streams/Models/Positions.antt =====
-- Start positions, cursors, keys, owners and subscriptions of models.py.
use tori_py.Prelude.{
  ℕ, String, Bool, ◌&&◌, ok, err, ◌>>=◌, ◌≡◌, ◌↔◌, Eq, ◌==◌, string_eq, nat_eq, arith, true, false,
}
use tori_py.Value.{Value, age}
use tori_py.Streams.Errors.{
  Fallible, validation, CursorKind, initialized, last_successful, ResumeCursor,
}
use tori_py.Streams.Models.{offset, positive, non_empty, aware}

pub data StartPosition : Type 0 where
  beginning : StartPosition
  end : StartPosition
  exact_offset : ℕ → StartPosition
  timestamp : ℕ → StartPosition
  relative_time : ℕ → StartPosition

unfoldable pub make_exact_offset : Value → Fallible StartPosition
unfolding offset
make_exact_offset v = do n ← offset v; ok (exact_offset n)

unfoldable pub make_timestamp : Value → Fallible StartPosition
unfolding aware
make_timestamp v = do t ← aware v; ok (timestamp t)

unfoldable pub make_relative_time : Value → Fallible StartPosition
make_relative_time (age a) = ok (relative_time a)
make_relative_time _ = err validation

pub record StartModeCapabilities : Type 0 where
  pub beginning : Bool
  pub end : Bool
  pub exact_offset : Bool
  pub timestamp : Bool
  pub relative_time : Bool

unfoldable pub supports : StartModeCapabilities → StartPosition → Bool
supports c beginning = c.beginning
supports c end = c.end
supports c (exact_offset n) = c.exact_offset
supports c (timestamp t) = c.timestamp
supports c (relative_time a) = c.relative_time

abbrev pub kind_beq : CursorKind → CursorKind → Bool
kind_beq initialized initialized = true
kind_beq last_successful last_successful = true
kind_beq _ _ = false

pub kind_beq_iff : (a b : CursorKind) → (kind_beq a b ≡ true) ↔ (a ≡ b)
kind_beq_iff a b = (λ h. ground arith, λ h. ground arith)

abbrev pub cursor_beq : ResumeCursor → ResumeCursor → Bool
cursor_beq a b = kind_beq a.kind b.kind && a.offset == b.offset

pub cursor_beq_iff : (a b : ResumeCursor) → (cursor_beq a b ≡ true) ↔ (a ≡ b)
cursor_beq_iff a b = (λ h. ground arith, λ h. ground arith)

instance abbrev pub cursor_eq : Eq ResumeCursor
cursor_eq = record { beq = cursor_beq; beq_iff = cursor_beq_iff }

-- `ResumeCursor.initialized` and `ResumeCursor.last_successful`
abbrev pub cursor_at : CursorKind → ℕ → ResumeCursor
cursor_at k n = record { kind = k; offset = n }

pub record CheckpointKey : Type 0 where
  pub stream : String
  pub group : String
  pub partition : ℕ

unfoldable pub checkpoint_key : Value → Value → Value → Fallible CheckpointKey
unfolding non_empty offset
checkpoint_key stream group partition = do
  s ← non_empty stream
  g ← non_empty group
  p ← offset partition
  ok (record { stream = s; group = g; partition = p })

abbrev pub key_beq : CheckpointKey → CheckpointKey → Bool
key_beq a b = a.stream == b.stream && a.group == b.group && a.partition == b.partition

pub key_beq_iff : (a b : CheckpointKey) → (key_beq a b ≡ true) ↔ (a ≡ b)
key_beq_iff a b = (
  λ h. ground (arith, string_eq.beq_iff a.stream b.stream, string_eq.beq_iff a.group b.group),
  λ h. ground (arith, string_eq.beq_iff a.stream b.stream, string_eq.beq_iff a.group b.group),
)

instance abbrev pub key_eq : Eq CheckpointKey
key_eq = record { beq = key_beq; beq_iff = key_beq_iff }

pub record OwnershipToken : Type 0 where
  pub owner_id : String
  pub generation : ℕ

unfoldable pub ownership_token : Value → Value → Fallible OwnershipToken
unfolding non_empty positive
ownership_token owner_id generation = do
  o ← non_empty owner_id
  g ← positive generation
  ok (record { owner_id = o; generation = g })

abbrev pub token_beq : OwnershipToken → OwnershipToken → Bool
token_beq a b = a.owner_id == b.owner_id && a.generation == b.generation

pub token_beq_iff : (a b : OwnershipToken) → (token_beq a b ≡ true) ↔ (a ≡ b)
token_beq_iff a b = (
  λ h. ground (arith, string_eq.beq_iff a.owner_id b.owner_id),
  λ h. ground (arith, string_eq.beq_iff a.owner_id b.owner_id),
)

instance abbrev pub token_eq : Eq OwnershipToken
token_eq = record { beq = token_beq; beq_iff = token_beq_iff }

pub record Subscription : Type 0 where
  pub stream : String
  pub group : String
  pub owner_id : String
  pub start : StartPosition

unfoldable pub subscription : Value → Value → Value → StartPosition → Fallible Subscription
unfolding non_empty
subscription stream group owner_id start = do
  s ← non_empty stream
  g ← non_empty group
  o ← non_empty owner_id
  ok (record { stream = s; group = g; owner_id = o; start = start })
