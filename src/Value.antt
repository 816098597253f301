-- ===== src/Value.antt =====
-- Arguments before their validation. Python passes any object: `isinstance` is a match here.
-- A moment is counted in microseconds from `datetime.min` in UTC, so that a subtraction below zero
-- is the one that raises `OverflowError`.
use tori_py.Prelude.{ℕ, List, Bool, String}

pub data Value : Type 0 where
  nothing : Value
  boolean : Bool → Value
  int : ℕ → Value
  -- `negative n` is -(n + 1).
  negative : ℕ → Value
  text : String → Value
  binary : List ℕ → Value
  uuid : ℕ → Value
  -- An aware `datetime`.
  moment : ℕ → Value
  naive_datetime : Value
  -- `timedelta`, at least zero or below it.
  age : ℕ → Value
  negative_age : ℕ → Value
  -- An object of any other class.
  other : Value
