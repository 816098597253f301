-- ===== src/Streams/Models.antt =====
-- models.py of packages/tori-py-persistent-streams-core/src/tori_py_persistent_streams_core: the
-- validated values. Each `__post_init__` is a function from unvalidated arguments.
pub mod Limits
pub mod Requests
pub mod Records
pub mod Positions
use Prim.Native.String.{count}
use tori_py.Prelude.{
  ℕ, zero, suc, ◌≤◌, ◌<◌, String, ◌≡◌, ◌≢◌, List, [], ◌∷◌, arith, ltb, ◌==◌, if◌then◌else◌, ok, err,
  Bool, true, false, string_eq, refl,
}
use tori_py.Value.{Value, int, text, binary, uuid, moment}
use tori_py.Streams.Errors.{Fallible, validation, resource_limit}

unfoldable pub positive : Value → Fallible ℕ
positive (int (suc n)) = ok (suc n)
positive _ = err validation

unfoldable pub offset : Value → Fallible ℕ
offset (int n) = ok n
offset _ = err validation

unfoldable pub name : Value → ℕ → Fallible String
name (text s) limit =
    if s == "" then err validation else if ltb limit (count s) then err resource_limit else ok s
name _ limit = err validation

unfoldable pub aware : Value → Fallible ℕ
aware (moment t) = ok t
aware _ = err validation

unfoldable pub bytes : Value → Fallible (List ℕ)
bytes (binary b) = ok b
bytes _ = err validation

-- `isinstance(value, UUID)`
unfoldable pub uuid_value : Value → Fallible ℕ
uuid_value (uuid u) = ok u
uuid_value _ = err validation

-- `isinstance(value, str) and value`
unfoldable pub non_empty : Value → Fallible String
non_empty (text s) = if s == "" then err validation else ok s
non_empty _ = err validation

abbrev pub is_empty {ℓ} : {A : Type ℓ} → List A → Bool
is_empty [] = true
is_empty (x ∷ xs) = false
