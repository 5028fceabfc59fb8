-- ===== src/Kcsh/Builtin.antt =====
-- lab4/builtin.c: the registry of built-in functions, `BUILTINS_CAPACITY` entries at most.
pub mod Laws
mod Tests
use syssoft_labs.Prelude.{
  ℕ, Bool, Option, none, some, List, [], ◌∷◌, ◌++◌, length, ◌==◌, if◌then◌else◌,
}
use syssoft_labs.Prelude.CString.{CString, same}
use syssoft_labs.Kcsh.Outcome.{Outcome, ok, ◌>>◌, try_alloc}

-- `struct builtin`; the entries in use are a list, and `builtins_count` is its length.
pub record Builtin (F : Type 0) : Type 0 where
  pub name : CString
  pub command : F

abbrev pub capacity : ℕ
capacity = 128

module _ {F : Type 0} where
  -- The status is 1 if the registry is full.
  pub register_builtin :
      (granted : Bool) → CString → F → List (Builtin F) → Outcome (ℕ × List (Builtin F))
  register_builtin granted name f builtins =
      if length builtins == capacity
      then ok (1, builtins)
      else (do try_alloc granted; ok (0, builtins ++ record { name = name; command = f } ∷ []))

  unfoldable pub builtin : CString → List (Builtin F) → Option F
  builtin name [] = none
  builtin name (b ∷ builtins) = if same b.name name then some b.command else builtin name builtins
