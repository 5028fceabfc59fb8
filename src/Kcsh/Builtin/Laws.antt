-- ===== src/Kcsh/Builtin/Laws.antt =====
-- lab4/builtin.c: registration and lookup.
use syssoft_labs.Prelude.{
  ℕ, ◌+◌, ◌≤◌, ◌<◌, ◌≡◌, refl, ◌⊎◌, Bool, Option, none, some, List, [], ◌∷◌, ◌++◌, arith, length,
  length-append, if◌then◌else◌,
}
use syssoft_labs.Prelude.CString.{CString, same}
use syssoft_labs.Kcsh.Outcome.{ok}
use syssoft_labs.Kcsh.Builtin.{Builtin, capacity, register_builtin, builtin}

module _ {F : Type 0} where
  abbrev pub entry : CString → F → Builtin F
  entry n f = record { name = n; command = f }

  -- What a lookup gives once `f` is registered under `n` behind the entries so far.
  abbrev pub first_of_name : Option F → Bool → F → Option F
  first_of_name (some g) same_name f = some g
  first_of_name none same_name f = if same_name then some f else none

  builtin-append :
      (m n : CString) (f : F) (bs : List (Builtin F))
      → builtin m (bs ++ entry n f ∷ []) ≡ first_of_name (builtin m bs) (same n m) f
  unfolding builtin
  builtin-append m n f [] = refl
  builtin-append m n f (b ∷ bs) = ground (arith, builtin-append m n f bs)

  -- A registration that answers 0 makes the function known under its name, unless the name was
  -- known already: then the earlier function stays. No other lookup changes.
  pub builtin-register_builtin :
      (granted : Bool) (n m : CString) (f : F) (bs bs' : List (Builtin F))
      → register_builtin granted n f bs ≡ ok (0, bs')
      → builtin m bs' ≡ first_of_name (builtin m bs) (same n m) f
  unfolding register_builtin
  builtin-register_builtin granted n m f bs bs' e = ground (arith, builtin-append m n f bs)

  -- A registration that returns keeps the registry within its capacity; the status is 1 exactly
  -- when it was full, and then nothing changes, and otherwise there is one entry more.
  pub register_builtin_bounds :
      (granted : Bool) (n : CString) (f : F) (bs bs' : List (Builtin F)) (status : ℕ)
      → length bs ≤ capacity
      → register_builtin granted n f bs ≡ ok (status, bs')
      → (length bs' ≤ capacity)
        × (((status ≡ 1) × (length bs ≡ capacity) × (bs' ≡ bs))
            ⊎ ((status ≡ 0) × (length bs < capacity) × (length bs' ≡ length bs + 1)))
  unfolding register_builtin
  register_builtin_bounds granted n f bs bs' status h e =
      ground (arith, length-append bs (entry n f ∷ []))
