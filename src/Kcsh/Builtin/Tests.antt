-- ===== src/Kcsh/Builtin/Tests.antt =====
-- lab4/builtin.c: runs, and the theorems at them. A function is stood for by a number.
use syssoft_labs.Prelude.{
  ℕ, ◌+◌, ◌≤◌, ◌<◌, ◌≡◌, refl, ◌⊎◌, true, some, List, [], ◌∷◌, arith, length,
}
use syssoft_labs.Prelude.CString.{bytes, same}
use syssoft_labs.Kcsh.Outcome.{ok}
use syssoft_labs.Kcsh.Builtin.{Builtin, capacity, register_builtin, builtin}
use syssoft_labs.Kcsh.Builtin.Laws.{
  entry, first_of_name, builtin-register_builtin, register_builtin_bounds,
}

abbrev one : List (Builtin ℕ)
one = entry (bytes "cd") 1 ∷ []

abbrev two : List (Builtin ℕ)
two = entry (bytes "cd") 1 ∷ entry (bytes "set") 2 ∷ []

register_set : register_builtin true (bytes "set") 2 one ≡ ok (0, two)
unfolding register_builtin
register_set = refl

find_cd : builtin (bytes "cd") two ≡ some 1
unfolding builtin same
find_cd = refl

builtin-register_builtin_instance :
    builtin (bytes "set") two
    ≡ first_of_name (builtin (bytes "set") one) (same (bytes "set") (bytes "set")) 2
builtin-register_builtin_instance =
    builtin-register_builtin true (bytes "set") (bytes "set") 2 one two register_set

register_builtin_bounds_instance :
    (length two ≤ capacity)
    × (((◌≡◌ {A = ℕ} 0 1) × (length one ≡ capacity) × (two ≡ one))
        ⊎ ((◌≡◌ {A = ℕ} 0 0) × (length one < capacity) × (length two ≡ length one + 1)))
register_builtin_bounds_instance =
    register_builtin_bounds true (bytes "set") 2 one two 0 (omega arith) register_set
