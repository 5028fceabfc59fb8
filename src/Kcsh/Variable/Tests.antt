-- ===== src/Kcsh/Variable/Tests.antt =====
-- lab4/variable.c: runs, and the theorems at them.
use syssoft_labs.Prelude.{
  ◌≤◌, ◌≡◌, refl, ◌⊎◌, true, false, Option, none, some, List, [], ◌∷◌, arith, length, if◌then◌else◌,
}
use syssoft_labs.Prelude.CString.{CString, bytes, same}
use syssoft_labs.Kcsh.Outcome.{ok, exited, fault}
use syssoft_labs.Kcsh.Variable.{
  Variable, capacity, find, get_var, replace, append, set_var_force, is_reserved, set_var,
}
use syssoft_labs.Kcsh.Variable.Laws.{entry, get_var-set_var_force, set_var-is_reserved}
use syssoft_labs.Kcsh.Variable.Table.{
  IsTable, IsNew, names, set_var_force-IsTable, set_var_force_room,
}

abbrev home : CString → Option CString
home n = if same n (bytes "HOME") then some (bytes "/root") else none

-- as `goodmorning` leaves it, and one assignment later
abbrev early : List Variable
early = entry (bytes "?") (bytes "0") ∷ entry (bytes "_") [] ∷ []

abbrev later : List Variable
later = entry (bytes "?") (bytes "0") ∷ entry (bytes "_") [] ∷ entry (bytes "x") (bytes "1") ∷ []

set_x : set_var_force true true (bytes "x") (bytes "1") early ≡ ok later
unfolding set_var_force replace append same
set_x = refl

set_x_by_user : set_var true true (bytes "x") (bytes "1") early ≡ ok later
unfolding set_var is_reserved set_var_force replace append same
set_x_by_user = refl

lookups :
    (get_var home (bytes "x") later ≡ some (bytes "1"))
    × (get_var home (bytes "HOME") later ≡ some (bytes "/root"))
    × (get_var home (bytes "y") later ≡ none)
unfolding get_var find same
lookups = (refl, refl, refl)

no_memory : set_var_force true false (bytes "x") (bytes "1") early ≡ exited 2
unfolding set_var_force replace append same
no_memory = refl

get_var-set_var_force_example : get_var home (bytes "HOME") later ≡ (
    if same (bytes "x") (bytes "HOME") then some (bytes "1") else get_var home (bytes "HOME") early)
get_var-set_var_force_example =
    get_var-set_var_force true true (bytes "x") (bytes "1") early later set_x home (bytes "HOME")

set_var-is_reserved_instance : get_var home (bytes "_") later ≡ get_var home (bytes "_") early
unfolding is_reserved same
set_var-is_reserved_instance =
    set_var-is_reserved true true home (bytes "x") (bytes "1") (bytes "_") early later set_x_by_user
      refl

early-IsTable : IsTable early
unfolding same
early-IsTable = record { unique = ((refl, tt), (tt, tt)); bounded = omega arith }

set_var_force-IsTable_instance : IsTable later
set_var_force-IsTable_instance =
    set_var_force-IsTable true true (bytes "x") (bytes "1") early later set_x early-IsTable

set_var_force_room_instance :
    ((set_var_force true true (bytes "x") [] early ≡ fault)
      × (capacity ≤ length early)
      × IsNew (bytes "x") (names early))
    ⊎ ((vars' : List Variable) × (set_var_force true true (bytes "x") [] early ≡ ok vars'))
set_var_force_room_instance = set_var_force_room (bytes "x") [] early
