-- ===== src/Kcsh/Variable.antt =====
-- lab4/variable.c: the shell's internal variables, a table of `VARIABLES_CAPACITY` entries. The
-- entries in use are a list, in the order of the table, and `vars_count` is its length.
pub mod Laws
pub mod Table
mod Tests
use syssoft_labs.Prelude.{
  ℕ, Bool, Option, none, some, List, [], ◌∷◌, ◌++◌, length, ltb, if◌then◌else◌,
}
use syssoft_labs.Prelude.CString.{CString, bytes, same}
use syssoft_labs.Kcsh.Outcome.{Outcome, ok, fault, ◌>>◌, try_alloc}

-- `struct variable`
pub record Variable : Type 0 where
  pub name : CString
  pub value : CString

abbrev pub capacity : ℕ
capacity = 1024

abbrev pub get_vars : List Variable → List Variable
get_vars vars = vars

abbrev pub get_vars_count : List Variable → ℕ
get_vars_count vars = length vars

-- the loop of `get_var`
unfoldable pub find : CString → List Variable → Option CString
find name [] = none
find name (v ∷ vars) = if same v.name name then some v.value else find name vars

-- `getenv` is the environment's lookup.
unfoldable pub get_var :
    (getenv : CString → Option CString) → CString → List Variable → Option CString
get_var getenv name vars = elim (find name vars) [ some value ↦ some value | none ↦ getenv name ]

-- the loop of `set_var_force`: `none` if no entry has the name
pub replace : CString → CString → List Variable → Option (List Variable)
replace name value [] = none
replace name value (v ∷ vars) =
    let rest = replace name value vars in
    if same v.name name
    then some (record v { value = value } ∷ vars)
    else elim rest [ none ↦ none | some vars' ↦ some (v ∷ vars') ]

-- `vars[vars_count]` is outside the array when the table is full. Each `granted` is the answer of
-- the allocator to one of the function's requests.
pub append :
    (name_granted value_granted : Bool)
    → CString
    → CString
    → List Variable
    → Outcome (List Variable)
append name_granted value_granted name value vars =
    if ltb (length vars) capacity
    then (do
      try_alloc name_granted
      try_alloc value_granted
      ok (vars ++ record { name = name; value = value } ∷ []))
    else fault

pub set_var_force :
    (name_granted value_granted : Bool)
    → CString
    → CString
    → List Variable
    → Outcome (List Variable)
set_var_force name_granted value_granted name value vars = elim (replace name value vars) [
  | some vars' ↦ do try_alloc value_granted; ok vars'
  | none ↦ append name_granted value_granted name value vars
]

-- The names that only the shell sets.
unfoldable pub is_reserved : CString → Bool
is_reserved name =
    if same name (bytes "$")
    then Bool.true
    else if same name (bytes "_")
    then Bool.true
    else same name (bytes "?")

pub set_var :
    (name_granted value_granted : Bool)
    → CString
    → CString
    → List Variable
    → Outcome (List Variable)
set_var name_granted value_granted name value vars =
    if is_reserved name then ok vars else set_var_force name_granted value_granted name value vars
