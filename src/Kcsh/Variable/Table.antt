-- ===== src/Kcsh/Variable/Table.antt =====
-- lab4/variable.c: what holds of the table of variables, and an assignment to a full one.
use syssoft_labs.Prelude.{
  ◌≤◌, ◌≡◌, ◌⊎◌, inl, inr, Bool, true, false, none, some, List, [], ◌∷◌, ◌++◌, arith, length,
  length-append, Option-cases,
}
use syssoft_labs.Prelude.CString.{CString, same, same_iff}
use syssoft_labs.Kcsh.Outcome.{ok, fault}
use syssoft_labs.Kcsh.Variable.{Variable, capacity, replace, append, set_var_force}
use syssoft_labs.Kcsh.Variable.Laws.{entry, set_var_force_cases}

abbrev pub names : List Variable → List CString
names [] = []
names (v ∷ vars) = v.name ∷ names vars

-- No name of the list is `n`.
abbrev pub IsNew : CString → List CString → Type 0
IsNew n [] = Unit
IsNew n (k ∷ ks) = (same k n ≡ false) × IsNew n ks

abbrev pub HasNoRepeat : List CString → Type 0
HasNoRepeat [] = Unit
HasNoRepeat (k ∷ ks) = IsNew k ks × HasNoRepeat ks

-- What holds of the table: one entry for each name, within the capacity.
pub record IsTable (vars : List Variable) : Type 0 where
  pub unique : HasNoRepeat (names vars)
  pub bounded : length vars ≤ capacity

names-replace :
    (n v : CString) (vars vars' : List Variable)
    → replace n v vars ≡ some vars'
    → (names vars' ≡ names vars) × (length vars' ≡ length vars)
unfolding replace
names-replace n v [] vars' e = cc
names-replace n v (x ∷ vars) vars' e = elim (Option-cases (replace n v vars)) [
  | inl e' ↦ (ground arith, ground arith)
  | inr (vs, e') ↦ let h = names-replace n v vars vs e' in (ground arith, ground arith)
]

replace-IsNew :
    (n v : CString) (vars : List Variable) → replace n v vars ≡ none → IsNew n (names vars)
unfolding replace
replace-IsNew n v [] e = tt
replace-IsNew n v (x ∷ vars) e = ground (arith, replace-IsNew n v vars)

IsNew-append :
    (k n v : CString) (vars : List Variable)
    → IsNew k (names vars)
    → same n k ≡ false
    → IsNew k (names (vars ++ entry n v ∷ []))
IsNew-append k n v [] f h = (h, tt)
IsNew-append k n v (x ∷ vars) f h = (f.0, IsNew-append k n v vars f.1 h)

HasNoRepeat-append :
    (n v : CString) (vars : List Variable)
    → IsNew n (names vars)
    → HasNoRepeat (names vars)
    → HasNoRepeat (names (vars ++ entry n v ∷ []))
HasNoRepeat-append n v [] f u = (tt, tt)
HasNoRepeat-append n v (x ∷ vars) f u = (
  IsNew-append x.name n v vars u.0 (ground (arith, same_iff x.name n, same_iff n x.name)),
  HasNoRepeat-append n v vars f.1 u.1,
)

-- An assignment keeps one entry for each name and stays within the capacity.
pub set_var_force-IsTable :
    (granted granted' : Bool) (n v : CString) (vars vars' : List Variable)
    → set_var_force granted granted' n v vars ≡ ok vars'
    → IsTable vars
    → IsTable vars'
set_var_force-IsTable granted granted' n v vars vars' e t =
    elim (set_var_force_cases granted granted' n v vars vars' e) [
      | inl old ↦
          let (same_names, same_length) = names-replace n v vars vars' old in
          record { unique = rw same_names t.unique; bounded = omega (arith, t.bounded) }
      | inr (new, at_end, room) ↦ record {
        unique = rw at_end (HasNoRepeat-append n v vars (replace-IsNew n v vars new) t.unique);
        bounded = rw at_end (omega (arith, length-append vars (entry n v ∷ [])));
      }
    ]

room_cases :
    (n v : CString) (vars : List Variable)
    → ((set_var_force true true n v vars ≡ fault)
        × (capacity ≤ length vars)
        × (replace n v vars ≡ none))
      ⊎ ((vars' : List Variable) × (set_var_force true true n v vars ≡ ok vars'))
unfolding set_var_force append
room_cases n v vars = ground arith

-- With memory granted, an assignment succeeds, or writes outside the array; it does the latter
-- only when the table is full and has no entry of the name.
pub set_var_force_room :
    (n v : CString) (vars : List Variable)
    → ((set_var_force true true n v vars ≡ fault) × (capacity ≤ length vars) × IsNew n (names vars))
      ⊎ ((vars' : List Variable) × (set_var_force true true n v vars ≡ ok vars'))
set_var_force_room n v vars = elim (room_cases n v vars) [
  | inl (bad, full, new) ↦ inl (bad, full, replace-IsNew n v vars new)
  | inr done ↦ inr done
]
