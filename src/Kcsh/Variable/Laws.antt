-- ===== src/Kcsh/Variable/Laws.antt =====
-- lab4/variable.c: assignments and lookups.
use syssoft_labs.Prelude.{
  ◌<◌, ◌≡◌, refl, ◌⊎◌, inl, inr, Bool, true, Option, none, some, List, [], ◌∷◌, ◌++◌, arith, length,
  if◌then◌else◌, Bool-cases, Option-cases,
}
use syssoft_labs.Prelude.CString.{CString, same, same_iff}
use syssoft_labs.Kcsh.Outcome.{ok}
use syssoft_labs.Kcsh.Variable.{
  Variable, capacity, find, get_var, replace, append, set_var_force, is_reserved, set_var,
}

abbrev pub entry : CString → CString → Variable
entry n v = record { name = n; value = v }

find-replace :
    (n v m : CString) (vars vars' : List Variable)
    → replace n v vars ≡ some vars'
    → find m vars' ≡ (if same n m then some v else find m vars)
unfolding find replace
find-replace n v m [] vars' e = cc
find-replace n v m (x ∷ vars) vars' e = elim (Option-cases (replace n v vars)) [
  | inl e' ↦ ground (arith, same_iff x.name n, same_iff x.name m, same_iff n m)
  | inr (vs, e') ↦
      ground
        (arith, find-replace n v m vars vs e', same_iff x.name n, same_iff x.name m, same_iff n m)
]

find-append :
    (n v m : CString) (vars : List Variable)
    → find n vars ≡ none
    → find m (vars ++ entry n v ∷ []) ≡ (if same n m then some v else find m vars)
unfolding find
find-append n v m [] e = refl
find-append n v m (x ∷ vars) e =
    ground (arith, find-append n v m vars, same_iff x.name n, same_iff x.name m, same_iff n m)

replace-none : (n v : CString) (vars : List Variable) → replace n v vars ≡ none → find n vars ≡ none
unfolding find replace
replace-none n v [] e = refl
replace-none n v (x ∷ vars) e = ground (arith, replace-none n v vars)

module _ (granted granted' : Bool) (n v : CString) (vars vars' : List Variable)
    (e : set_var_force granted granted' n v vars ≡ ok vars') where
  -- A successful assignment replaces the entry of the name, or appends one.
  pub set_var_force_cases :
      (replace n v vars ≡ some vars')
      ⊎ ((replace n v vars ≡ none) × (vars' ≡ vars ++ entry n v ∷ []) × (length vars < capacity))
  unfolding set_var_force append
  set_var_force_cases = elim (Option-cases (replace n v vars)) [
    | inl new ↦ inr (new, ground arith, ground arith)
    | inr (vs, old) ↦ inl (ground arith)
  ]

  pub find-set_var_force : (m : CString) → find m vars' ≡ (if same n m then some v else find m vars)
  find-set_var_force m = elim set_var_force_cases [
    | inl old ↦ find-replace n v m vars vars' old
    | inr (new, at_end, _) ↦ rw at_end (find-append n v m vars (replace-none n v vars new))
  ]

  -- After an assignment that succeeds, a lookup of the assigned name gives the new value, and a
  -- lookup of any other name, in the table or in the environment, gives what it gave before.
  pub get_var-set_var_force :
      (getenv : CString → Option CString) (m : CString)
      → get_var getenv m vars' ≡ (if same n m then some v else get_var getenv m vars)
  unfolding get_var
  get_var-set_var_force getenv m = ground (arith, find-set_var_force m)

-- `set_var` never changes what a lookup of `$`, `_` or `?` gives.
pub set_var-is_reserved :
    (granted granted' : Bool) (getenv : CString → Option CString) (n v m : CString)
    (vars vars' : List Variable)
    → set_var granted granted' n v vars ≡ ok vars'
    → is_reserved m ≡ true
    → get_var getenv m vars' ≡ get_var getenv m vars
unfolding set_var
set_var-is_reserved granted granted' getenv n v m vars vars' e r =
    elim (Bool-cases (is_reserved n)) [
      | inl same_vars ↦ ground arith
      | inr free ↦ ground (
        arith,
        same_iff n m,
        get_var-set_var_force granted granted' n v vars vars' (ground arith) getenv m,
      )
    ]

-- A name that `get_var` does not know is not in the environment.
pub get_var-none :
    (getenv : CString → Option CString) (name : CString) (vars : List Variable)
    → get_var getenv name vars ≡ none
    → getenv name ≡ none
unfolding get_var
get_var-none getenv name vars e = ground (arith, e)

-- With memory granted, an assignment to a name that is in the table succeeds.
pub set_var_force-known :
    (n v w : CString) (vars : List Variable)
    → find n vars ≡ some w
    → (vars' : List Variable) × (set_var_force true true n v vars ≡ ok vars')
unfolding set_var_force
set_var_force-known n v w vars e = elim (Option-cases (replace n v vars)) [
  | inl new ↦ absurd (ground (arith, replace-none n v vars new, e))
  | inr (vars', old) ↦ (vars', ground (arith, old))
]

set_var_force-room :
    (n v : CString) (vars : List Variable)
    → length vars < capacity
    → (vars' : List Variable) × (set_var_force true true n v vars ≡ ok vars')
unfolding set_var_force append
set_var_force-room n v vars room = elim (Option-cases (replace n v vars)) [
  | inl new ↦ (vars ++ entry n v ∷ [], ground (arith, new, room))
  | inr (vars', old) ↦ (vars', ground (arith, old))
]

-- With memory granted and room in the table, an assignment succeeds, and changes the lookup of its name
-- alone, or none if the name is reserved.
pub set_var-assigns :
    (n v : CString) (vars : List Variable)
    → length vars < capacity
    → (vars' : List Variable) × (set_var true true n v vars ≡ ok vars')
      × ((getenv : CString → Option CString) (m : CString)
          → get_var getenv m vars' ≡ (
              if is_reserved n
              then get_var getenv m vars
              else if same n m
              then some v
              else get_var getenv m vars))
unfolding set_var
set_var-assigns n v vars room = elim (Bool-cases (is_reserved n)) [
  | inl r ↦ (vars, ground (arith, r), λ getenv m. ground (arith, r))
  | inr f ↦
      let (vars', e) = set_var_force-room n v vars room in
      (
        vars',
        ground (arith, f, e),
        λ getenv m. ground (arith, f, get_var-set_var_force true true n v vars vars' e getenv m),
      )
]
