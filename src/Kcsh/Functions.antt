-- ===== src/Kcsh/Functions.antt =====
-- lab4/builtins_impl.c: the built-in functions, and `goodmorning` of lab4/kcsh.c, which registers them.
-- The messages of `error` and the text of `k_help` are left out.
pub mod Laws
mod Tests
use syssoft_labs.Prelude.{
  ℕ, suc, Bool, Option, none, some, List, [], ◌∷◌, ◌++◌, length, ltb, not, ◌==◌, if◌then◌else◌,
}
use syssoft_labs.Prelude.CString.{CString, bytes}
use syssoft_labs.Prelude.Int.{ℤ, pos, negsuc}
use syssoft_labs.Kcsh.Outcome.{Outcome, ok, exited, fault, ◌>>=◌, ◌>>◌, die, breg, try_alloc}
use syssoft_labs.Kcsh.Variable.{Variable, set_var, set_var_force}
use syssoft_labs.Kcsh.Builtin.{Builtin, register_builtin}
use syssoft_labs.Kcsh.Command.{Args, slot}

-- What the functions change: the variables of the shell, `environ`, the working directory, and what
-- was said.
pub record Process : Type 0 where
  pub vars : List Variable
  pub environ : List CString
  pub cwd : CString
  pub out : CString

-- What the system answers: the directory or the environment after a call that succeeds, the value of a
-- name in the environment, and the allocator.
pub record Calls : Type 0 where
  pub chdir : CString → CString → Option CString
  pub setenv : CString → CString → List CString → Option (List CString)
  pub getenv : List CString → CString → Option CString
  pub name_granted : Bool
  pub value_granted : Bool

-- `k_help`, `k_cd`, `k_set`, `k_setenv` and `k_exit`, as values of `builtin_func_t`
pub data Function : Type 0 where
  help cd set_variable set_environment exit : Function

-- `argv[i]` as a string
abbrev pub argument : Args → ℕ → Outcome CString
argument argv i = slot argv i >>= λ a. elim a [ none ↦ fault | some s ↦ ok s ]

-- `argc == 3 ? argv[2] : ""`
abbrev pub value_argument : Args → Outcome CString
value_argument argv = if length argv == 3 then argument argv 2 else ok []

abbrev pub say_line : CString → Process → Process
say_line s p = record p { out = p.out ++ s ++ 0x0a ∷ [] }

pub say_lines : List CString → Process → Process
say_lines [] p = p
say_lines (s ∷ ss) p = say_lines ss (say_line s p)

abbrev pub assignments : List Variable → List CString
assignments [] = []
assignments (v ∷ vars) = (v.name ++ bytes "=" ++ v.value) ∷ assignments vars

module _ (s : Calls) (argv : Args) (p : Process) where
  unfoldable pub k_cd : Outcome (ℤ × Process)
  k_cd =
      if not (length argv == 2)
      then ok (pos 1, p)
      else (argument argv 1 >>= λ name. elim (s.chdir p.cwd name) [
        | none ↦ ok (pos 2, p)
        | some cwd ↦ ok (pos 0, record p { cwd = cwd })
      ])

  -- `kill(getppid(), SIGTERM)` ends the shell as well.
  unfoldable pub k_exit : Outcome (ℤ × Process)
  k_exit = exited 0

  -- `for (env = environ; *++env;)` begins with the second entry.
  unfoldable pub k_setenv : Outcome (ℤ × Process)
  k_setenv =
      if ltb 3 (length argv)
      then ok (pos 1, p)
      else if length argv == 1
      then (elim p.environ [ [] ↦ fault | e ∷ es ↦ ok (pos 0, say_lines es p) ])
      else do
        name ← argument argv 1
        value ← value_argument argv
        elim (s.setenv name value p.environ) [
          | none ↦ ok (negsuc 0, p)
          | some environ ↦ ok (pos 0, record p { environ = environ })
        ]

  unfoldable pub k_set : Outcome (ℤ × Process)
  k_set = if length argv == 1 then ok (pos 0, say_lines (assignments p.vars) p) else do
    name ← argument argv 1
    value ← value_argument argv
    vars ← set_var s.name_granted s.value_granted name value p.vars
    ok (pos 0, record p { vars = vars })

  unfoldable pub k_help : Outcome (ℤ × Process)
  k_help = ok (pos 0, p)

unfoldable pub call_builtin : Calls → Function → Args → Process → Outcome (ℤ × Process)
call_builtin s help argv p = k_help s argv p
call_builtin s cd argv p = k_cd s argv p
call_builtin s set_variable argv p = k_set s argv p
call_builtin s set_environment argv p = k_setenv s argv p
call_builtin s exit argv p = k_exit s argv p

-- `register_builtin(...)` as a part of the condition in `goodmorning`
abbrev pub register_or_die :
    Bool → CString → Function → List (Builtin Function) → Outcome (List (Builtin Function))
register_or_die granted name f builtins =
    register_builtin granted name f builtins >>= λ (status, builtins').
    if status == 0 then ok builtins' else die breg

-- `setenv(name, value, 1)` with its result ignored
abbrev pub export : Calls → CString → CString → List CString → List CString
export s name value environ = elim (s.setenv name value environ) [ none ↦ environ | some e ↦ e ]

-- `granted` is what the allocator answers to `init_builtins` and to each registration.
unfoldable pub goodmorning :
    Calls
    → (init_granted granted : Bool) → (argv0 : CString) → Process
    → Outcome (List (Builtin Function) × Process)
goodmorning s init_granted granted argv0 p = do
  try_alloc init_granted
  vars ← set_var_force s.name_granted s.value_granted (bytes "?") (bytes "0") p.vars
  vars' ← set_var_force s.name_granted s.value_granted (bytes "_") [] vars
  b1 ← register_or_die granted (bytes "?") help []
  b2 ← register_or_die granted (bytes "cd") cd b1
  b3 ← register_or_die granted (bytes "set") set_variable b2
  b4 ← register_or_die granted (bytes "setenv") set_environment b3
  b5 ← register_or_die granted (bytes "exit") exit b4
  ok (
    b5,
    record p {
      vars = vars';
      environ = export s (bytes "prompt") (bytes "% ") (export s (bytes "shell") argv0 p.environ);
    },
  )
