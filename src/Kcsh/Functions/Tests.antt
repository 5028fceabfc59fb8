-- ===== src/Kcsh/Functions/Tests.antt =====
-- Tests and examples of Kcsh.Functions.
use syssoft_labs.Prelude.{◌≡◌, refl, true, none, some, [], ◌∷◌, ◌++◌}
use syssoft_labs.Prelude.CString.{CString, bytes}
use syssoft_labs.Prelude.Int.{pos}
use syssoft_labs.Kcsh.Outcome.{ok, fault}
use syssoft_labs.Kcsh.Variable.{Variable}
use syssoft_labs.Kcsh.Functions.{Process, Calls, k_setenv, k_cd, say_lines}

abbrev calls : Calls
calls = record {
  chdir = λ cwd name. some name;
  setenv = λ name value environ. some ((name ++ bytes "=" ++ value) ∷ environ);
  getenv = λ environ name. none;
  name_granted = true;
  value_granted = true;
}

abbrev begun : Process
begun = record { vars = []; environ = bytes "A=1" ∷ bytes "B=2" ∷ []; cwd = bytes "/"; out = [] }

-- Without arguments the first entry of the environment is left out, and an empty one is read outside.
lists_all_but_one :
    k_setenv calls (some (bytes "setenv") ∷ []) begun
    ≡ ok (pos 0, record begun { out = bytes "B=2" ++ 0x0a ∷ [] })
unfolding k_setenv say_lines
lists_all_but_one = refl

reads_outside : k_setenv calls (some (bytes "setenv") ∷ []) (record begun { environ = [] }) ≡ fault
unfolding k_setenv
reads_outside = refl

cd_without_argument : k_cd calls (some (bytes "cd") ∷ []) begun ≡ ok (pos 1, begun)
unfolding k_cd
cd_without_argument = refl
