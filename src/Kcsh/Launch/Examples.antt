-- ===== src/Kcsh/Launch/Examples.antt =====
-- A system that grants every call and a shell, for lab4/kcsh.c.
use syssoft_labs.Prelude.{
  ℕ, ◌+◌, ◌≤◌, ◌≡◌, refl, true, none, some, [], ◌∷◌, arith, ltb, if◌then◌else◌, All,
}
use syssoft_labs.Prelude.CString.{bytes, same}
use syssoft_labs.Prelude.Int.{pos}
use syssoft_labs.Kcsh.Builtin.{builtin}
use syssoft_labs.Kcsh.Functions.{cd}
use syssoft_labs.Kcsh.Command.{Parsed}
use syssoft_labs.Kcsh.Command.Examples.{a_cmd, b_cmd}
use syssoft_labs.Kcsh.Job.{start}
use syssoft_labs.Kcsh.Launch.{inherited, Files, file_at, System, Shell}
use syssoft_labs.Kcsh.Launch.Child.{IsWorking}
use syssoft_labs.Kcsh.Launch.Pipeline.{IsForeground}

-- a descriptor above all that were in use
abbrev pub next : Files → ℕ
next [] = 0
next ((i, f) ∷ files) = if ltb i (next files) then next files else i + 1

pub next_unused : (files : Files) (fd : ℕ) → next files ≤ fd → file_at files fd ≡ none
next_unused [] fd m = refl
next_unused ((i, f) ∷ files) fd m = ground (arith, m, next_unused files fd)

abbrev pub system : ℕ → System
system k = record {
  pipe = λ files. some (next files, next files + 1);
  open_file = λ files name. some (next files);
  dup_granted = λ call. true;
  fork_granted = true;
  exec_granted = true;
  pid = 100 + k;
  status = some k;
  calloc_granted = true;
  realloc_granted = true;
  junk = λ i. 0;
  calls = record {
    chdir = λ cwd name. some name;
    setenv = λ name value environ. some environ;
    getenv = λ environ name. none;
    name_granted = true;
    value_granted = true;
  };
}

pub system-IsWorking : (k : ℕ) → IsWorking (system k)
system-IsWorking k = record {
  dups = λ call. refl;
  forks = refl;
  execs = refl;
  opens = λ files name. (next files, refl, next_unused files (next files) (omega arith));
  pipes = λ files. (
    next files,
    next files + 1,
    refl,
    next_unused files (next files) (omega arith),
    next_unused files (next files + 1) (omega arith),
    omega arith,
  );
}

abbrev pub shell : Shell
shell = record {
  files = (0, some (inherited 0)) ∷ (1, some (inherited 1)) ∷ (2, some (inherited 2)) ∷ [];
  jobs = start;
  builtins = record { name = bytes "cd"; command = cd } ∷ [];
  process = record { vars = []; environ = []; cwd = bytes "/"; out = [] };
  started = [];
  code = pos 0;
}

abbrev pub parsed : Parsed
parsed = record { accepted = true; commands = a_cmd ∷ b_cmd ∷ []; terminated = true }

pub line-IsForeground : All (IsForeground shell.builtins) (a_cmd ∷ b_cmd ∷ [])
unfolding builtin same
line-IsForeground = (
  ((bytes "a", refl, refl), refl, (λ e. ground (arith, e), λ e. ground (arith, e))),
  (((bytes "b", refl, refl), refl, (λ _ e. ground (arith, e), λ e. ground (arith, e))), tt),
)
