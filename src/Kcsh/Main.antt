-- ===== src/Kcsh/Main.antt =====
-- lab4/kcsh.c: one round of the loop of `main`, from the line that `get_line` returns to the variables
-- `?` and `_`.
pub mod Round
mod Tests
use syssoft_labs.Prelude.{ℕ, Bool, true, false, Option, none, some, List, if◌then◌else◌}
use syssoft_labs.Prelude.CString.{CString, bytes}
use syssoft_labs.Kcsh.Outcome.{Outcome, ok, ◌>>=◌}
use syssoft_labs.Kcsh.Job.{Table, get_job_id, delete_job_by_pid}
use syssoft_labs.Kcsh.Number.{errc_to_a}
use syssoft_labs.Kcsh.Variable.{Variable, set_var_force}
use syssoft_labs.Kcsh.Editor.{string_from}
use syssoft_labs.Kcsh.Command.Parse.{make_cmdv, vector}
use syssoft_labs.Kcsh.Functions.{Calls}
use syssoft_labs.Kcsh.Launch.{System, Shell, run_line}
use syssoft_labs.Kcsh.Unfold.{get_splitted}

-- What the allocator and the system answer in one round; `dead_child` is what `waitpid` gives without
-- waiting, `slack` and `junk` are those of Kcsh.Unfold.
pub record Answers : Type 0 where
  pub dead_child : Option ℕ
  pub subs_granted : ℕ → Bool
  pub buf_granted : ℕ → Bool
  pub slack : ℕ
  pub junk : ℕ → ℕ
  pub vec_granted : Bool
  pub token_granted : ℕ → Option ℕ
  pub cmd_granted : ℕ → Option ℕ
  pub system : ℕ → System
  pub pipefd : ℕ × ℕ
  pub err_granted : Bool
  pub calls : Calls

-- A background job that has ended is taken out of the table.
unfoldable pub reap : Option ℕ → Shell → Outcome Shell
reap none sh = ok sh
reap (some pid) sh = do
  id ← get_job_id pid sh.jobs
  jobs ← delete_job_by_pid pid sh.jobs
  ok (record sh { jobs = jobs })

-- `set_var_force("?", err)` and `set_var_force("_", line)`
unfoldable pub set_results :
    Answers → (err line : CString) → List Variable → Outcome (List Variable)
set_results a err line vars =
    set_var_force a.calls.name_granted a.calls.value_granted (bytes "?") err vars
    >>= set_var_force a.calls.name_granted a.calls.value_granted (bytes "_") line

-- The end of a round, behind the commands.
unfoldable pub finish : Answers → (accepted : Bool) → (line : ℕ → ℕ) → Shell → Outcome Shell
finish a false line sh = ok sh
finish a true line sh = do
  err ← errc_to_a a.err_granted sh.code
  text ← string_from 0 line
  vars ← set_results a err text sh.process.vars
  ok (record sh { process = record sh.process { vars = vars } })

-- The line is the block that `get_line` returns. A line that is not accepted leaves the variables.
unfoldable pub main_round : Answers → (line : ℕ → ℕ) → Shell → Outcome Shell
main_round a line sh = do
  sh1 ← reap a.dead_child sh
  let getenv = a.calls.getenv sh1.process.environ
  (line', tokens) ←
      get_splitted getenv sh1.process.vars a.subs_granted a.buf_granted a.slack a.junk a.vec_granted
        a.token_granted line
  p ← make_cmdv a.cmd_granted (vector tokens)
  sh2 ← run_line a.system a.cmd_granted a.pipefd (vector tokens) sh1
  finish a p.accepted line' sh2
