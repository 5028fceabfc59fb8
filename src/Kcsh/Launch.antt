-- ===== src/Kcsh/Launch.antt =====
-- lab4/kcsh.c: `fork_and_exec` and the loop of `main` over the commands of a line, as what happens to
-- the table of open files. What the system answers is an argument.
pub mod Child
pub mod Pipeline
pub mod Examples
mod Tests
use syssoft_labs.Prelude.{
  ℕ, zero, suc, ◌+◌, Bool, true, false, Option, none, some, List, [], ◌∷◌, ◌++◌, length, ◌==◌, not,
  if◌then◌else◌,
}
use syssoft_labs.Prelude.CString.{CString}
use syssoft_labs.Prelude.Int.{ℤ, pos}
use syssoft_labs.Kcsh.Outcome.{
  Outcome, ok, fault, out_of_fuel, ◌>>=◌, die, ordinal, dup_failed, pipe_failed,
}
use syssoft_labs.Kcsh.Command.{Args, Cmd, Parsed}
use syssoft_labs.Kcsh.Command.Parse.{make_cmdv}
use syssoft_labs.Kcsh.Job.{Table, add_job}
use syssoft_labs.Kcsh.Builtin.{Builtin, builtin}
use syssoft_labs.Kcsh.Functions.{Function, Process, Calls, argument, call_builtin}

-- What an open descriptor stands for: one that the shell was started with, an end of the pipe of
-- command `k`, or a file that was opened to read, to write, or to append.
pub data File : Type 0 where
  inherited pipe_read pipe_write : ℕ → File
  to_read to_write to_append : CString → File

-- The table of open files: the newest entry for a descriptor counts.
abbrev pub Files : Type 0
Files = List (ℕ × Option File)

abbrev pub file_at : Files → ℕ → Option File
file_at [] fd = none
file_at ((i, f) ∷ files) fd = if fd == i then f else file_at files fd

abbrev pub put_file : Files → ℕ → Option File → Files
put_file files fd f = (fd, f) ∷ files

-- What the system answers for one command. `pipe` and `open` choose descriptors that are not in use;
-- `status` is what `waitpid` gives, an exit status, or `none` for a signal, and `calls` what the built-in
-- functions are answered.
pub record System : Type 0 where
  pub pipe : Files → Option (ℕ × ℕ)
  pub open_file : Files → CString → Option ℕ
  pub dup_granted : ℕ → Bool
  pub fork_granted : Bool
  pub exec_granted : Bool
  pub pid : ℕ
  pub status : Option ℕ
  pub calloc_granted : Bool
  pub realloc_granted : Bool
  pub junk : ℕ → ℕ
  pub calls : Calls

-- In the child, `fork_and_exec` goes on, returns with a value, or ends the process with a status.
pub data Stage : Type 0 where
  on : Files → Stage
  returns : ℤ → Files → Stage
  quits : ℕ → Stage

infixl 5 ◌then_on◌
abbrev pub ◌then_on◌ : Outcome Stage → (Files → Outcome Stage) → Outcome Stage
o then_on k = o >>= λ s. elim s [
  | on files ↦ k files
  | returns code files ↦ ok (returns code files)
  | quits code ↦ ok (quits code)
]

-- `dup2(old, new)`, where the call is number `call` of the child; it fails on a descriptor that is
-- not open.
abbrev pub dup2 : System → (call old new : ℕ) → Files → Option Files
dup2 s call old new files = elim (file_at files old) [
  | none ↦ none
  | some f ↦ if s.dup_granted call then some (put_file files new (some f)) else none
]

abbrev pub close : ℕ → Files → Files
close fd files = put_file files fd none

module _ (s : System) (pipefd : ℕ × ℕ) (c : Cmd) where
  unfoldable pub take_input : Files → Outcome Stage
  take_input files = if c.in_fd == 0 then ok (on files) else elim (dup2 s 0 c.in_fd 0 files) [
    | none ↦ ok (returns (pos 15) files)
    | some files' ↦ ok (on files')
  ]

  -- Here `error` ends the child, with the status of `E_DUP`.
  unfoldable pub take_output : Files → Outcome Stage
  take_output files = if c.out_fd == 1 then ok (on files) else elim (dup2 s 1 c.out_fd 1 files) [
    | none ↦ ok (quits (ordinal dup_failed + 1))
    | some files' ↦ ok (on files')
  ]

  unfoldable pub close_pipe : Files → Files
  close_pipe files =
      let files' = if c.in_fd == 0 then files else close pipefd.0 files in
      if c.out_fd == 1 then files' else close pipefd.1 files'

  -- `open`, `dup2` and `close` for a redirection to the descriptor `target`
  unfoldable pub redirect_to : (call target : ℕ) → CString → File → Files → Outcome Stage
  redirect_to call target name f files = elim (s.open_file files name) [
    | none ↦ ok (returns (pos 16) files)
    | some fd ↦
        let opened = put_file files fd (some f) in
        elim (dup2 s call fd target opened) [
          | none ↦ ok (returns (pos 15) opened)
          | some files' ↦ ok (on (close fd files'))
        ]
  ]

  -- A file name that is not set is read where `redirect` says that it is.
  unfoldable pub redirect_output : Files → Outcome Stage
  redirect_output files =
      if c.redirect
      then (elim c.rfilename [
        | none ↦ fault
        | some name ↦
            redirect_to 2 1 name (if c.rappend then to_append name else to_write name) files
      ])
      else ok (on files)

  unfoldable pub redirect_input : Files → Outcome Stage
  redirect_input files =
      if c.redirect_in
      then (elim c.rifilename [
        | none ↦ fault
        | some name ↦ redirect_to 3 0 name (to_read name) files
      ])
      else ok (on files)

  -- The child up to its program: `on` goes on to a built-in function or to `execvp`.
  unfoldable pub child : Files → Outcome Stage
  child files =
      (take_input files then_on take_output)
      then_on (λ f. redirect_output (close_pipe f))
      then_on redirect_input

-- A program that was started, and the files that it has.
pub record Started : Type 0 where
  pub argv : Args
  pub files : Files

-- The shell that goes on: the parent, or a child whose `fork_and_exec` has returned, while the parent
-- waits for it; beside a background command the parent goes on. `code` is the value returned.
pub record Shell : Type 0 where
  pub files : Files
  pub jobs : Table
  pub builtins : List (Builtin Function)
  pub process : Process
  pub started : List Started
  pub code : ℤ

abbrev pub start_program : Cmd → Files → Shell → Shell
start_program c files sh = record sh {
  started = sh.started ++ record { argv = c.argv; files = files } ∷ [];
}

-- The parent: a background command is a new job, and another is waited for.
unfoldable pub parent : System → (status : Option ℕ) → Cmd → Shell → Outcome Shell
parent s status c sh =
    if c.bg
    then (add_job s.calloc_granted s.realloc_granted s.junk s.pid sh.jobs >>= λ (id, jobs).
        ok (record sh { jobs = jobs; code = pos 0 }))
    else ok (record sh { code = elim status [ none ↦ pos 0 | some code ↦ pos code ] })

-- The child has returned from `fork_and_exec`.
unfoldable pub child_returns : System → ℤ → Files → Process → Cmd → Shell → Outcome Shell
child_returns s code files process c sh =
    if c.bg
    then parent s none c sh
    else ok (record sh { files = files; process = process; code = code })

-- `builtin(command->argv[0])`
unfoldable pub find_builtin : Cmd → Shell → Outcome (Option Function)
find_builtin c sh = argument c.argv 0 >>= λ name. ok (builtin name sh.builtins)

-- The child with its files in place: a built-in function or a program.
unfoldable pub run_program : System → Option Function → Files → Cmd → Shell → Outcome Shell
run_program s none files c sh =
    if s.exec_granted
    then parent s s.status c (start_program c files sh)
    else child_returns s (pos 14) files sh.process c sh
run_program s (some f) files c sh = call_builtin s.calls f c.argv sh.process >>= λ (code, process).
    child_returns s code files process c sh

unfoldable pub fork_and_exec : System → (pipefd : ℕ × ℕ) → Cmd → Shell → Outcome Shell
fork_and_exec s pipefd c sh =
    if length c.argv == 0
    then ok (record sh { code = pos 0 })
    else if s.fork_granted
    then (find_builtin c sh >>= λ bt. child s pipefd c sh.files >>= λ r. elim r [
      | returns code files ↦ child_returns s code files sh.process c sh
      | quits code ↦ parent s (some code) c sh
      | on files ↦ run_program s bt files c sh
    ])
    else ok (record sh { code = pos 13 })

-- `commands[i+1]->in = fd`
abbrev pub feed : ℕ → List Cmd → List Cmd
feed fd [] = []
feed fd (c ∷ cs) = record c { in_fd = fd } ∷ cs

-- The loop of `main` over the commands, from command `k` on; `pipefd` is that of the last pipe.
unfoldable pub run_commands :
    (sys : ℕ → System) (rounds k : ℕ) (pipefd : ℕ × ℕ) → List Cmd → Shell → Outcome Shell
run_commands sys zero k pipefd cs sh = out_of_fuel
run_commands sys (suc n) k pipefd [] sh = ok sh
run_commands sys (suc n) k pipefd (c ∷ cs) sh =
    if c.out_fd == 1
    then (fork_and_exec (sys k) pipefd c sh >>= λ sh'. run_commands sys n (k + 1) pipefd cs sh')
    else (elim ((sys k).pipe sh.files) [
      | none ↦ die pipe_failed
      | some (r, w) ↦
          let piped = put_file (put_file sh.files r (some (pipe_read k))) w (some (pipe_write k)) in
          fork_and_exec (sys k) (r, w) (record c { out_fd = w }) (record sh { files = piped })
          >>= λ sh'.
              run_commands sys n (k + 1) (r, w) (feed r cs)
                (record sh' { files = close w sh'.files })
    ])

-- The part of the loop of `main` between `make_cmdv` and the variables: a line that is not accepted
-- changes nothing. The commands are freed or run up to a NULL.
unfoldable pub run_line :
    (sys : ℕ → System) (granted : ℕ → Option ℕ) (pipefd : ℕ × ℕ) → Args → Shell → Outcome Shell
run_line sys granted pipefd args sh = make_cmdv granted args >>= λ p.
    if not p.terminated
    then fault
    else if p.accepted
    then run_commands sys (length p.commands + 1) 0 pipefd p.commands (record sh { code = pos 0 })
    else ok sh
