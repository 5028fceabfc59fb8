-- ===== src/Kcsh/Launch/Tests.antt =====
-- Tests and examples of Kcsh.Launch.
use syssoft_labs.Prelude.{ℕ, ◌≡◌, refl, Option, none, some, List, [], ◌∷◌, map}
use syssoft_labs.Prelude.CString.{bytes, same}
use syssoft_labs.Kcsh.Outcome.{Outcome, ok}
use syssoft_labs.Kcsh.Command.Examples.{always, line, a_cmd, b_cmd, accepts_line}
use syssoft_labs.Kcsh.Launch.{
  File, inherited, pipe_read, pipe_write, to_write, file_at, System, Started, Shell, take_input,
  take_output, close_pipe, redirect_to, redirect_output, redirect_input, child, child_returns,
  parent, find_builtin, run_program, fork_and_exec, run_commands, run_line,
}
use syssoft_labs.Kcsh.Builtin.{builtin}
use syssoft_labs.Prelude.Int.{pos}
use syssoft_labs.Kcsh.Launch.Examples.{system, system-IsWorking, shell, parsed, line-IsForeground}
use syssoft_labs.Kcsh.Launch.Pipeline.{IsWired, IsKept, run_line-IsWired}

run_line-IsWired_example :
    (sh' : Shell) × (ss : List Started) × (run_line system always (0, 0) line shell ≡ ok sh')
    × (sh'.started ≡ ss)
    × IsWired (inherited 0) (inherited 1) (inherited 0) 0 (a_cmd ∷ b_cmd ∷ []) ss
    × IsKept shell sh'
    × (sh'.code ≡ pos 1)
run_line-IsWired_example =
    run_line-IsWired system always (0, 0) line parsed shell (inherited 0) (inherited 1)
      system-IsWorking accepts_line refl line-IsForeground (refl, refl)

-- What the shell and its programs have at a descriptor, after the commands of the line.
abbrev at_all : ℕ → Outcome Shell → List (Option File)
at_all fd (ok sh) = file_at sh.files fd ∷ map (λ s. file_at s.files fd) sh.started
at_all fd _ = []

inputs :
    at_all 0 (run_commands system 3 0 (0, 0) (a_cmd ∷ b_cmd ∷ []) shell)
    ≡ some (inherited 0) ∷ some (inherited 0) ∷ some (pipe_read 0) ∷ []
unfolding run_commands fork_and_exec child take_input take_output close_pipe redirect_output
    redirect_to redirect_input parent find_builtin run_program builtin same
inputs = refl

outputs :
    at_all 1 (run_commands system 3 0 (0, 0) (a_cmd ∷ b_cmd ∷ []) shell)
    ≡ some (inherited 1) ∷ some (pipe_write 0) ∷ some (to_write (bytes "f")) ∷ []
unfolding run_commands fork_and_exec child take_input take_output close_pipe redirect_output
    redirect_to redirect_input parent find_builtin run_program builtin same
outputs = refl

-- The end of the pipe to read stays open in the shell and in the program that writes; only the
-- program that reads has it at 0 alone.
left_open :
    at_all 3 (run_commands system 3 0 (0, 0) (a_cmd ∷ b_cmd ∷ []) shell)
    ≡ some (pipe_read 0) ∷ some (pipe_read 0) ∷ none ∷ []
unfolding run_commands fork_and_exec child take_input take_output close_pipe redirect_output
    redirect_to redirect_input parent find_builtin run_program builtin same
left_open = refl

-- A child whose redirection fails returns into the loop of `main`, beside the shell.
abbrev full : ℕ → System
full k = record (system k) { open_file = λ files name. none }

returns_into_main :
    at_all 1 (run_commands full 3 0 (0, 0) (a_cmd ∷ b_cmd ∷ []) shell)
    ≡ some (inherited 1) ∷ some (pipe_write 0) ∷ []
unfolding run_commands fork_and_exec child take_input take_output close_pipe redirect_output
    redirect_to redirect_input child_returns parent find_builtin run_program builtin same
returns_into_main = refl
