-- ===== src/Kcsh/Command/Tests.antt =====
-- Tests and examples of Kcsh.Command.
use syssoft_labs.Prelude.{
  Option, ◌≢◌, ℕ, ◌≡◌, refl, Bool, true, false, none, some, List, [], ◌∷◌, map,
}
use syssoft_labs.Prelude.CString.{bytes, same}
use syssoft_labs.Kcsh.Outcome.{out_of_fuel, Outcome, ok, fault}
use syssoft_labs.Kcsh.Command.{
  Args, Cmd, Parsed, take_args, make_cmd, is_operator, is_item, connect, redirect_out,
  redirect_into, redirect_from,
}
use syssoft_labs.Kcsh.Command.Parse.{
  make_cmdv, vector, parse, round, end_cmd, after_connect, after_out, after_from, close_cmd,
  background, skip_operators, mark_pipeline, mark_bg,
}
use syssoft_labs.Kcsh.Command.Linked.{make_cmdv-IsLinked}
use syssoft_labs.Kcsh.Command.Laws.{IsLinked}
use syssoft_labs.Kcsh.Command.Fuel.{make_cmdv_terminates}
use syssoft_labs.Kcsh.Command.Leading.{make_cmdv-is_operator}

abbrev always : ℕ → Option ℕ
always k = some 2

abbrev line : Args
line = vector (
    bytes "ls"
    ∷ bytes "-l"
    ∷ bytes "|"
    ∷ bytes "wc"
    ∷ bytes ">"
    ∷ bytes "out"
    ∷ bytes "&"
    ∷ bytes "pwd"
    ∷ [])

abbrev cmd : Args → ℕ → ℕ → Cmd
cmd argv i o = record {
  argv = argv;
  in_fd = i;
  out_fd = o;
  piped = false;
  bg = false;
  redirect = false;
  rappend = false;
  rfilename = none;
  redirect_in = false;
  rifilename = none;
}

abbrev piped_cmds : List Cmd
piped_cmds =
    record (cmd (some (bytes "ls") ∷ some (bytes "-l") ∷ []) 0 2) { piped = true; bg = true }
    ∷ record (cmd (some (bytes "wc") ∷ []) 2 1) {
      bg = true;
      redirect = true;
      rfilename = some (bytes "out");
    }
    ∷ cmd (some (bytes "pwd") ∷ []) 0 1
    ∷ []

accepts_line :
    make_cmdv always line
    ≡ ok (record { accepted = true; commands = piped_cmds; terminated = true })
unfolding make_cmdv parse round end_cmd make_cmd take_args is_operator is_item same connect
    after_connect redirect_out redirect_into after_out redirect_from after_from close_cmd background
    skip_operators mark_pipeline mark_bg
accepts_line = refl

-- Of three commands in a pipe only the last two are marked.
abbrev marked : Outcome Parsed → List Bool
marked (ok p) = map (λ c. c.bg) p.commands
marked _ = []

marks_two :
    marked (
      make_cmdv always
        (vector (bytes "a" ∷ bytes "|" ∷ bytes "b" ∷ bytes "|" ∷ bytes "c" ∷ bytes "&" ∷ [])))
    ≡ false ∷ true ∷ true ∷ []
unfolding make_cmdv parse round end_cmd make_cmd take_args is_operator is_item same connect
    after_connect redirect_out redirect_into after_out redirect_from after_from close_cmd background
    skip_operators mark_pipeline mark_bg
marks_two = refl

make_cmdv-IsLinked_example : IsLinked false piped_cmds false
make_cmdv-IsLinked_example =
    make_cmdv-IsLinked always line
      (record { accepted = true; commands = piped_cmds; terminated = true }) accepts_line refl

make_cmdv-is_operator_example : make_cmdv always (vector (bytes "&" ∷ bytes "ls" ∷ [])) ≡ fault
unfolding is_operator
make_cmdv-is_operator_example = make_cmdv-is_operator always (bytes "&") (bytes "ls" ∷ []) refl refl

make_cmdv_terminates_example : make_cmdv always line ≢ out_of_fuel
make_cmdv_terminates_example = make_cmdv_terminates always line

-- A file name in a block of the size that is asked for.
name_outside :
    redirect_into (some 0) false 2 (bytes "f") (record {
      argv = [];
      in_fd = 0;
      out_fd = 1;
      piped = false;
      bg = false;
      redirect = false;
      rappend = false;
      rfilename = none;
      redirect_in = false;
      rifilename = none;
    })
    ≡ fault
unfolding redirect_into
name_outside = refl
