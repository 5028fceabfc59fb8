-- ===== src/Kcsh/Command/Examples.antt =====
-- A line and its commands, for lab4/parser.c and for the parts of lab4/kcsh.c that run commands.
use syssoft_labs.Prelude.{Option, ℕ, ◌≡◌, refl, true, false, none, some, [], ◌∷◌}
use syssoft_labs.Prelude.CString.{bytes, same}
use syssoft_labs.Kcsh.Outcome.{ok}
use syssoft_labs.Kcsh.Command.{
  Args, Cmd, take_args, make_cmd, is_operator, is_item, connect, redirect_out, redirect_into,
  redirect_from,
}
use syssoft_labs.Kcsh.Command.Parse.{
  make_cmdv, vector, parse, round, end_cmd, after_connect, after_out, after_from, close_cmd,
  background, skip_operators, mark_pipeline, mark_bg,
}

abbrev pub always : ℕ → Option ℕ
always k = some 2

-- `a | b > f`
abbrev pub line : Args
line = vector (bytes "a" ∷ bytes "|" ∷ bytes "b" ∷ bytes ">" ∷ bytes "f" ∷ [])

abbrev pub a_cmd : Cmd
a_cmd = record {
  argv = some (bytes "a") ∷ [];
  in_fd = 0;
  out_fd = 2;
  piped = true;
  bg = false;
  redirect = false;
  rappend = false;
  rfilename = none;
  redirect_in = false;
  rifilename = none;
}

abbrev pub b_cmd : Cmd
b_cmd = record {
  argv = some (bytes "b") ∷ [];
  in_fd = 2;
  out_fd = 1;
  piped = false;
  bg = false;
  redirect = true;
  rappend = false;
  rfilename = some (bytes "f");
  redirect_in = false;
  rifilename = none;
}

pub accepts_line :
    make_cmdv always line
    ≡ ok (record { accepted = true; commands = a_cmd ∷ b_cmd ∷ []; terminated = true })
unfolding make_cmdv parse round end_cmd make_cmd take_args is_operator is_item same connect
    after_connect redirect_out redirect_into after_out redirect_from after_from close_cmd background
    skip_operators mark_pipeline mark_bg
accepts_line = refl
