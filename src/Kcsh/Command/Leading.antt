-- ===== src/Kcsh/Command/Leading.antt =====
-- lab4/parser.c, `make_cmdv`: a line that starts with a separator.
use syssoft_labs.Prelude.{Option, ℕ, ◌≡◌, true, List, ◌∷◌, arith}
use syssoft_labs.Prelude.CString.{CString}
use syssoft_labs.Kcsh.Outcome.{fault}
use syssoft_labs.Kcsh.Lexer.{is_granted}
use syssoft_labs.Kcsh.Command.{is_operator, take_args, make_cmd}
use syssoft_labs.Kcsh.Command.Parse.{end_cmd, round, parse, make_cmdv, vector}

-- With memory granted, `make_cmdv` writes outside the `argv` of the first command when the first
-- token of the line starts with a separator: `last` is then one below 0.
pub make_cmdv-is_operator :
    (granted : ℕ → Option ℕ) (arg : CString) (args : List CString)
    → is_granted (granted 0) ≡ true
    → is_operator arg ≡ true
    → make_cmdv granted (vector (arg ∷ args)) ≡ fault
unfolding make_cmdv parse round end_cmd make_cmd take_args
make_cmdv-is_operator granted arg args g h = ground (arith, g, h)
