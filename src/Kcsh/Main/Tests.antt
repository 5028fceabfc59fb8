-- ===== src/Kcsh/Main/Tests.antt =====
-- Tests and examples of Kcsh.Main.
use syssoft_labs.Prelude.{ℕ, ◌≡◌, refl, true, none, some, List, [], ◌∷◌, arith}
use syssoft_labs.Prelude.CString.{CString, bytes, byte_at, same}
use syssoft_labs.Kcsh.Outcome.{ok}
use syssoft_labs.Kcsh.Number.Decimal.{IsNumeral}
use syssoft_labs.Kcsh.Variable.{find}
use syssoft_labs.Kcsh.Lexer.{skip_spaces, word, get_arg, put, next_arg, split, split_args}
use syssoft_labs.Kcsh.Command.Examples.{always, a_cmd, b_cmd, accepts_line}
use syssoft_labs.Kcsh.Launch.{inherited, Shell, Started}
use syssoft_labs.Kcsh.Launch.Pipeline.{IsWired}
use syssoft_labs.Kcsh.Launch.Examples.{system, system-IsWorking, shell, parsed, line-IsForeground}
use syssoft_labs.Kcsh.Main.{Answers, main_round}
use syssoft_labs.Kcsh.Main.Round.{IsRecorded, main_round_lem}

abbrev answers : Answers
answers = record {
  dead_child = none;
  subs_granted = λ _. true;
  buf_granted = λ _. true;
  slack = 0;
  junk = λ i. 0;
  vec_granted = true;
  token_granted = λ _. some 1;
  cmd_granted = always;
  system = system;
  pipefd = (0, 0);
  err_granted = true;
  calls = (system 0).calls;
}

abbrev text : CString
text = bytes "a | b >f"

abbrev block : ℕ → ℕ
block i = byte_at text i

-- The shell as `goodmorning` leaves its variables.
abbrev ready : Shell
ready = record shell {
  process = record shell.process {
    vars =
        record { name = bytes "?"; value = bytes "0" }
        ∷ record { name = bytes "_"; value = [] }
        ∷ [];
  };
}

tokens_split :
    split_args true (λ _. some 1) text
    ≡ ok (bytes "a" ∷ bytes "|" ∷ bytes "b" ∷ bytes ">" ∷ bytes "f" ∷ [])
unfolding split_args split next_arg put get_arg word skip_spaces
tokens_split = refl

main_round_lem_example :
    (sh' : Shell) × (ss : List Started) × (err : CString) × (main_round answers block ready
      ≡ ok sh')
    × (sh'.started ≡ ss)
    × IsWired (inherited 0) (inherited 1) (inherited 0) 0 (a_cmd ∷ b_cmd ∷ []) ss
    × IsNumeral 1 err
    × IsRecorded err text ready.process.vars sh'.process.vars
unfolding find same
main_round_lem_example =
    main_round_lem answers text block
      (bytes "a" ∷ bytes "|" ∷ bytes "b" ∷ bytes ">" ∷ bytes "f" ∷ []) parsed ready (inherited 0)
      (inherited 1) 1 (bytes "0") [] (refl, refl, refl) refl refl system-IsWorking (ground arith)
      (ground arith) (omega arith) tokens_split accepts_line refl line-IsForeground (refl, refl)
      refl (omega arith) refl refl
