-- ===== src/Kcsh/Unfold/Tokens.antt =====
-- lab4/parser.c: `get_splitted` of a line without a dollar sign, against a description of its tokens.
use syssoft_labs.Prelude.{ℕ, ◌<◌, ◌≡◌, ◌≢◌, refl, ap, ◌∙◌, Bool, true, Option, List, length, All}
use syssoft_labs.Prelude.CString.{CString}
use syssoft_labs.Kcsh.Outcome.{Outcome, ok, ◌>>=◌}
use syssoft_labs.Kcsh.Editor.{line_size}
use syssoft_labs.Kcsh.Variable.{Variable}
use syssoft_labs.Kcsh.Lexer.{args_size, split_args}
use syssoft_labs.Kcsh.Lexer.Laws.{IsToken}
use syssoft_labs.Kcsh.Lexer.Split.{all_granted}
use syssoft_labs.Kcsh.Lexer.Spelling.{spelled, split_args-spelled}
use syssoft_labs.Kcsh.Unfold.{get_splitted}
use syssoft_labs.Kcsh.Unfold.Write.{Spells}
use syssoft_labs.Kcsh.Unfold.Line.{get_splitted-plain}

module _ (getenv : CString → Option CString) (vars : List Variable) (sg bg : ℕ → Bool) (slack : ℕ)
    (junk : ℕ → ℕ) where
  split_case :
      (text : CString) (line : ℕ → ℕ) (o : Outcome (List CString))
      → Spells 0 text line
      → All (λ c. c ≢ b'$') text
      → length text < line_size
      → split_args true all_granted text ≡ o
      → get_splitted getenv vars sg bg slack junk true all_granted line
        ≡ (o >>= λ args. ok (line, args))
  split_case text line o s h l e =
      get_splitted-plain getenv vars sg bg slack junk true all_granted text line s h l refl
      ∙ ap (λ r. r >>= λ args. ok (line, args)) e

  -- For fewer than `ARGS_SIZE` tokens without a dollar sign, written out with a space behind each into
  -- the block of the line, with memory granted and a byte more in each block of `get_arg` than it asks
  -- for: `get_splitted` gives these tokens back.
  pub get_splitted-spelled :
      (ts : List CString) (line : ℕ → ℕ)
      → Spells 0 (spelled ts) line
      → All (λ c. c ≢ b'$') (spelled ts)
      → length (spelled ts) < line_size
      → All IsToken ts
      → length ts < args_size
      → get_splitted getenv vars sg bg slack junk true all_granted line ≡ ok (line, ts)
  get_splitted-spelled ts line s h l a r =
      split_case (spelled ts) line (ok ts) s h l (split_args-spelled ts a r)
