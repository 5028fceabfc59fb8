-- ===== src/Kcsh/Unfold/Line.antt =====
-- lab4/parser.c, `get_splitted`: the loop that unfolds the variables of a line.
use syssoft_labs.Prelude.{
  ℕ, zero, suc, ◌+◌, ◌<◌, ◌≡◌, ◌≢◌, Bool, true, Option, List, [], ◌∷◌, length, All, arith,
}
use syssoft_labs.Prelude.CString.{CString}
use syssoft_labs.Kcsh.Outcome.{ok, ◌>>=◌}
use syssoft_labs.Kcsh.Editor.{line_size}
use syssoft_labs.Kcsh.Variable.{Variable}
use syssoft_labs.Kcsh.Lexer.{split_args}
use syssoft_labs.Kcsh.Unfold.{unfold_variable, unfold_line, get_splitted}
use syssoft_labs.Kcsh.Unfold.Write.{Spells, string_from-Spells}

module _ (getenv : CString → Option CString) (vars : List Variable) (sg bg : ℕ → Bool) (slack : ℕ)
    (junk : ℕ → ℕ) where
  plain_unfolded :
      (text : CString) (rounds pos : ℕ) (line : ℕ → ℕ)
      → Spells pos text line
      → All (λ c. c ≢ b'$') text
      → pos + length text < line_size
      → length text < rounds
      → unfold_line getenv vars sg bg slack junk rounds pos line ≡ ok line
  unfolding unfold_line unfold_variable
  plain_unfolded text zero pos line s h l m = absurd (omega (arith, m))
  plain_unfolded [] (suc n) pos line s h l m = ground (arith, s, l)
  plain_unfolded (c ∷ text) (suc n) pos line s h l m = ground (
    arith,
    s.0,
    s.1,
    h.0,
    l,
    plain_unfolded text n (pos + 1) line s.2 h.1 (omega (arith, l)) (omega (arith, m)),
  )

  -- A line without a dollar sign is split as it is.
  pub get_splitted-plain :
      (vg : Bool) (granted : ℕ → Option ℕ) (text : CString) (line : ℕ → ℕ)
      → Spells 0 text line
      → All (λ c. c ≢ b'$') text
      → length text < line_size
      → vg ≡ true
      → get_splitted getenv vars sg bg slack junk vg granted line
        ≡ (split_args vg granted text >>= λ args. ok (line, args))
  unfolding get_splitted
  get_splitted-plain vg granted text line s h l v = ground (
    arith,
    v,
    plain_unfolded text 1025 0 line s h (omega (arith, l)) (omega (arith, l)),
    string_from-Spells 0 text line s (omega (arith, l)),
  )
