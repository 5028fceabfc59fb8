-- ===== src/Kcsh/Unfold/Tests.antt =====
-- Tests and examples of Kcsh.Unfold.
use syssoft_labs.Prelude.{
  All, inl, inr, ◌<◌, some, List, ℕ, zero, suc, ◌<◌, ◌≡◌, refl, true, Option, none, some, [], ◌∷◌,
  take, arith, if◌then◌else◌,
}
use syssoft_labs.Prelude.CString.{CString, bytes, byte_at, same}
use syssoft_labs.Kcsh.Outcome.{Outcome, ok, fault, ◌>>=◌}
use syssoft_labs.Kcsh.Editor.{string_at}
use syssoft_labs.Kcsh.Variable.{get_var, find}
use syssoft_labs.Kcsh.Unfold.{replace_name, try_names, unfold_variable, unfold_line, get_splitted}
use syssoft_labs.Kcsh.Unfold.Replace.{
  IsReplaced, unfold_variable-prefix, unfold_variable-whole, unfold_variable-outside,
}
use syssoft_labs.Kcsh.Lexer.Laws.{IsToken}
use syssoft_labs.Kcsh.Lexer.Spelling.{spelled}
use syssoft_labs.Kcsh.Unfold.Tokens.{get_splitted-spelled}

abbrev home : CString → Option CString
home name = if same name (bytes "HOME") then some (bytes "/root") else none

abbrev block : CString → ℕ → ℕ
block s i = byte_at s i

abbrev junk : ℕ → ℕ
junk i = 7

abbrev unfolded : (slack : ℕ) → CString → Outcome CString
unfolded slack s =
    unfold_line home [] (λ _. true) (λ _. true) slack junk 1025 0 (block s) >>= string_at 1024 0

-- The last letter of the name stays in the line.
letter_stays : unfolded 1 (bytes "ls $HOME x") ≡ ok (bytes "ls /rootE x")
unfolding unfold_line unfold_variable try_names replace_name string_at same get_var find
letter_stays = refl

whole_line : unfolded 1 (bytes "cd $HOME") ≡ ok (bytes "cd /root")
unfolding unfold_line unfold_variable try_names replace_name string_at same get_var find
whole_line = refl

one_byte_missing : unfolded 0 (bytes "cd $HOME") ≡ fault
unfolding unfold_line unfold_variable try_names replace_name string_at same get_var find
one_byte_missing = refl

abbrev name : CString
name = bytes "HOME x"

abbrev env : CString
env = bytes "/root"

no_longer : (j : ℕ) → 4 < j → get_var home (take j name) [] ≡ none
unfolding get_var find same
no_longer zero l = absurd (omega (arith, l))
no_longer (suc zero) l = absurd (omega (arith, l))
no_longer (suc (suc zero)) l = absurd (omega (arith, l))
no_longer (suc (suc (suc zero))) l = absurd (omega (arith, l))
no_longer (suc (suc (suc (suc zero)))) l = absurd (omega (arith, l))
no_longer (suc (suc (suc (suc (suc zero))))) l = refl
no_longer (suc (suc (suc (suc (suc (suc j)))))) l = refl

-- `$HOME x` becomes `/rootE x`.
unfold_variable-prefix_example :
    (line' : ℕ → ℕ) × (unfold_variable home [] true true 1 junk 0 (block (b'$' ∷ name)) ≡ ok line')
    × IsReplaced 0 (bytes "/rootE x") (block (b'$' ∷ name)) line'
unfolding get_var find same
unfold_variable-prefix_example =
    unfold_variable-prefix home [] 1 junk 0 name (block (b'$' ∷ name)) refl (ground arith)
      (omega arith) 4 env (omega arith) (omega arith) (omega arith) refl no_longer (ground arith)
      (omega arith)

unfold_variable-whole_example :
    (line' : ℕ → ℕ) × (unfold_variable home [] true true 1 junk 0 (block (bytes "$HOME"))
      ≡ ok line')
    × IsReplaced 0 env (block (bytes "$HOME")) line'
unfolding get_var find same
unfold_variable-whole_example =
    unfold_variable-whole home [] 1 junk 0 (bytes "HOME") (block (bytes "$HOME")) refl
      (ground arith) (omega arith) env [] (omega arith) (omega arith) refl refl (omega arith)
      (ground arith) (omega arith) (omega arith)

unfold_variable-outside_example :
    unfold_variable home [] true true 0 junk 0 (block (bytes "$HOME")) ≡ fault
unfold_variable-outside_example =
    unfold_variable-outside home [] 0 junk 0 (bytes "HOME") (block (bytes "$HOME")) refl
      (ground arith) (omega arith) refl

abbrev two_tokens : List CString
two_tokens = bytes "ls" ∷ bytes "|" ∷ []

two_tokens-IsToken : All IsToken two_tokens
two_tokens-IsToken = (inr (refl, (refl, tt)), (inl refl, tt))

get_splitted-spelled_example :
    get_splitted home []
      (λ _. true)
      (λ _. true)
      0
      junk
      true
      (λ _. some 1)
      (block (spelled two_tokens))
    ≡ ok (block (spelled two_tokens), two_tokens)
get_splitted-spelled_example =
    get_splitted-spelled home [] (λ _. true) (λ _. true) 0 junk two_tokens
      (block (spelled two_tokens)) (ground arith) (ground arith) (omega arith) two_tokens-IsToken
      (omega arith)
