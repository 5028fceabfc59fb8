-- ===== src/Kcsh/Lexer/Tests.antt =====
-- lab4/parser.c: lines and their tokens, and the theorems at them.
use syssoft_labs.Prelude.{
  ◌≤◌, ◌<◌, ◌≡◌, refl, inl, inr, ◌⊎◌, some, none, true, List, [], ◌∷◌, length, All, arith,
}
use syssoft_labs.Prelude.CString.{CString, bytes}
use syssoft_labs.Kcsh.Outcome.{ok, exited, fault}
use syssoft_labs.Kcsh.Lexer.{
  skip_spaces, word, get_arg, args_size, put, next_arg, split, split_args,
}
use syssoft_labs.Kcsh.Lexer.Laws.{IsToken}
use syssoft_labs.Kcsh.Lexer.Split.{AreTokens, split_args_lem}
use syssoft_labs.Kcsh.Lexer.Spelling.{spelled, split_args-spelled}

pipeline_tokens :
    split_args true (λ _. some 1) (bytes "ls -l|wc >>out  ")
    ≡ ok (
        bytes "ls" ∷ bytes "-l" ∷ bytes "|" ∷ bytes "wc" ∷ bytes ">" ∷ bytes ">" ∷ bytes "out" ∷ [])
unfolding split_args split next_arg put get_arg word skip_spaces
pipeline_tokens = refl

no_memory : split_args true (λ _. none) (bytes "ls") ≡ exited 2
unfolding split_args split next_arg put get_arg word skip_spaces
no_memory = refl

abbrev two_tokens : List CString
two_tokens = bytes "ls" ∷ bytes "|" ∷ []

two_tokens-IsToken : All IsToken two_tokens
two_tokens-IsToken = (inr (refl, (refl, tt)), (inl refl, tt))

split_args-spelled_instance : split_args true (λ _. some 1) (spelled two_tokens) ≡ ok two_tokens
split_args-spelled_instance = split_args-spelled two_tokens two_tokens-IsToken (omega arith)

split_args_lem_instance :
    (ts : List CString) × AreTokens (bytes "a b") ts
    × (((split_args true (λ _. some 1) (bytes "a b") ≡ ok ts) × (length ts < args_size))
        ⊎ ((split_args true (λ _. some 1) (bytes "a b") ≡ fault) × (args_size ≤ length ts)))
split_args_lem_instance = split_args_lem (bytes "a b")

-- A token in a block of the size that is asked for.
token_outside : split_args true (λ _. some 0) (bytes "ls") ≡ fault
unfolding split_args split next_arg put get_arg word skip_spaces
token_outside = refl
