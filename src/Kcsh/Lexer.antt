-- ===== src/Kcsh/Lexer.antt =====
-- lab4/parser.c: the characters of a command line and its tokens. `args` is a list, in the order of
-- the vector; the strings of the parser are values, and their blocks of memory are not modelled.
pub mod Laws
pub mod Split
pub mod Spelling
pub mod Fuel
mod Tests
use syssoft_labs.Prelude.{
  ℕ, zero, suc, ◌+◌, Bool, Option, none, some, List, [], ◌∷◌, ◌++◌, ◌||◌, length, drop, true, false,
  ltb, ◌==◌, if◌then◌else◌,
}
use syssoft_labs.Prelude.CString.{CString}
use syssoft_labs.Kcsh.Outcome.{
  Outcome, ok, fault, out_of_fuel, ◌>>=◌, ◌>>◌, die, many_args, try_alloc,
}

abbrev pub is_space : ℕ → Bool
is_space c = c == b' ' || c == 0x09

abbrev pub is_space_or_eol : ℕ → Bool
is_space_or_eol c = is_space c || c == 0x0a

abbrev pub is_separator : ℕ → Bool
is_separator c = c == b';' || c == b'|' || c == b'&' || c == b'>' || c == b'<'

unfoldable pub skip_spaces : CString → CString
skip_spaces [] = []
skip_spaces (c ∷ cs) = if is_space c then skip_spaces cs else c ∷ cs

-- `for (; line[p] && !is_space(line[p]) && !is_separator(line[p]); ++p);`: the bytes passed over
unfoldable pub word : CString → CString
word [] = []
word (c ∷ cs) = if is_space c || is_separator c then [] else c ∷ word cs

unfoldable pub get_arg : CString → CString
get_arg [] = []
get_arg (c ∷ cs) = if is_separator c then c ∷ [] else word (c ∷ cs)

abbrev pub args_size : ℕ
args_size = 1024

-- `vec[i+1] = NULL` is outside the vector when `i + 1` is `ARGS_SIZE`; the test lets that pass.
unfoldable pub put : (granted : Bool) → List CString → CString → Outcome (List CString)
put granted vec item =
    let i = length vec in
    if ltb args_size (i + 1)
    then die many_args
    else (do try_alloc granted; if ltb (i + 1) args_size then ok (vec ++ item ∷ []) else fault)

-- What the allocator answers to both requests for a token: `none`, or how many bytes more there are in
-- the block of `get_arg` than it asks for.
abbrev pub is_granted : Option ℕ → Bool
is_granted none = false
is_granted (some slack) = true

-- `arg[p] = '\0'` of `get_arg`, one byte behind those of `malloc(p)`
abbrev pub end_arg : Option ℕ → Outcome (Unit {0})
end_arg none = ok tt
end_arg (some zero) = fault
end_arg (some (suc slack)) = ok tt

-- The body of the `while` loop of `get_splitted` behind `skip_spaces`: `none` is its `break`.
-- `granted i` is the answer of the allocator for token `i`.
unfoldable pub next_arg :
    (granted : ℕ → Option ℕ) → CString → List CString → Outcome (Option (CString × List CString))
next_arg granted [] vec = ok none
next_arg granted (d ∷ ds) vec =
    let arg = get_arg (d ∷ ds) in
    do
      try_alloc (is_granted (granted (length vec)))
      end_arg (granted (length vec))
      vec' ← put (is_granted (granted (length vec))) vec arg
      ok (some (drop (length arg) (d ∷ ds), vec'))

-- The loop, with a round for each token.
unfoldable pub split :
    (granted : ℕ → Option ℕ) → (fuel : ℕ) → CString → List CString → Outcome (List CString)
split granted zero line vec = out_of_fuel
split granted (suc fuel) [] vec = ok vec
split granted (suc fuel) (c ∷ cs) vec = next_arg granted (skip_spaces (c ∷ cs)) vec >>= λ next.
    elim next [ none ↦ ok vec | some (line, vec') ↦ split granted fuel line vec' ]

-- `get_splitted` behind the loop that unfolds variables
unfoldable pub split_args :
    (vec_granted : Bool) (granted : ℕ → Option ℕ) → CString → Outcome (List CString)
split_args vec_granted granted line = do
  try_alloc vec_granted
  split granted (length line + 1) line []
