-- ===== src/Kcsh/Unfold.antt =====
-- lab4/parser.c: `unfold_variable`, which puts the values of variables into the line before it is
-- split. The line is the block that `get_line` returns (Kcsh.Editor); `subs` and `buf` have `slack`
-- bytes more than the source asks for, which an allocator may give.
pub mod Write
pub mod Names
pub mod Replace
pub mod Line
pub mod Tokens
mod Tests
use syssoft_labs.Prelude.{
  ℕ, zero, suc, ◌+◌, ◌-◌, Bool, true, false, Option, none, some, List, [], ◌∷◌, ◌++◌, length, ltb,
  leb, not, ◌==◌, if◌then◌else◌,
}
use syssoft_labs.Prelude.CString.{CString, byte_at}
use syssoft_labs.Prelude.Family.{update}
use syssoft_labs.Kcsh.Outcome.{Outcome, ok, fault, out_of_fuel, ◌>>=◌, ◌>>◌, try_alloc}
use syssoft_labs.Kcsh.Editor.{line_size, string_at, string_from}
use syssoft_labs.Kcsh.Variable.{Variable, get_var}
use syssoft_labs.Kcsh.Lexer.{split_args}

-- `strncpy(subs, src, n)`: a short source is filled up with NULs.
abbrev pub strncpy : CString → (n : ℕ) → (ℕ → ℕ) → ℕ → ℕ
strncpy src n subs k = if ltb k n then byte_at src k else subs k

-- the bytes of a string and the NUL behind them, from `p` on
abbrev pub write_string : ℕ → CString → (ℕ → ℕ) → ℕ → ℕ
write_string p [] line = update line p 0
write_string p (c ∷ cs) line = update (write_string (p + 1) cs line) p c

-- `strcat` into a block of `size` bytes, and `strcpy(line, buf)`
abbrev pub put_back : (size p : ℕ) → CString → (ℕ → ℕ) → Outcome (ℕ → ℕ)
put_back size p buf line =
    if leb (length buf + 1) size
    then (if leb (p + length buf + 1) line_size then ok (write_string p buf line) else fault)
    else fault

-- What follows when `env` is found: `str` is the string at `p` and `i` the counter. The string at
-- `line + i + 1` is copied behind `env` into `buf`, and `buf` back to `p`.
unfoldable pub replace_name :
    (granted : Bool) (slack p i : ℕ) (str env : CString) → (ℕ → ℕ) → Outcome (ℕ → ℕ)
replace_name granted slack p i str env line = do
  try_alloc granted
  rest ← string_from (p + i + 1) line
  let buf = env ++ rest
  put_back (length str + length env + 1 + slack) p buf line

-- `subs` in the round with the counter `i`: the start of the name, and a NUL at `i + 1`.
abbrev pub cut : CString → ℕ → (ℕ → ℕ) → ℕ → ℕ
cut name i subs = update (strncpy name i subs) (i + 1) 0

module _ (lookup : CString → Option CString) (granted : Bool) (slack p : ℕ)
    (str name : CString) where
  -- The loop from `i` down to 0, with `i + 1` rounds to go; it leaves `subs`, and no line if no name is found. The block
  -- `subs` has a byte for each of `str` and one for the NUL.
  pub try_names : (rounds : ℕ) → (subs line : ℕ → ℕ) → Outcome ((ℕ → ℕ) × Option (ℕ → ℕ))
  try_names zero subs line = ok (subs, none)
  try_names (suc i) subs line =
      let size = length str + 1 + slack in
      let subs' = cut name i subs in
      let rest = try_names i subs' line in
      if ltb (i + 1) size
      then (string_at size 0 subs' >>= λ found. elim (lookup found) [
        | none ↦ rest
        | some env ↦ replace_name granted slack p i str env line >>= λ line'. ok (subs', some line')
      ])
      else fault

-- `unfold_variable(line + p)`: the second loop looks only in the environment. The answers of the
-- allocator are for `subs` and for `buf`, and `junk` is what new memory holds.
pub unfold_variable :
    (getenv : CString → Option CString) (vars : List Variable) (subs_granted buf_granted : Bool)
    (slack : ℕ) (junk : ℕ → ℕ) (p : ℕ)
    → (ℕ → ℕ)
    → Outcome (ℕ → ℕ)
unfold_variable getenv vars subs_granted buf_granted slack junk p line =
    if not (ltb p line_size) then fault else if not (line p == b'$') then ok line else do
      name ← string_from (p + 1) line
      try_alloc subs_granted
      (subs, first) ←
          try_names (λ found. get_var getenv found vars) buf_granted slack p (b'$' ∷ name) name
            (length name + 2) junk line
      elim first [
        | some line' ↦ ok line'
        | none ↦
            try_names getenv buf_granted slack p (b'$' ∷ name) name (length name + 2) subs line
            >>= λ (subs', second). ok (elim second [ some line' ↦ line' | none ↦ line ])
      ]

-- `for (pos = 0; line[pos]; ++pos) unfold_variable(line + pos);` of `get_splitted`, from `pos` on. The
-- allocator answers by the position.
unfoldable pub unfold_line :
    (getenv : CString → Option CString) (vars : List Variable) (subs_granted buf_granted : ℕ → Bool)
    (slack : ℕ) (junk : ℕ → ℕ) (rounds pos : ℕ)
    → (ℕ → ℕ)
    → Outcome (ℕ → ℕ)
unfold_line getenv vars sg bg slack junk zero pos line = out_of_fuel
unfold_line getenv vars sg bg slack junk (suc n) pos line =
    if not (ltb pos line_size)
    then fault
    else if line pos == 0
    then ok line
    else unfold_variable getenv vars (sg pos) (bg pos) slack junk pos line
      >>= unfold_line getenv vars sg bg slack junk n (pos + 1)

-- `get_splitted`: the variables of the line are replaced, and then it is split.
unfoldable pub get_splitted :
    (getenv : CString → Option CString) (vars : List Variable) (subs_granted buf_granted : ℕ → Bool)
    (slack : ℕ) (junk : ℕ → ℕ) (vec_granted : Bool) (granted : ℕ → Option ℕ)
    → (ℕ → ℕ)
    → Outcome ((ℕ → ℕ) × List CString)
get_splitted getenv vars sg bg slack junk vec_granted granted line = do
  try_alloc vec_granted
  line' ← unfold_line getenv vars sg bg slack junk (line_size + 1) 0 line
  text ← string_from 0 line'
  args ← split_args vec_granted granted text
  ok (line', args)
