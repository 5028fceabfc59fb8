-- ===== src/Kcsh/Command.antt =====
-- lab4/parser.c and lab4/command.h: the commands of a line. The vector of the tokens is the list of
-- its slots up to the NULL behind the last token; an access outside of it is a fault. File names are
-- values, which are copied into blocks of `granted` bytes more than are asked for; `pid` and `term` of a command, which the parser does not set, are left out.
pub mod Parse
pub mod Laws
pub mod Leading
pub mod Ends
pub mod Skip
pub mod Fuel
pub mod Linked
pub mod Examples
mod Tests
use syssoft_labs.Prelude.{
  ℕ, zero, suc, ◌+◌, ◌-◌, ◌%◌, ◌^◌, Bool, true, false, Option, none, some, List, [], ◌∷◌, ◌++◌,
  ◌||◌, length, get_elem?, set, ltb, not, if◌then◌else◌,
}
use syssoft_labs.Prelude.CString.{CString, bytes, same}
use syssoft_labs.Kcsh.Outcome.{Outcome, ok, fault, out_of_fuel, ◌>>=◌, ◌>>◌, try_alloc}
use syssoft_labs.Kcsh.Lexer.{is_separator, is_granted}

-- a slot of the vector: `none` is NULL
abbrev pub Args : Type 0
Args = List (Option CString)

-- `args[i]`
abbrev pub slot : Args → ℕ → Outcome (Option CString)
slot args i = elim (get_elem? args i) [ none ↦ fault | some a ↦ ok a ]

-- `is_separator(arg[0])`: the first byte of an empty string is the NUL.
pub is_operator : CString → Bool
is_operator [] = is_separator 0
is_operator (c ∷ cs) = is_separator c

-- `args[i] && !strcmp(args[i], item)`
pub is_item : Args → ℕ → CString → Outcome Bool
is_item args i item = slot args i >>= λ a. ok (elim a [ none ↦ false | some arg ↦ same arg item ])

-- `struct cmd`: `argc` is the length of `argv`, and a file name that is not set is `none`.
pub record Cmd : Type 0 where
  pub argv : Args
  pub in_fd : ℕ
  pub out_fd : ℕ
  pub piped : Bool
  pub bg : Bool
  pub redirect : Bool
  pub rappend : Bool
  pub rfilename : Option CString
  pub redirect_in : Bool
  pub rifilename : Option CString

-- `for (i = first; i <= last; ++i)` of `make_cmd`, and the NULL behind the arguments: `slots` are
-- left in `argv`.
pub take_args : (slots i last : ℕ) → Args → Outcome (Args × Args)
take_args zero i last args = fault
take_args (suc slots) i last args = if ltb last i then ok ([], args) else do
  a ← slot args i
  (argv, rest) ← take_args slots (i + 1) last (set args i none)
  ok (a ∷ argv, rest)

-- `last - first + 2` is computed on a `size_t`.
pub make_cmd : (granted : Option ℕ) → Args → (first last : ℕ) → Outcome (Cmd × Args)
make_cmd granted args first last = do
  try_alloc (is_granted granted)
  (argv, rest) ← take_args ((last + 2 ^ 64 - first + 2) % 2 ^ 64) first last args
  ok (
    record {
      argv = argv;
      in_fd = 0;
      out_fd = 1;
      piped = false;
      bg = false;
      redirect = false;
      rappend = false;
      rfilename = none;
      redirect_in = false;
      rifilename = none;
    },
    rest,
  )

-- What `make_cmdv` returns, the commands that it stored, and whether a NULL stands behind them.
pub record Parsed : Type 0 where
  pub accepted : Bool
  pub commands : List Cmd
  pub terminated : Bool

-- The part about pipes: `none` is its `return false`, and the flag is `pipe_next`.
pub connect : (pipe_next : Bool) → Args → ℕ → Cmd → Outcome (Option (Cmd × Bool))
connect pipe_next args i c =
    let c' = if pipe_next then record c { in_fd = 2 } else c in
    do
      pipe ← is_item args i (bytes "|")
      if not pipe then ok (some (c', false)) else do
        next ← slot args (i + 1)
        elim next [
          | none ↦ ok none
          | some arg ↦
              if is_operator arg
              then ok none
              else ok (some (record c' { out_fd = 2; piped = true }, true))
        ]

-- `malloc(strlen(name+1))` and `strcpy(..., name)`, which writes two bytes more.
abbrev pub copy_name : Option ℕ → Outcome (Unit {0})
copy_name none = ok tt
copy_name (some slack) = if ltb slack 2 then fault else ok tt

pub redirect_into :
    (granted : Option ℕ) (append : Bool) → ℕ → CString → Cmd → Outcome (Option (ℕ × Cmd))
redirect_into granted append i name c = do
  try_alloc (is_granted granted)
  copy_name granted
  ok (some (i, record c { redirect = true; rappend = append; rfilename = some name }))

-- The parts about `>` and `<`: `none` is `return false`; the number is the new `i`.
pub redirect_out : (granted : Option ℕ) → Args → ℕ → Cmd → Outcome (Option (ℕ × Cmd))
redirect_out granted args i c = do
  found ← is_item args i (bytes ">")
  if not found then ok (some (i, c)) else do
    next ← slot args (i + 1)
    elim next [
      | none ↦ ok none
      | some arg ↦
          if c.piped
          then ok none
          else if not (same (bytes ">") arg)
          then redirect_into granted false (i + 2) arg c
          else do
            next' ← slot args (i + 2)
            elim next' [ none ↦ ok none | some name ↦ redirect_into granted true (i + 3) name c ]
    ]

pub redirect_from : (granted : Option ℕ) → Args → ℕ → Cmd → Outcome (Option (ℕ × Cmd))
redirect_from granted args i c = do
  found ← is_item args i (bytes "<")
  if not found then ok (some (i, c)) else do
    next ← slot args (i + 1)
    elim next [
      | none ↦ ok none
      | some arg ↦ if c.piped then ok none else do
        try_alloc (is_granted granted)
        copy_name granted
        ok (some (i + 2, record c { redirect_in = true; rifilename = some arg }))
    ]
