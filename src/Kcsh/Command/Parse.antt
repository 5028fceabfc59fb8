-- ===== src/Kcsh/Command/Parse.antt =====
-- lab4/parser.c, `make_cmdv`: background commands, and the loop over the tokens.
use syssoft_labs.Prelude.{
  ℕ, zero, suc, ◌+◌, ◌-◌, ◌%◌, ◌^◌, Bool, true, false, Option, none, some, List, [], ◌∷◌, ◌++◌,
  length, ltb, if◌then◌else◌,
}
use syssoft_labs.Prelude.CString.{CString, bytes}
use syssoft_labs.Kcsh.Outcome.{Outcome, ok, fault, out_of_fuel, ◌>>=◌}
use syssoft_labs.Kcsh.Command.{
  Args, slot, is_operator, is_item, Cmd, make_cmd, Parsed, connect, redirect_out, redirect_from,
}

-- `for (; j >= 0 && commands[j]->out > 1; ++j) commands[j]->bg = true;`: the commands from `j` on
unfoldable pub mark_bg : List Cmd → Outcome (List Cmd)
mark_bg [] = fault
mark_bg (c ∷ cs) =
    let rest = mark_bg cs in
    if ltb 1 c.out_fd then (rest >>= λ cs'. ok (record c { bg = true } ∷ cs')) else ok (c ∷ cs)

-- The loop begins at the command before `c`, if there is one.
unfoldable pub mark_pipeline : List Cmd → Cmd → Outcome (List Cmd)
mark_pipeline [] c = ok (c ∷ [])
mark_pipeline (d ∷ []) c = mark_bg (d ∷ c ∷ [])
mark_pipeline (d ∷ e ∷ ds) c = mark_pipeline (e ∷ ds) c >>= λ cs. ok (d ∷ cs)

-- the part about `&`: all commands up to `c`
unfoldable pub background : Args → ℕ → List Cmd → Cmd → Outcome (List Cmd)
background args i cs c = do
  found ← is_item args i (bytes "&")
  if found then mark_pipeline cs (record c { bg = true }) else ok (cs ++ c ∷ [])

-- `while (args[i])` at the end of a command: the new `i`, and `first` if it is set
unfoldable pub skip_operators : (rounds i first : ℕ) → Args → Outcome (ℕ × ℕ)
skip_operators zero i first args = out_of_fuel
skip_operators (suc n) i first args =
    let rest = skip_operators n (i + 1) first args in
    slot args i >>= λ a. elim a [
      | none ↦ ok (i, first)
      | some arg ↦ if is_operator arg then rest else ok (i, i)
    ]

-- How a round ends: with a `return`, or with what the next round starts from. The `--i` at the end
-- of the body and the `++i` of the loop cancel out.
pub data Round : Type 0 where
  leave : Parsed → Round
  next_at : (i first : ℕ) (pipe_next : Bool) (commands : List Cmd) → Args → Round

-- The end of the body: the commands with `c`, and the item from which the next command starts.
unfoldable pub close_cmd :
    (first : ℕ) (to : Bool) (commands : List Cmd) → Args → (ℕ × Cmd) → Outcome Round
close_cmd first to cs args (i, c) = do
  cs' ← background args i cs c
  (i', first') ← skip_operators (suc (length args)) i first args
  ok (next_at i' first' to cs' args)

-- `return false` with the command stored, and no NULL behind it
abbrev pub refuse : List Cmd → Cmd → Round
refuse cs c = leave (record { accepted = false; commands = cs ++ c ∷ []; terminated = false })

-- What follows the part about `<`, and the part about `>`, on their results.
unfoldable pub after_from :
    (first : ℕ) (to : Bool) (commands : List Cmd) → Args → Cmd → Option (ℕ × Cmd) → Outcome Round
after_from first to cs args c none = ok (refuse cs c)
after_from first to cs args c (some next) = close_cmd first to cs args next

unfoldable pub after_out :
    (granted : Option ℕ) (first : ℕ) (to : Bool) (commands : List Cmd)
    → Args
    → Cmd
    → Option (ℕ × Cmd)
    → Outcome Round
after_out granted first to cs args c none = ok (refuse cs c)
after_out granted first to cs args c (some (i, c')) =
    redirect_from granted args i c' >>= after_from first to cs args c'

-- What follows the part about pipes.
unfoldable pub after_connect :
    (granted : Option ℕ) (i first : ℕ) (commands : List Cmd)
    → Args
    → Option (Cmd × Bool)
    → Outcome Round
after_connect granted i first cs args none =
    ok (leave (record { accepted = false; commands = cs; terminated = true }))
after_connect granted i first cs args (some (c, to)) =
    redirect_out granted args i c >>= after_out granted first to cs args c

-- The body of the `if`, for the command that ends at `last`.
unfoldable pub end_cmd :
    (granted : Option ℕ) (i first last : ℕ) (pipe_next : Bool) (commands : List Cmd)
    → Args
    → Outcome Round
end_cmd granted i first last pipe_next cs args = make_cmd granted args first last >>= λ (c, rest).
    connect pipe_next rest i c >>= after_connect granted i first cs rest

-- One round at the item `arg` of the slot `i`. `granted k` is the answer of the allocator to the
-- requests for command `k`.
unfoldable pub round :
    (granted : ℕ → Option ℕ)
    → CString
    → (i first : ℕ) (pipe_next : Bool) (commands : List Cmd) → Args
    → Outcome Round
round granted arg i first pipe_next cs args =
    if is_operator arg
    then end_cmd (granted (length cs)) i first ((i + 2 ^ 64 - 1) % 2 ^ 64) pipe_next cs args
    else do
      next ← slot args (i + 1)
      elim next [
        | some next_arg ↦ ok (next_at (i + 1) first pipe_next cs args)
        | none ↦ end_cmd (granted (length cs)) i first i pipe_next cs args
      ]

unfoldable pub parse :
    (granted : ℕ → Option ℕ) (fuel i first : ℕ) (pipe_next : Bool) (commands : List Cmd)
    → Args
    → Outcome Parsed
parse granted zero i first pipe_next cs args = out_of_fuel
parse granted (suc fuel) i first pipe_next cs args = slot args i >>= λ a. elim a [
  | none ↦ ok (record { accepted = true; commands = cs; terminated = true })
  | some arg ↦ round granted arg i first pipe_next cs args >>= λ r. elim r [
    | leave p ↦ ok p
    | next_at j first' pipe_next' cs' args' ↦ parse granted fuel j first' pipe_next' cs' args'
  ]
]

-- The vector of some tokens, with its NULL.
abbrev pub vector : List CString → Args
vector [] = none ∷ []
vector (arg ∷ args) = some arg ∷ vector args

unfoldable pub make_cmdv : (granted : ℕ → Option ℕ) → Args → Outcome Parsed
make_cmdv granted args = parse granted (length args + 1) 0 0 false [] args
