-- ===== src/Kcsh/Outcome.antt =====
-- How a function of the shell ends: with a value, by `_exit` (`error` with `do_exit` set calls
-- `goodnight`, lab4/io.c and lab4/kcsh.c), by an access outside the memory it was
-- given, or, for a loop of the model, without fuel.
use syssoft_labs.Prelude.{ℕ, ◌+◌, Bool, true, false}

pub data Outcome {ℓ} (A : Type ℓ) : Type ℓ where
  ok : A → Outcome A
  exited : ℕ → Outcome A
  fault : Outcome A
  out_of_fuel : Outcome A

infixl 5 ◌>>=◌ ◌>>◌
abbrev pub ◌>>=◌ {ℓ κ} : {A : Type ℓ} {B : Type κ} → Outcome A → (A → Outcome B) → Outcome B
ok a >>= f = f a
exited c >>= f = exited c
fault >>= f = fault
out_of_fuel >>= f = out_of_fuel

abbrev pub ◌>>◌ {ℓ} : {B : Type ℓ} → Outcome (Unit {0}) → Outcome B → Outcome B
m >> k = m >>= λ _. k

-- `enum error_in`
pub data Reason : Type 0 where
  no_term no_mem breg write_failed read_failed many_args syntax inv_args : Reason
  fork_failed red_op dup_failed pipe_failed exec_failed undef : Reason

-- the position of an enumerator
abbrev pub ordinal : Reason → ℕ
ordinal no_term = 0
ordinal no_mem = 1
ordinal breg = 2
ordinal write_failed = 3
ordinal read_failed = 4
ordinal many_args = 5
ordinal syntax = 6
ordinal inv_args = 7
ordinal fork_failed = 8
ordinal red_op = 9
ordinal dup_failed = 10
ordinal pipe_failed = 11
ordinal exec_failed = 12
ordinal undef = 13

-- `error(subj, 1)`: the message goes to stderr, and `goodnight(subj + 1)` ends the process.
abbrev pub die {ℓ} : {A : Type ℓ} → Reason → Outcome A
die r = exited (ordinal r + 1)

-- `TRY_ALLOC`: `granted` says whether the allocator returned memory.
abbrev pub try_alloc : (granted : Bool) → Outcome (Unit {0})
try_alloc true = ok tt
try_alloc false = die no_mem
