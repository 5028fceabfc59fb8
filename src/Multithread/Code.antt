-- ===== src/Multithread/Code.antt =====
-- lab5/multithread.c: what a thread does to the shared string, one access of a byte at a time.
use syssoft_labs.Prelude.{ℕ, zero, suc}
use syssoft_labs.Prelude.Family.{update}

-- `toy`: the byte at each index
abbrev pub Memory : Type 0
Memory = ℕ → ℕ

-- Straight code: a load goes on with the byte that it reads.
pub data Code : Type 0 where
  done : Code
  load : ℕ → (ℕ → Code) → Code
  store : ℕ → ℕ → Code → Code

-- The code run by one thread alone.
abbrev pub run : Code → Memory → Memory
run done m = m
run (load a k) m = run (k (m a)) m
run (store a v c) m = run c (update m a v)

-- `for (j = 0; j < n; ++j) pass`
unfoldable pub repeat : ℕ → (Code → Code) → Code → Code
repeat zero pass k = k
repeat (suc n) pass k = pass (repeat n pass k)

abbrev pub iterate {ℓ} : {A : Type ℓ} → ℕ → (A → A) → A → A
iterate zero f a = a
iterate (suc n) f a = iterate n f (f a)
