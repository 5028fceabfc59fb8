-- ===== src/Prelude/Family.antt =====
-- Families indexed by a number: memory cells, threads. `update` changes one index.
use Prim.Native.Nat.{ℕ}
use syssoft_labs.Prelude.Tests.{◌==◌, if◌then◌else◌}

abbrev pub update {ℓ} : {A : Type ℓ} → (ℕ → A) → ℕ → A → ℕ → A
update f i a j = if j == i then a else f j
