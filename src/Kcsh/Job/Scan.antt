-- ===== src/Kcsh/Job/Scan.antt =====
-- lab4/job.c: the loops that look for a cell, and what a well-formed table is.
use syssoft_labs.Prelude.{
  ℕ, zero, suc, ◌+◌, ◌*◌, ◌≤◌, ◌<◌, ◌≡◌, refl, inl, inr, Bool, true, false, Option, none, some,
  arith, Bool-cases, ◌≢◌,
}
use syssoft_labs.Kcsh.Outcome.{ok}
use syssoft_labs.Kcsh.Job.{Block, Table, pid_size, scan}

-- The scan of the `n` cells from `i` on stops at `k`: at the first hit, or behind the last cell.
pub record Scanned (hit : ℕ → Bool) (n i : ℕ) (b : Block) (k : ℕ) : Type 0 where
  pub runs : scan hit n i b ≡ ok k
  pub above : i ≤ k
  pub below : k ≤ i + n
  pub missed : (j : ℕ) → i ≤ j → j < k → hit (b.cell j) ≡ false
  pub found : k < i + n → hit (b.cell k) ≡ true

module _ (hit : ℕ → Bool) where
  scan-hit :
      (n i : ℕ) (b : Block)
      → pid_size * (i + suc n) ≤ b.size
      → hit (b.cell i) ≡ true
      → Scanned hit (suc n) i b i
  unfolding scan
  scan-hit n i b fits h = record {
    runs = ground arith;
    above = omega arith;
    below = omega arith;
    missed = λ j p q. absurd (omega arith);
    found = λ _. h;
  }

  scan-miss :
      (n i : ℕ) (b : Block) {k : ℕ}
      → pid_size * (i + suc n) ≤ b.size
      → hit (b.cell i) ≡ false
      → Scanned hit n (i + 1) b k
      → Scanned hit (suc n) i b k
  unfolding scan
  scan-miss n i b {k} fits h s = record {
    runs = ground (arith, s.runs);
    above = omega arith;
    below = omega arith;
    missed = λ j p q. ground (arith, s.missed j);
    found = λ q. s.found (omega arith);
  }

  -- Inside the block the scan never faults.
  pub scan_lem : (n i : ℕ) (b : Block) → pid_size * (i + n) ≤ b.size → (k : ℕ) × Scanned hit n i b k
  unfolding scan
  scan_lem zero i b fits = (
    i,
    record {
      runs = refl;
      above = omega arith;
      below = omega arith;
      missed = λ j p q. absurd (omega arith);
      found = λ q. absurd (omega arith);
    },
  )
  scan_lem (suc n) i b fits = elim (Bool-cases (hit (b.cell i))) [
    | inl h ↦ (i, scan-hit n i b fits h)
    | inr h ↦ let (k, s) = scan_lem n (i + 1) b (omega arith) in (k, scan-miss n i b fits h s)
  ]

-- The block holds the cells from 0 to `capacity`.
abbrev pub Fits : ℕ → Option Block → Type 0
Fits c none = Unit
Fits c (some b) = pid_size * (c + 1) ≤ b.size

-- A table as `add_job` leaves it: ids from 1 to `capacity`, and a cell for each.
pub record IsValid (t : Table) : Type 0 where
  pub positive : 0 < t.capacity
  pub fits : Fits t.capacity t.jobs

-- The pid under an id, 0 for none.
abbrev pub pid_in : Option Block → ℕ → ℕ
pid_in none i = 0
pid_in (some b) i = b.cell i

abbrev pub pid_at : Table → ℕ → ℕ
pid_at t = pid_in t.jobs

-- `id` is the smallest id in use for `pid` (with `pid` 0: the smallest free id).
pub record IsFirst (t : Table) (pid id : ℕ) : Type 0 where
  pub positive : 0 < id
  pub in_range : id ≤ t.capacity
  pub holds : pid_at t id ≡ pid
  pub earlier : (j : ℕ) → 0 < j → j < id → pid_at t j ≢ pid

-- No id is in use for `pid`.
abbrev pub IsAbsent : Table → ℕ → Type 0
IsAbsent t pid = (j : ℕ) → 0 < j → j ≤ t.capacity → pid_at t j ≢ pid
