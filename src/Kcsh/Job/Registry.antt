-- ===== src/Kcsh/Job/Registry.antt =====
-- lab4/job.c: the table of jobs as a registry of pids, and what happens when it is full.
use syssoft_labs.Prelude.{
  ℕ, zero, suc, ◌+◌, ◌*◌, ◌-◌, ◌≤◌, ◌<◌, ◌≡◌, ◌≢◌, ◌⊎◌, refl, inl, inr, sym, ◌∙◌, Bool, true, arith,
}
use syssoft_labs.Prelude.Family.{update}
use syssoft_labs.Kcsh.Outcome.{ok, fault}
use syssoft_labs.Kcsh.Job.{
  Block, Table, clear_from, grow, enlarge, add_job, get_job, get_job_id, delete_job_by_pid,
}
use syssoft_labs.Kcsh.Job.Scan.{IsValid, pid_at, IsFirst, IsAbsent}
use syssoft_labs.Kcsh.Job.Laws.{
  Stores, Granted, first_block_lem, add_job_lem, get_job_id_first, get_job_id_absent, delete_first,
  delete_absent, get_job-pid_at, IsFirst-or_IsAbsent, scan-absent,
}

Stores-IsFirst :
    {t u : Table} {id pid : ℕ}
    → IsFirst t 0 id
    → IsAbsent t pid
    → Stores t id pid u
    → IsFirst u pid id
Stores-IsFirst {id} {pid} f a s = record {
  positive = f.positive;
  in_range = ground (arith, s.capacity, f.in_range);
  holds = ground (arith, s.cells id);
  earlier = λ j p q. ground (arith, s.cells j, a j, f.in_range);
}

-- What a caller sees after `add_job` has answered `id`.
pub record IsRegistered (t : Table) (pid id : ℕ) (u : Table) : Type 0 where
  pub by_id : get_job id u ≡ ok pid
  pub by_pid : get_job_id pid u ≡ ok id
  pub others : (j : ℕ) → j ≤ t.capacity → j ≢ id → get_job j u ≡ get_job j t
  pub valid : IsValid u

-- While an id is free and the pid is not in the table, `add_job` answers with the smallest free
-- id; then `get_job` of that id is the pid, `get_job_id` of the pid is that id, and `get_job` of
-- every other id in range is what it was.
pub add_job_registers :
    (granted granted' : Bool) (junk : ℕ → ℕ) (pid id : ℕ) (t : Table)
    → IsValid t
    → Granted t granted
    → pid ≢ 0
    → IsAbsent t pid
    → IsFirst t 0 id
    → (u : Table) × (add_job granted granted' junk pid t ≡ ok (id, u)) × IsRegistered t pid id u
add_job_registers granted granted' junk pid id t v g p a f =
    let (u, made, s) = add_job_lem granted granted' junk pid id t v g f in
    let first : IsFirst u pid id = Stores-IsFirst f a s in
    (
      u,
      made,
      record {
        by_id = ground (arith, get_job-pid_at id u s.valid, first.in_range, first.holds);
        by_pid = get_job_id_first pid id u s.valid p first;
        others = λ j h n.
            ground (arith, get_job-pid_at j u s.valid, get_job-pid_at j t v, s.cells j, s.capacity);
        valid = s.valid;
      },
    )

-- `delete_job_by_pid` of a pid that `add_job` has just added, and that was not in the table
-- before, gives back a table with the same pid under every id.
pub delete_job_by_pid-add_job :
    (granted granted' : Bool) (junk : ℕ → ℕ) (pid id : ℕ) (t u : Table)
    → IsValid t
    → Granted t granted
    → pid ≢ 0
    → IsAbsent t pid
    → IsFirst t 0 id
    → add_job granted granted' junk pid t ≡ ok (id, u)
    → (w : Table) × (delete_job_by_pid pid u ≡ ok w)
      × IsValid w
      × ((j : ℕ) → pid_at w j ≡ pid_at t j)
delete_job_by_pid-add_job granted granted' junk pid id t u v g p a f e =
    let (u', made, s) = add_job_lem granted granted' junk pid id t v g f in
    let (w, deleted, s') = delete_first pid id u' s.valid p (Stores-IsFirst f a s) in
    (
      w,
      ground (arith, made, deleted),
      s'.valid,
      λ j. ground (arith, s.cells j, s'.cells j, f.holds),
    )

-- In a valid table `get_job_id` of a pid answers the smallest id that holds it, or 0 exactly when
-- no id in range does; it never reads outside the block.
pub get_job_id_lem :
    (pid : ℕ) (t : Table)
    → IsValid t
    → pid ≢ 0
    → (id : ℕ) × (get_job_id pid t ≡ ok id)
      × (((id ≢ 0) × IsFirst t pid id) ⊎ ((id ≡ 0) × IsAbsent t pid))
get_job_id_lem pid t v p = elim (IsFirst-or_IsAbsent pid t v p) [
  | inl (id, f) ↦ (id, get_job_id_first pid id t v p f, inl (omega (arith, f.positive), f))
  | inr a ↦ (0, get_job_id_absent pid t v a, inr (refl, a))
]

-- In a valid table `delete_job_by_pid` frees the smallest id of the pid and no other, and leaves
-- the table alone when the pid is not in it; the table stays valid.
pub delete_job_by_pid_lem :
    (pid : ℕ) (t : Table)
    → IsValid t
    → pid ≢ 0
    → (u : Table) × (delete_job_by_pid pid t ≡ ok u)
      × IsValid u
      × (((id : ℕ) × IsFirst t pid id × Stores t id 0 u) ⊎ (IsAbsent t pid × (u ≡ t)))
delete_job_by_pid_lem pid t v p = elim (IsFirst-or_IsAbsent pid t v p) [
  | inl (id, f) ↦
      let (u, deleted, s) = delete_first pid id t v p f in (u, deleted, s.valid, inl (id, f, s))
  | inr a ↦ (t, delete_absent pid t v a, v, inr (a, refl))
]

-- Clearing the cells from `j` on faults if the last of them is outside the block.
clear_from-fault : (n j : ℕ) (b : Block) → b.size < 4 * (j + suc n) → clear_from (suc n) j b ≡ fault
unfolding clear_from
clear_from-fault zero j b h = ground arith
clear_from-fault (suc n) j b h =
    ground (arith, clear_from-fault n (j + 1) (record b { cell = update b.cell j 0 }))

-- When every id is in use, `add_job` doubles the table and faults: the block that it asks for is
-- too small for the last cell, which it clears. This is so whatever the new memory holds.
pub add_job_full :
    (junk : ℕ → ℕ) (granted : Bool) (pid : ℕ) (t : Table)
    → IsValid t
    → Granted t granted
    → IsAbsent t 0
    → add_job granted true junk pid t ≡ fault
unfolding add_job enlarge grow
add_job_full junk granted pid t v g a =
    let (b, made, h) = first_block_lem t granted v g in
    let n : ℕ = t.capacity - 1 in
    let rounds : t.capacity * 2 + 1 - (t.capacity + 1) ≡ suc n = omega (arith, v.positive) in
    let b' : Block = grow junk (4 * (t.capacity * 2) + 1) b in
    ground (
      arith,
      made,
      scan-absent b h.fits (λ j p q e. a j p q (sym (h.cells j) ∙ e)),
      clear_from-fault n (t.capacity + 1) b' (omega (arith, v.positive)),
      rounds,
    )
