-- ===== src/Kcsh/Job/Tests.antt =====
-- lab4/job.c: runs of the table, and the theorems at them.
use syssoft_labs.Prelude.{
  ℕ, ◌≡◌, ◌≢◌, ◌⊎◌, refl, true, false, some, arith, zero, suc, List, [], ◌∷◌,
}
use syssoft_labs.Prelude.Family.{update}
use syssoft_labs.Kcsh.Outcome.{Outcome, ok, exited, fault, ◌>>=◌}
use syssoft_labs.Kcsh.Job.{Table, start, scan, first_block, add_job, get_job_id, delete_job_by_pid}
use syssoft_labs.Kcsh.Job.Scan.{IsValid, pid_at, IsFirst, IsAbsent}
use syssoft_labs.Kcsh.Job.Laws.{Stores}
use syssoft_labs.Kcsh.Job.Registry.{
  IsRegistered, add_job_registers, delete_job_by_pid-add_job, get_job_id_lem, delete_job_by_pid_lem,
  add_job_full,
}

abbrev junk : ℕ → ℕ
junk _ = 99

-- pid 40 under id 1, pid 41 under id 3
abbrev cells : ℕ → ℕ
cells = elim [
  | zero ↦ 0
  | suc i ↦ elim i [
    | zero ↦ 40
    | suc j ↦ elim j [ zero ↦ 0 | suc k ↦ elim k [ zero ↦ 41 | _ ↦ 0 ] ]
  ]
]

abbrev two_jobs : Table
two_jobs = record { capacity = 255; jobs = some (record { size = 1024; cell = cells }) }

abbrev full : Table
full = record { capacity = 255; jobs = some (record { size = 1024; cell = λ _. 7 }) }

abbrev script : Outcome (List ℕ)
script = do
  (a, t) ← add_job true true junk 40 start
  (b, t) ← add_job true true junk 41 t
  t ← delete_job_by_pid 40 t
  (c, t) ← add_job true true junk 42 t
  d ← get_job_id 41 t
  e ← get_job_id 40 t
  ok (a ∷ b ∷ c ∷ d ∷ e ∷ [])

ids_are_reused : script ≡ ok (1 ∷ 2 ∷ 1 ∷ 2 ∷ 0 ∷ [])
unfolding add_job first_block scan delete_job_by_pid get_job_id
ids_are_reused = refl

no_memory : add_job false true junk 40 start ≡ exited 2
unfolding add_job first_block
no_memory = refl

two_jobs-IsValid : IsValid two_jobs
two_jobs-IsValid = omega arith

IsFirst-free : IsFirst two_jobs 0 2
IsFirst-free = record {
  positive = omega arith;
  in_range = omega arith;
  holds = refl;
  earlier = λ j p q. let e : j ≡ 1 = omega arith in rw e (omega arith);
}

IsAbsent-42 : IsAbsent two_jobs 42
IsAbsent-42 zero p q = absurd (omega arith)
IsAbsent-42 (suc zero) p q = omega arith
IsAbsent-42 (suc (suc zero)) p q = omega arith
IsAbsent-42 (suc (suc (suc zero))) p q = omega arith
IsAbsent-42 (suc (suc (suc (suc j)))) p q = omega arith

add_job_registers_example :
    (u : Table) × (add_job false false junk 42 two_jobs ≡ ok (2, u)) × IsRegistered two_jobs 42 2 u
add_job_registers_example =
    add_job_registers false false junk 42 2 two_jobs two_jobs-IsValid (λ e. cc) (omega arith)
      IsAbsent-42 IsFirst-free

abbrev three_jobs : Table
three_jobs = record {
  capacity = 255;
  jobs = some (record { size = 1024; cell = update cells 2 42 });
}

add_42 : add_job false false junk 42 two_jobs ≡ ok (2, three_jobs)
unfolding add_job first_block scan
add_42 = refl

delete_job_by_pid-add_job_example :
    (w : Table) × (delete_job_by_pid 42 three_jobs ≡ ok w)
    × IsValid w
    × ((j : ℕ) → pid_at w j ≡ pid_at two_jobs j)
delete_job_by_pid-add_job_example =
    delete_job_by_pid-add_job false false junk 42 2 two_jobs three_jobs two_jobs-IsValid (λ e. cc)
      (omega arith) IsAbsent-42 IsFirst-free add_42

get_job_id_lem_instance :
    (id : ℕ) × (get_job_id 41 two_jobs ≡ ok id)
    × (((id ≢ 0) × IsFirst two_jobs 41 id) ⊎ ((id ≡ 0) × IsAbsent two_jobs 41))
get_job_id_lem_instance = get_job_id_lem 41 two_jobs two_jobs-IsValid (omega arith)

delete_job_by_pid_lem_instance :
    (u : Table) × (delete_job_by_pid 41 two_jobs ≡ ok u)
    × IsValid u
    × (((id : ℕ) × IsFirst two_jobs 41 id × Stores two_jobs id 0 u)
        ⊎ (IsAbsent two_jobs 41 × (u ≡ two_jobs)))
delete_job_by_pid_lem_instance = delete_job_by_pid_lem 41 two_jobs two_jobs-IsValid (omega arith)

add_job_full_example : add_job false true junk 50 full ≡ fault
add_job_full_example =
    add_job_full junk false 50 full (omega arith) (λ e. cc) (λ j p q. omega arith)
