-- ===== src/Kcsh/Job/Laws.antt =====
-- lab4/job.c: what the operations do to the ids and pids of a table.
use syssoft_labs.Prelude.{
  ℕ, ◌+◌, ◌*◌, ◌≤◌, ◌<◌, ◌≡◌, ◌≢◌, refl, inl, inr, Bool, true, Option, none, some, arith, ◌==◌,
  dec_lt, sym, ◌∙◌, ◌⊎◌, ==_iff,
}
use syssoft_labs.Prelude.Family.{update}
use syssoft_labs.Kcsh.Outcome.{ok}
use syssoft_labs.Kcsh.Job.{
  Block, Table, scan, first_block, add_job, get_job, get_job_id, delete_job_by_pid,
}
use syssoft_labs.Kcsh.Job.Scan.{Scanned, scan_lem, Fits, IsValid, pid_in, pid_at, IsFirst, IsAbsent}

abbrev table : ℕ → Option Block → Table
table c o = record { capacity = c; jobs = o }

-- `u` is `t` with `pid` under `id`, and the same capacity.
pub record Stores (t : Table) (id pid : ℕ) (u : Table) : Type 0 where
  pub cells : (j : ℕ) → pid_at u j ≡ update (pid_at t) id pid j
  pub capacity : u.capacity ≡ t.capacity
  pub valid : IsValid u

-- A scan that finds the first cell with `pid` stops there; one that finds none goes past the end.
first-eq :
    {c pid k id : ℕ} (b : Block)
    → Scanned (λ v. v == pid) c 1 b k
    → IsFirst (table c (some b)) pid id
    → k ≡ id
first-eq {pid} {k} {id} b s f =
    ground (arith, s.missed id, s.found, s.above, f.earlier k, f.holds, f.positive, f.in_range)

pub scan-first :
    {c pid id : ℕ} (b : Block)
    → Fits c (some b)
    → IsFirst (table c (some b)) pid id
    → scan (λ v. v == pid) c 1 b ≡ ok id
scan-first {c} {pid} b fits f =
    let (k, s) = scan_lem (λ v. v == pid) c 1 b (omega arith) in
    ground (arith, s.runs, first-eq b s f)

pub scan-absent :
    {c pid : ℕ} (b : Block)
    → Fits c (some b)
    → IsAbsent (table c (some b)) pid
    → scan (λ v. v == pid) c 1 b ≡ ok (c + 1)
scan-absent {c} {pid} b fits a =
    let (k, s) = scan_lem (λ v. v == pid) c 1 b (omega arith) in
    ground (arith, s.runs, s.above, s.below, s.found, a k)

-- Before the first job `calloc` answers; a table that has a block needs no memory.
abbrev pub Granted : Table → Bool → Type 0
Granted t granted = t.jobs ≡ none → granted ≡ true

-- The block that `add_job` works on holds the pids of the table.
pub record Holds (t : Table) (b : Block) : Type 0 where
  pub fits : Fits t.capacity (some b)
  pub cells : (j : ℕ) → b.cell j ≡ pid_at t j

first_block_cases :
    (c : ℕ) (o : Option Block) (granted : Bool)
    → Fits c o
    → Granted (table c o) granted
    → (b : Block) × (first_block granted (table c o) ≡ ok b) × Holds (table c o) b
unfolding first_block
first_block_cases c none granted v g = (
  record { size = (c + 1) * 4; cell = λ _. 0 },
  rw (g refl),
  record { fits = omega arith; cells = λ j. refl },
)
first_block_cases c (some b) granted v g = (b, refl, record { fits = v; cells = λ j. refl })

pub first_block_lem :
    (t : Table) (granted : Bool)
    → IsValid t
    → Granted t granted
    → (b : Block) × (first_block granted t ≡ ok b) × Holds t b
first_block_lem t granted v g = first_block_cases t.capacity t.jobs granted v.fits g

Holds-IsFirst :
    {t : Table} {b : Block} {pid id : ℕ}
    → Holds t b
    → IsFirst t pid id
    → IsFirst (table t.capacity (some b)) pid id
Holds-IsFirst {id} h f = record {
  positive = f.positive;
  in_range = f.in_range;
  holds = h.cells id ∙ f.holds;
  earlier = λ j p q e. f.earlier j p q (sym (h.cells j) ∙ e);
}

-- `add_job` takes the smallest free id, stores the pid there and changes nothing else.
pub add_job_lem :
    (granted granted' : Bool) (junk : ℕ → ℕ) (pid id : ℕ) (t : Table)
    → IsValid t
    → Granted t granted
    → IsFirst t 0 id
    → (u : Table) × (add_job granted granted' junk pid t ≡ ok (id, u)) × Stores t id pid u
unfolding add_job
add_job_lem granted granted' junk pid id t v g f =
    let (b, made, h) = first_block_lem t granted v g in
    (
      table t.capacity (some (record b { cell = update b.cell id pid })),
      ground (arith, made, scan-first b h.fits (Holds-IsFirst h f), f.in_range, h.fits),
      record {
        cells = λ j. ground (arith, h.cells j);
        capacity = refl;
        valid = record { positive = v.positive; fits = h.fits };
      },
    )

-- `get_job_id` finds the smallest id of a pid.
get_job_id_cases :
    (c : ℕ) (o : Option Block) (pid id : ℕ)
    → Fits c o
    → pid ≢ 0
    → IsFirst (table c o) pid id
    → get_job_id pid (table c o) ≡ ok id
unfolding get_job_id
get_job_id_cases c none pid id v p f = absurd (p (sym f.holds))
get_job_id_cases c (some b) pid id v p f = ground (arith, scan-first b v f, f.holds, f.in_range)

get_job_id_absent_cases :
    (c : ℕ) (o : Option Block) (pid : ℕ)
    → Fits c o
    → IsAbsent (table c o) pid
    → get_job_id pid (table c o) ≡ ok 0
unfolding get_job_id
get_job_id_absent_cases c none pid v a = refl
get_job_id_absent_cases c (some b) pid v a = ground (arith, scan-absent b v a)

-- `delete_job_by_pid` frees the smallest id of a pid.
delete_cases :
    (c : ℕ) (o : Option Block) (pid id : ℕ)
    → Fits c o
    → 0 < c
    → pid ≢ 0
    → IsFirst (table c o) pid id
    → (u : Table) × (delete_job_by_pid pid (table c o) ≡ ok u) × Stores (table c o) id 0 u
unfolding delete_job_by_pid
delete_cases c none pid id v n p f = absurd (p (sym f.holds))
delete_cases c (some b) pid id v n p f = (
  table c (some (record b { cell = update b.cell id 0 })),
  ground (arith, scan-first b v f, f.in_range),
  record { cells = λ j. refl; capacity = refl; valid = record { positive = n; fits = v } },
)

delete_absent_cases :
    (c : ℕ) (o : Option Block) (pid : ℕ)
    → Fits c o
    → IsAbsent (table c o) pid
    → delete_job_by_pid pid (table c o) ≡ ok (table c o)
unfolding delete_job_by_pid
delete_absent_cases c none pid v a = refl
delete_absent_cases c (some b) pid v a = ground (arith, scan-absent b v a)

pub get_job_id_first :
    (pid id : ℕ) (t : Table) → IsValid t → pid ≢ 0 → IsFirst t pid id → get_job_id pid t ≡ ok id
get_job_id_first pid id t v = get_job_id_cases t.capacity t.jobs pid id v.fits

pub get_job_id_absent : (pid : ℕ) (t : Table) → IsValid t → IsAbsent t pid → get_job_id pid t ≡ ok 0
get_job_id_absent pid t v = get_job_id_absent_cases t.capacity t.jobs pid v.fits

pub delete_first :
    (pid id : ℕ) (t : Table)
    → IsValid t
    → pid ≢ 0
    → IsFirst t pid id
    → (u : Table) × (delete_job_by_pid pid t ≡ ok u) × Stores t id 0 u
delete_first pid id t v = delete_cases t.capacity t.jobs pid id v.fits v.positive

pub delete_absent :
    (pid : ℕ) (t : Table) → IsValid t → IsAbsent t pid → delete_job_by_pid pid t ≡ ok t
delete_absent pid t v = delete_absent_cases t.capacity t.jobs pid v.fits

get_job_cases :
    (c : ℕ) (o : Option Block) (id : ℕ)
    → Fits c o
    → id ≤ c
    → get_job id (table c o) ≡ ok (pid_in o id)
unfolding get_job
get_job_cases c none id v h = refl
get_job_cases c (some b) id v h = ground arith

-- `get_job` of an id in range is the pid in its cell.
pub get_job-pid_at :
    (id : ℕ) (t : Table) → IsValid t → id ≤ t.capacity → get_job id t ≡ ok (pid_at t id)
get_job-pid_at id t v = get_job_cases t.capacity t.jobs id v.fits

search_cases :
    (c : ℕ) (o : Option Block) (pid : ℕ)
    → Fits c o
    → pid ≢ 0
    → ((id : ℕ) × IsFirst (table c o) pid id) ⊎ IsAbsent (table c o) pid
search_cases c none pid v p = inr (λ j a b e. p (sym e))
search_cases c (some b) pid v p =
    let (k, s) = scan_lem (λ v. v == pid) c 1 b (omega arith) in
    elim (dec_lt c k) [
      | no h ↦ inl (
        k,
        record {
          positive = s.above;
          in_range = omega arith;
          holds = (==_iff _ pid).0 (s.found (omega arith));
          earlier = λ j x y. ground (arith, s.missed j);
        },
      )
      | yes h ↦ inr (λ j x y. ground (arith, s.missed j))
    ]

-- A pid has a smallest id, or none.
pub IsFirst-or_IsAbsent :
    (pid : ℕ) (t : Table) → IsValid t → pid ≢ 0 → ((id : ℕ) × IsFirst t pid id) ⊎ IsAbsent t pid
IsFirst-or_IsAbsent pid t v = search_cases t.capacity t.jobs pid v.fits
