-- ===== src/Kcsh/Job.antt =====
-- lab4/job.c: the table of background jobs. `jobs` is a block of `pid_t` cells, `none` before the
-- first job. A cell may be read or written only if its four bytes lie inside the block.
pub mod Scan
pub mod Laws
pub mod Registry
mod Tests
use syssoft_labs.Prelude.{
  ℕ, zero, suc, ◌+◌, ◌-◌, ◌*◌, Bool, Option, none, some, ltb, leb, ◌==◌, if◌then◌else◌,
}
use syssoft_labs.Prelude.Family.{update}
use syssoft_labs.Kcsh.Outcome.{Outcome, ok, fault, ◌>>=◌, ◌>>◌, try_alloc}

-- a block of `size` bytes read as cells of `sizeof(pid_t)` bytes; pids are not negative
pub record Block : Type 0 where
  pub size : ℕ
  pub cell : ℕ → ℕ

-- the static variables of job.c
pub record Table : Type 0 where
  pub capacity : ℕ
  pub jobs : Option Block

abbrev pub pid_size : ℕ
pid_size = 4

abbrev pub inside : Block → ℕ → Bool
inside b i = leb (pid_size * (i + 1)) b.size

-- `jobs[i]` as a value
abbrev pub read : Block → ℕ → Outcome ℕ
read b i = if inside b i then ok (b.cell i) else fault

-- `jobs[i] = v`
abbrev pub write : Block → ℕ → ℕ → Outcome Block
write b i v = if inside b i then ok (record b { cell = update b.cell i v }) else fault

-- before the first job: `jobs_capacity` is 255 and `jobs` is NULL
abbrev pub start : Table
start = record { capacity = 255; jobs = none }

-- `for (; i <= capacity && !hit(jobs[i]); ++i);` with `rounds` cells left: the `i` where it stops
pub scan : (ℕ → Bool) → (rounds i : ℕ) → Block → Outcome ℕ
scan hit zero i b = ok i
scan hit (suc n) i b =
    let rest = scan hit n (i + 1) b in read b i >>= λ v. if hit v then ok i else rest

-- `for (j = i; j <= capacity; ++j) jobs[j] = 0;`
pub clear_from : (rounds j : ℕ) → Block → Outcome Block
clear_from zero j b = ok b
clear_from (suc n) j b = write b j 0 >>= clear_from n (j + 1)

-- `realloc`: the cells that lay inside the old block are kept, the others hold `junk`.
pub grow : (junk : ℕ → ℕ) → ℕ → Block → Block
grow junk size b = record { size = size; cell = λ i. if inside b i then b.cell i else junk i }

-- The request is `sizeof(pid_t)*jobs_capacity+1` bytes.
pub enlarge : (granted : Bool) (junk : ℕ → ℕ) → Table → ℕ → Block → Outcome (Table × Block)
enlarge granted junk t i b =
    let capacity = t.capacity * 2 in
    do
      try_alloc granted
      b' ← clear_from (capacity + 1 - i) i (grow junk (pid_size * capacity + 1) b)
      ok (record t { capacity = capacity }, b')

-- The block that `jobs` points at; the first call allocates it, with `calloc`.
pub first_block : (granted : Bool) → Table → Outcome Block
first_block granted t = elim t.jobs [
  | none ↦ do try_alloc granted; ok (record { size = (t.capacity + 1) * pid_size; cell = λ _. 0 })
  | some b ↦ ok b
]

-- `granted` and `junk` are what the allocator answers: to `calloc`, to `realloc`, and the contents
-- of the memory that `realloc` adds.
pub add_job :
    (calloc_granted realloc_granted : Bool) (junk : ℕ → ℕ) → (pid : ℕ) → Table → Outcome (ℕ × Table)
add_job calloc_granted realloc_granted junk pid t = do
  b ← first_block calloc_granted t
  i ← scan (λ v. v == 0) t.capacity 1 b
  (t', b') ← if ltb t.capacity i then enlarge realloc_granted junk t i b else ok (t, b)
  b'' ← write b' i pid
  ok (i, record t' { jobs = some b'' })

pub get_job : ℕ → Table → Outcome ℕ
get_job id t = elim t.jobs [ none ↦ ok 0 | some b ↦ if ltb t.capacity id then ok 0 else read b id ]

pub get_job_id : ℕ → Table → Outcome ℕ
get_job_id pid t = elim t.jobs [
  | none ↦ ok 0
  | some b ↦ do
    i ← scan (λ v. v == pid) t.capacity 1 b
    if ltb t.capacity i then ok 0 else (read b i >>= λ v. ok (if v == pid then i else 0))
]

pub delete_job_by_id : ℕ → Table → Outcome Table
delete_job_by_id id t = elim t.jobs [
  | none ↦ ok t
  | some b ↦
      if ltb t.capacity id then ok t else (write b id 0 >>= λ b'. ok (record t { jobs = some b' }))
]

-- The loop returns at the first cell that holds `pid`.
pub delete_job_by_pid : ℕ → Table → Outcome Table
delete_job_by_pid pid t = elim t.jobs [
  | none ↦ ok t
  | some b ↦ do
    i ← scan (λ v. v == pid) t.capacity 1 b
    if ltb t.capacity i then ok t else (write b i 0 >>= λ b'. ok (record t { jobs = some b' }))
]
