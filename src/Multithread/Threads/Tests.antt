-- ===== src/Multithread/Threads/Tests.antt =====
-- lab5/multithread.c: reachable states by evaluation, and the theorems at them.
use mathlib.Core.List.{foldl}
use syssoft_labs.Prelude.{
  ℕ, zero, suc, ◌-◌, ◌<◌, ◌≡◌, ◌≢◌, refl, ◌⊎◌, Bool, true, false, Option, none, some, List, [], ◌∷◌,
  arith, ltb, if◌then◌else◌,
}
use syssoft_labs.Multithread.Code.{Memory, done, load, store, repeat, iterate}
use syssoft_labs.Multithread.Passes.{reverse, change_register, swaps, change, changes}
use syssoft_labs.Multithread.Effect.{toggle}
use syssoft_labs.Multithread.Sync.{
  SyncType, sem, ipc_sem, unsynchronized, init_sync, lock, unlock, choose_sync,
}
use syssoft_labs.Prelude.CString.{bytes, same}
use syssoft_labs.Multithread.Threads.{
  Thread, waiting, inside, finished, Move, enter, read, write, leave, System, Step, by_first,
  by_second, init, Reach, start, later,
}
use syssoft_labs.Multithread.Threads.Rounds.{
  is_inside, is_letter, mutual_exclusion, round_result, round_result_letters,
}
use syssoft_labs.Multithread.Threads.Progress.{no_deadlock}
use syssoft_labs.Multithread.Threads.Termination.{Halts, Completes, round_terminates}

answer : (o : Option ℕ) → Option ((w : ℕ) × (o ≡ some w))
answer none = none
answer (some w) = some (w, refl)

-- The next step of a thread, if it has one.
next :
    (s : SyncType) (m : Memory) (v : ℕ) (t : Thread)
    → Option ((m' : Memory) × (w : ℕ) × (t' : Thread) × Move s m v t m' w t')
next s m v (waiting c) = elim (answer (lock s v)) [
  | none ↦ none
  | some (w, e) ↦ some (m, w, inside c, enter e)
]
next s m v (inside done) = some (_, _, _, leave)
next s m v (inside (load a k)) = some (_, _, _, read)
next s m v (inside (store a b c)) = some (_, _, _, write)
next s m v finished = none

record Run (s : SyncType) (x : System) : Type 0 where
  last : System
  open last use *
  reach : Reach s x last

-- A step of the first thread on `true`, of the second on `false`; none if that thread waits.
turn : {s : SyncType} {x : System} → Run s x → Bool → Run s x
unfolding next answer
turn {s} r true = elim (next s r.memory r.counter r.first) [
  | none ↦ r
  | some (m, w, t, mv) ↦ record { last = _; reach = later r.reach (by_first mv) }
]
turn {s} r false = elim (next s r.memory r.counter r.second) [
  | none ↦ r
  | some (m, w, t, mv) ↦ record { last = _; reach = later r.reach (by_second mv) }
]

abbrev times : ℕ → Bool → List Bool → List Bool
times zero b bs = bs
times (suc n) b bs = b ∷ times n b bs

run_schedule : (s : SyncType) (x : System) → List Bool → Run s x
unfolding turn
run_schedule s x = foldl turn (record { last = x; reach = start })

-- The two bytes "aB".
abbrev toy : Memory
toy i = if ltb i 1 then b'a' else b'B'

-- Both threads take turns; the second waits until the first has left.
abbrev both_done : Run sem (init sem 2 toy)
both_done =
    run_schedule sem (init sem 2 toy)
      (times 5 true (times 9 false (times 22 true (times 60 false []))))

both_finished :
    (both_done.first ≡ finished)
    × (both_done.second ≡ finished)
    × (both_done.memory 0 ≡ b'b')
    × (both_done.memory 1 ≡ b'A')
unfolding run_schedule reverse change_register repeat swaps changes change lock unlock init_sync
both_finished = (refl, refl, refl, refl)

-- Without synchronization an edit is lost: the second thread goes on with a byte that it read
-- before the first thread moved it.
abbrev raced : Run unsynchronized (init unsynchronized 2 toy)
raced =
    run_schedule unsynchronized (init unsynchronized 2 toy)
      (times 4 false (times 22 true (times 60 false [])))

update_lost :
    (raced.first ≡ finished)
    × (raced.second ≡ finished)
    × (raced.memory 0 ≡ b'A')
    × (raced.memory 1 ≡ b'A')
unfolding run_schedule reverse change_register repeat swaps changes change lock unlock init_sync
update_lost = (refl, refl, refl, refl)

chosen :
    (choose_sync (bytes "./multithread") (bytes "ipc" ∷ []) ≡ some ipc_sem)
    × (choose_sync (bytes "bin/multithread5") [] ≡ some ipc_sem)
    × (choose_sync (bytes "multithread4") [] ≡ some sem)
    × (choose_sync (bytes "multithread") [] ≡ none)
    × (choose_sync (bytes "multithread") (bytes "none" ∷ []) ≡ some unsynchronized)
unfolding choose_sync same
chosen = (refl, refl, refl, refl, refl)

semaphore : sem ≢ unsynchronized
semaphore e = cc

-- The first thread is inside, the second waits.
abbrev halfway : Run sem (init sem 2 toy)
halfway = run_schedule sem (init sem 2 toy) (times 5 true (times 3 false []))

mutual_exclusion_example : ¬ ((is_inside halfway.first ≡ true) × (is_inside halfway.second ≡ true))
mutual_exclusion_example = mutual_exclusion semaphore 2 toy halfway.reach

round_result_example :
    both_done.memory 0 ≡ (if ltb 0 2 then iterate 5 toggle (toy (2 - 1 - 0)) else toy 0)
unfolding run_schedule reverse change_register repeat swaps changes change lock unlock init_sync
round_result_example = round_result semaphore 2 toy both_done.reach refl refl 0

toy_letters : (k : ℕ) → k < 2 → is_letter (toy k) ≡ true
toy_letters zero h = refl
toy_letters (suc zero) h = refl
toy_letters (suc (suc k)) h = absurd (omega arith)

toggles_letters : both_done.memory 1 ≡ toggle (toy 0)
unfolding run_schedule reverse change_register repeat swaps changes change lock unlock init_sync
toggles_letters =
    round_result_letters semaphore 2 toy both_done.reach toy_letters refl refl 1 (omega arith)

no_deadlock_instance :
    ((halfway.first ≡ finished) × (halfway.second ≡ finished))
    ⊎ ((y : System) × Step sem halfway.last y)
no_deadlock_instance = no_deadlock semaphore 2 toy halfway.reach

round_terminates_example : Halts sem halfway.first halfway.second × Completes sem halfway.last
round_terminates_example = round_terminates semaphore 2 toy halfway.reach
