-- ===== src/Multithread/Loops/Tests.antt =====
-- lab5/multithread6.c and lab5/multithread7.c: reachable states by evaluation, and the theorems at them.
use mathlib.Core.List.{foldl}
use syssoft_labs.Prelude.{
  ℕ, zero, suc, ◌<◌, ◌≡◌, refl, Bool, true, Option, none, some, List, [], ◌∷◌, All, arith,
}
use syssoft_labs.Prelude.CString.{bytes, byte_at}
use syssoft_labs.Multithread.Code.{Memory, Code, done, load, store, repeat}
use syssoft_labs.Multithread.Passes.{
  reverse, change_register, change_letters, swaps, change, change_letter, changes,
}
use syssoft_labs.Multithread.Effect.{toggle}
use syssoft_labs.Multithread.Threads.Rounds.{is_letter}
use syssoft_labs.Multithread.Loops.{
  Guard, mutex, reader, unguarded, Held, wlock, rlock, take_lock, give_back, unlock_held, Reading,
  ret, look, puts, count_capitalized, Writer, idle, editing, Reader, resting, looking, WriterMove,
  begin, loads, stores, ends, World, ReaderMove, begins, looks, shows, first_moves, second_moves,
  third_moves, Runs, here, then_step, after_init_sync,
}
use syssoft_labs.Multithread.Loops.Orbit.{variant}
use syssoft_labs.Multithread.Loops.Shown.{text, shown_whole}
use syssoft_labs.Multithread.Loops.Counted.{IsCounted, count_capitalized_lem}

answer : (o : Option Held) → Option ((h : Held) × (o ≡ some h))
answer none = none
answer (some h) = some (h, refl)

-- The next step of a thread that edits, and of the third thread, if it has one.
next_edit :
    (p : Code) (m : Memory) (h : Held) (t : Writer)
    → Option ((m' : Memory) × (h' : Held) × (t' : Writer) × WriterMove p m h t m' h' t')
next_edit p m h idle = elim (answer (wlock h)) [
  | none ↦ none
  | some (h', e) ↦ some (m, h', editing p, begin e)
]
next_edit p m h (editing done) = some (_, _, _, ends)
next_edit p m h (editing (load a k)) = some (_, _, _, loads)
next_edit p m h (editing (store a b c)) = some (_, _, _, stores)

next_look :
    {A : Type 0} (g : Guard) (body : Reading A) (x : World A) (t : Reader A)
    → x.third ≡ t
    → Option ((y : World A) × ReaderMove g body x y)
next_look g body x resting e = elim (answer (take_lock g x.held)) [
  | none ↦ none
  | some (h', e') ↦ some (_, begins e e')
]
next_look g body x (looking (ret a)) e = some (_, shows e)
next_look g body x (looking (look i k)) e = some (_, looks e)

record Schedule {A : Type 0} (g : Guard) (p q : Code) (body : Reading A) (m : Memory) : Type 0 where
  last : World A
  open last use *
  reach : Runs g p q body (after_init_sync m) last

-- A step of thread 0, 1 or 2; none if that thread waits.
turn :
    {A : Type 0} {g : Guard} {p q : Code} {body : Reading A} {m : Memory}
    → Schedule g p q body m
    → ℕ
    → Schedule g p q body m
unfolding next_edit next_look answer
turn {p = p} r zero = elim (next_edit p r.memory r.held r.first) [
  | none ↦ r
  | some (m', h, t, mv) ↦ record { last = _; reach = then_step r.reach (first_moves mv) }
]
turn {q = q} r (suc zero) = elim (next_edit q r.memory r.held r.second) [
  | none ↦ r
  | some (m', h, t, mv) ↦ record { last = _; reach = then_step r.reach (second_moves mv) }
]
turn {g = g} {body = body} r (suc (suc n)) = elim (next_look g body r.last r.third refl) [
  | none ↦ r
  | some (y, mv) ↦ record { last = _; reach = then_step r.reach (third_moves mv) }
]

abbrev times : ℕ → ℕ → List ℕ → List ℕ
times zero b bs = bs
times (suc n) b bs = b ∷ times n b bs

run_schedule :
    {A : Type 0} (g : Guard) (p q : Code) (body : Reading A) (m : Memory)
    → List ℕ
    → Schedule g p q body m
unfolding turn
run_schedule g p q body m = foldl turn (record { last = after_init_sync m; reach = here })

abbrev toy : Memory
toy i = byte_at (bytes "aB") i

-- The third thread waits for the first one, and shows the string; then the second one, and again.
abbrev shown_twice : Schedule mutex (reverse 2) (change_register 2) (puts 3 0 []) toy
shown_twice =
    run_schedule mutex (reverse 2) (change_register 2) (puts 3 0 []) toy
      (times 7 0 (times 3 2 (times 15 0 (times 5 2 (times 42 1 (times 5 2 []))))))

shown_results : shown_twice.results ≡ bytes "Ba" ∷ bytes "bA" ∷ []
unfolding run_schedule reverse change_register repeat swaps changes change wlock take_lock give_back
    unlock_held puts
shown_results = refl

toy_letters : (k : ℕ) → k < 2 → is_letter (toy k) ≡ true
toy_letters zero h = refl
toy_letters (suc zero) h = refl
toy_letters (suc (suc k)) h = absurd (omega arith)

shown_whole_example :
    All
      (λ a. (t : Bool) × (c : Bool) × (a ≡ text 2 0 (variant toggle 2 t c toy)))
      shown_twice.results
shown_whole_example = shown_whole 2 toy shown_twice.last toy_letters refl shown_twice.reach

-- Under no lock, as in `main` of multithread7.c, a string is shown that was never whole.
abbrev shown_torn : Schedule unguarded (reverse 2) (change_letters 2) (puts 3 0 []) toy
shown_torn =
    run_schedule unguarded (reverse 2) (change_letters 2) (puts 3 0 []) toy
      (times 2 2 (times 22 0 (times 3 2 [])))

torn_results : shown_torn.results ≡ bytes "aa" ∷ []
unfolding run_schedule reverse change_letters repeat swaps changes change_letter wlock take_lock
    give_back unlock_held puts
torn_results = refl

abbrev counted : Schedule reader (reverse 2) (change_letters 2) (count_capitalized 2 0 0) toy
counted =
    run_schedule reader (reverse 2) (change_letters 2) (count_capitalized 2 0 0) toy
      (times 7 0 (times 3 2 (times 15 0 (times 6 2 []))))

counted_results : counted.results ≡ 1 ∷ []
unfolding run_schedule reverse change_letters repeat swaps changes change_letter wlock rlock
    take_lock give_back unlock_held count_capitalized
counted_results = refl

count_capitalized_lem_example : All (IsCounted 2 toy) counted.results
count_capitalized_lem_example = count_capitalized_lem 2 toy counted.last counted.reach
