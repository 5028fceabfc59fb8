-- ===== src/Multithread/Loops.antt =====
-- lab5/multithread6.c and lab5/multithread7.c: threads that loop under a mutex or under a
-- reader-writer lock, one access of a byte at a time. A third thread looks at the string: `main` of
-- multithread6.c under the mutex, `count_capitalized` of multithread7.c as a reader, and `main` of
-- multithread7.c under no lock. The runs begin when
-- `init_sync` returns.
pub mod Serial
pub mod Orbit
pub mod Shown
pub mod Counted
mod Tests
use syssoft_labs.Prelude.{
  ℕ, zero, suc, ◌+◌, ◌≡◌, Bool, true, false, Option, none, some, List, [], ◌∷◌, ◌++◌, leb, ◌==◌,
  if◌then◌else◌,
}
use syssoft_labs.Prelude.CString.{CString}
use syssoft_labs.Prelude.Family.{update}
use syssoft_labs.Multithread.Code.{Memory, Code, done, load, store}

-- Which lock the third thread takes.
pub data Guard : Type 0 where
  mutex reader unguarded : Guard

-- Who has the lock: nobody, so many readers, or one thread alone.
pub data Held : Type 0 where
  free : Held
  shared : ℕ → Held
  exclusive : Held

-- `pthread_mutex_lock` and `pthread_rwlock_wrlock`; a call that blocks gives `none`.
unfoldable pub wlock : Held → Option Held
wlock free = some exclusive
wlock (shared n) = none
wlock exclusive = none

unfoldable pub rlock : Held → Option Held
rlock free = some (shared 1)
rlock (shared n) = some (shared (n + 1))
rlock exclusive = none

-- `pthread_mutex_unlock` and `pthread_rwlock_unlock`
unfoldable pub unlock_held : Held → Held
unlock_held free = free
unlock_held exclusive = free
unlock_held (shared zero) = free
unlock_held (shared (suc zero)) = free
unlock_held (shared (suc (suc n))) = shared (suc n)

unfoldable pub take_lock : Guard → Held → Option Held
take_lock mutex h = wlock h
take_lock reader h = rlock h
take_lock unguarded h = some h

unfoldable pub give_back : Guard → Held → Held
give_back mutex h = unlock_held h
give_back reader h = unlock_held h
give_back unguarded h = h

-- Code that only loads, and has a result.
pub data Reading (A : Type 0) : Type 0 where
  ret : A → Reading A
  look : ℕ → (ℕ → Reading A) → Reading A

abbrev pub read_all : {A : Type 0} → Reading A → Memory → A
read_all (ret a) m = a
read_all (look i k) m = read_all (k (m i)) m

-- `puts(toy)`: the bytes before the NUL, `rounds` bytes at most.
unfoldable pub puts : (rounds i : ℕ) → CString → Reading CString
puts zero i shown = ret shown
puts (suc n) i shown =
    look i λ c. elim (c == 0) [ true ↦ ret shown | false ↦ puts n (i + 1) (shown ++ c ∷ []) ]

-- The loop of `count_capitalized`; each `toy[i]` of the source is a load.
unfoldable pub count_capitalized : (rounds i cnt : ℕ) → Reading ℕ
count_capitalized zero i cnt = ret cnt
count_capitalized (suc n) i cnt = look i λ a. elim (leb b'A' a) [
  | true ↦ look i (λ b. count_capitalized n (i + 1) (cnt + (if leb b b'Z' then 1 else 0)))
  | false ↦ count_capitalized n (i + 1) cnt
]

-- A thread that edits: in front of its `lock`, or behind it with the code that is left.
pub data Writer : Type 0 where
  idle : Writer
  editing : Code → Writer

pub data Reader (A : Type 0) : Type 0 where
  resting : Reader A
  looking : Reading A → Reader A

-- One step of a thread with the body `p`: the string and the lock before and after.
pub data WriterMove (p : Code) (m : Memory) (h : Held)
    : Writer → Memory → Held → Writer → Type 0 where
  begin : {h' : Held} → wlock h ≡ some h' → WriterMove p m h idle m h' (editing p)
  loads : {a : ℕ} {k : ℕ → Code} → WriterMove p m h (editing (load a k)) m h (editing (k (m a)))
  stores :
      {a b : ℕ} {c : Code} → WriterMove p m h (editing (store a b c)) (update m a b) h (editing c)
  ends : WriterMove p m h (editing done) m (unlock_held h) idle

-- The string, the lock, the threads, and the results of the third one so far.
pub record World (A : Type 0) : Type 0 where
  pub memory : Memory
  pub held : Held
  pub first : Writer
  pub second : Writer
  pub third : Reader A
  pub results : List A

module _ {A : Type 0} where
  pub data ReaderMove (g : Guard) (body : Reading A) (x : World A) : World A → Type 0 where
    begins :
        {h : Held}
        → x.third ≡ resting
        → take_lock g x.held ≡ some h
        → ReaderMove g body x (record x { held = h; third = looking body })
    looks :
        {i : ℕ} {k : ℕ → Reading A}
        → x.third ≡ looking (look i k)
        → ReaderMove g body x (record x { third = looking (k (x.memory i)) })
    shows :
        {a : A}
        → x.third ≡ looking (ret a)
        → ReaderMove g body x
            (record x { held = give_back g x.held; third = resting; results = x.results ++ a ∷ [] })

  pub data WorldStep (g : Guard) (p q : Code) (body : Reading A) (x : World A)
      : World A → Type 0 where
    first_moves :
        {m : Memory} {h : Held} {t : Writer}
        → WriterMove p x.memory x.held x.first m h t
        → WorldStep g p q body x (record x { memory = m; held = h; first = t })
    second_moves :
        {m : Memory} {h : Held} {t : Writer}
        → WriterMove q x.memory x.held x.second m h t
        → WorldStep g p q body x (record x { memory = m; held = h; second = t })
    third_moves : {y : World A} → ReaderMove g body x y → WorldStep g p q body x y

  pub data Runs (g : Guard) (p q : Code) (body : Reading A) (x : World A) : World A → Type 0 where
    here : Runs g p q body x x
    then_step :
        {y z : World A} → Runs g p q body x y → WorldStep g p q body y z → Runs g p q body x z

  -- The string `m`, the lock and the threads when `init_sync` returns, where no thread has called `lock`
  -- before. The source starts the threads before it calls `init_sync`, and does not ensure this.
  abbrev pub after_init_sync : Memory → World A
  after_init_sync m = record {
    memory = m;
    held = free;
    first = idle;
    second = idle;
    third = resting;
    results = [];
  }
