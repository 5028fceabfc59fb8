-- ===== src/Multithread/Threads.antt =====
-- lab5/multithread.c: one round of `main`: two threads are created, and run in any order, one
-- access at a time; both are joined when each has finished.
pub mod Serial
pub mod Rounds
pub mod Progress
pub mod Termination
mod Tests
use syssoft_labs.Prelude.{ℕ, ◌≡◌, some}
use syssoft_labs.Multithread.Code.{Memory, Code, done, load, store}
use syssoft_labs.Multithread.Sync.{SyncType, lock, unlock, init_sync}
use syssoft_labs.Multithread.Passes.{reverse, change_register}
use syssoft_labs.Prelude.Family.{update}

-- A thread before its `lock`, between `lock` and `unlock` with the code that is left, and at its end.
pub data Thread : Type 0 where
  waiting : Code → Thread
  inside : Code → Thread
  finished : Thread

-- One step of a thread: the string and the counter before and after.
pub data Move (s : SyncType) (m : Memory) (v : ℕ) : Thread → Memory → ℕ → Thread → Type 0 where
  enter : {c : Code} {w : ℕ} → lock s v ≡ some w → Move s m v (waiting c) m w (inside c)
  read : {a : ℕ} {k : ℕ → Code} → Move s m v (inside (load a k)) m v (inside (k (m a)))
  write : {a b : ℕ} {c : Code} → Move s m v (inside (store a b c)) (update m a b) v (inside c)
  leave : Move s m v (inside done) m (unlock s v) finished

pub record System : Type 0 where
  pub memory : Memory
  pub counter : ℕ
  pub first : Thread
  pub second : Thread

pub data Step (s : SyncType) (x : System) : System → Type 0 where
  by_first :
      {m : Memory} {v : ℕ} {t : Thread}
      → Move s x.memory x.counter x.first m v t
      → Step s x (record { memory = m; counter = v; first = t; second = x.second })
  by_second :
      {m : Memory} {v : ℕ} {t : Thread}
      → Move s x.memory x.counter x.second m v t
      → Step s x (record { memory = m; counter = v; first = x.first; second = t })

-- the two threads just created, over the string `m` of `len` bytes
abbrev pub init : SyncType → (len : ℕ) → Memory → System
init s len m = record {
  memory = m;
  counter = init_sync s;
  first = waiting (reverse len);
  second = waiting (change_register len);
}

pub data Reach (s : SyncType) (x : System) : System → Type 0 where
  start : Reach s x x
  later : {y z : System} → Reach s x y → Step s y z → Reach s x z
