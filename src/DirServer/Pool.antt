-- ===== src/DirServer/Pool.antt =====
-- lab6/server.c: the pool of worker threads and the main thread, interleaved in any order. A block
-- between `pthread_mutex_lock` and `pthread_mutex_unlock` is one step, and `queue_dequeue` is two. The queue is seen through the
-- contract of DirServer.Queue: it holds at most one client.
pub mod Count
pub mod Safety
mod Tests
use syssoft_labs.Prelude.{
  ℕ, zero, suc, ◌+◌, ◌-◌, ◌%◌, ◌^◌, ◌≤◌, ◌≡◌, Bool, true, false, Option, none, some, List, [], ◌∷◌,
  ◌++◌, ltb, leb, ◌==◌, ◌&&◌, if◌then◌else◌,
}
use syssoft_labs.Prelude.Int.{ℤ, pos, negsuc}
use syssoft_labs.DirServer.Queue.Latch.{latched}
use syssoft_labs.DirServer.Queue.Contract.{front}

-- `++` and `--` on a `size_t`
abbrev pub inc : ℕ → ℕ
inc v = (v + 1) % 2 ^ 64

abbrev pub dec : ℕ → ℕ
dec v = (v + 2 ^ 64 - 1) % 2 ^ 64

-- `clients`, `pool_size` and `free_workers_count`
pub record Shared : Type 0 where
  pub clients : Option ℤ
  pub pool_size : ℕ
  pub free_workers : ℕ

-- Where a worker stands.
pub data Worker : Type 0 where
  starting : Worker  -- before `++free_workers_count`
  waiting : Worker  -- in `pthread_cond_wait`
  taking : ℤ → Worker  -- in `queue_dequeue`, which has read `head` and not yet replaced it
  woken : ℤ → Worker  -- with what `queue_dequeue` returned
  accepted : ℤ → Worker  -- before `--free_workers_count`
  serving : ℤ → Worker  -- in `do_work`, before `close`
  retiring : Worker  -- behind the loop
  gone : Worker  -- past `pthread_exit`

-- One step of `worker`. A wait may end at any time: POSIX allows spurious wake-ups. `worker` does not
-- lock `queue_mutex` before it waits, so nothing keeps two workers apart in `queue_dequeue`; what the
-- second `free` of one node does is left out.
unfoldable pub work : (n : ℕ) → Shared → Worker → Shared × Worker
work n s starting = (record s { free_workers = inc s.free_workers }, waiting)
work n s waiting = (s, taking (front s.clients))
work n s (taking c) = (record s { clients = none }, woken c)
work n s (woken (pos c)) = (s, accepted (pos c))
work n s (woken (negsuc zero)) =
    if ltb n s.pool_size
    then (record s { pool_size = dec s.pool_size }, retiring)
    else (s, accepted (negsuc zero))
work n s (woken (negsuc (suc c))) = (s, accepted (negsuc (suc c)))
work n s (accepted c) = (record s { free_workers = dec s.free_workers }, serving c)
work n s (serving c) = (s, starting)
work n s retiring = (record s { free_workers = dec s.free_workers }, gone)
work n s gone = (s, gone)

-- Where the main thread stands.
pub data Main : Type 0 where
  creating : ℕ → Main  -- the loop that creates the first `n` workers, with its `i`
  accepting : Main  -- in `accept`
  checking : Main  -- at the test of `free_workers_count` in `service_client`
  growing : Main  -- at the test of `pool_size`
  spawning : Main  -- before `pthread_create`
  signalling : Main  -- the two signals and `sched_yield`

-- One step of the main thread: `fd` is what `accept` returns, and `true` stands for a new worker.
unfoldable pub serve : (n k : ℕ) (fd : ℤ) → Shared → Main → Shared × Main × Bool
serve n k fd s (creating i) =
    if ltb i n then (s, creating (i + 1), true) else (record s { pool_size = n }, accepting, false)
serve n k fd s accepting = (record s { clients = some (latched s.clients fd) }, checking, false)
serve n k fd s checking = (s, (if s.free_workers == 0 then growing else signalling), false)
serve n k fd s growing =
    if ltb s.pool_size k
    then (record s { pool_size = inc s.pool_size }, spawning, false)
    else (s, signalling, false)
serve n k fd s spawning = (s, signalling, true)
serve n k fd s signalling = (s, accepting, false)

pub record System : Type 0 where
  pub shared : Shared
  pub main : Main
  pub workers : List Worker

abbrev pub spawn : Bool → List Worker → List Worker
spawn true ws = starting ∷ ws
spawn false ws = ws

-- Some worker moves, or the main thread does.
pub data Step (n k : ℕ) : System → System → Type 0 where
  by_worker :
      (s : Shared) (m : Main) (w : Worker) (xs ys : List Worker)
      → Step n k
          (record { shared = s; main = m; workers = xs ++ w ∷ ys })
          (record { shared = (work n s w).0; main = m; workers = xs ++ (work n s w).1 ∷ ys })
  by_main :
      (s : Shared) (m : Main) (ws : List Worker) (fd : ℤ)
      → Step n k
          (record { shared = s; main = m; workers = ws })
          (record {
            shared = (serve n k fd s m).0;
            main = (serve n k fd s m).1;
            workers = spawn (serve n k fd s m).2 ws;
          })

-- `main` before it creates the workers
abbrev pub init : System
init = record {
  shared = record { clients = none; pool_size = 0; free_workers = 0 };
  main = creating 0;
  workers = [];
}

pub data Reach (n k : ℕ) : System → Type 0 where
  start : Reach n k init
  later : {x y : System} → Reach n k x → Step n k x y → Reach n k y

-- The test of the arguments: `1 <= n && n <= 20 && n <= k`.
unfoldable pub accepts : (n k : ℕ) → Bool
accepts n k = leb 1 n && leb n 20 && leb n k
