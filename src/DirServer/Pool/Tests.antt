-- ===== src/DirServer/Pool/Tests.antt =====
-- lab6/server.c: a run of the pool, and the theorems at it.
use syssoft_labs.Prelude.{
  ℕ, ◌+◌, ◌%◌, ◌^◌, ◌≤◌, ◌≡◌, refl, true, false, List, [], ◌∷◌, arith, Option, none, some,
}
use syssoft_labs.Prelude.Int.{ℤ, pos, negsuc}
use syssoft_labs.DirServer.Pool.{
  Shared, Worker, starting, waiting, taking, woken, accepted, serving, work, Main, accepting,
  checking, serve, System, spawn, by_worker, by_main, Reach, start, later, accepts,
}
use syssoft_labs.DirServer.Pool.Count.{total, counted, announced, busy, pending}
use syssoft_labs.DirServer.Pool.Safety.{clients_bounded, pool_size_exact, free_workers_exact}

abbrev state : Shared → Main → List Worker → System
state s m ws = record { shared = s; main = m; workers = ws }

abbrev shared : Option ℤ → ℕ → ℕ → Shared
shared c p f = record { clients = c; pool_size = p; free_workers = f }

main_moves :
    {n k : ℕ} {x : System} (fd : ℤ)
    → Reach n k x
    → Reach n k (
        state
          (serve n k fd x.shared x.main).0
          (serve n k fd x.shared x.main).1
          (spawn (serve n k fd x.shared x.main).2 x.workers))
main_moves {x} fd r = later r (by_main x.shared x.main x.workers fd)

first_moves :
    {n k : ℕ} (s : Shared) (m : Main) (w : Worker) (ws : List Worker)
    → Reach n k (state s m (w ∷ ws))
    → Reach n k (state (work n s w).0 m ((work n s w).1 ∷ ws))
first_moves s m w ws r = later r (by_worker s m w [] ws)

-- One worker is created; `accept` returns 7, and the worker wakes and takes it.
abbrev busy_state : System
busy_state = state (shared none 1 0) checking (serving (pos 7) ∷ [])

created : Reach 1 2 (state (shared none 1 0) accepting (starting ∷ []))
unfolding serve
created = main_moves (pos 0) (main_moves (pos 0) start)

one_client : Reach 1 2 busy_state
unfolding serve work
one_client =
    let announced_one = first_moves (shared none 1 0) accepting starting [] created in
    let queued_one = main_moves (pos 7) announced_one in
    let seen = first_moves (shared (some (pos 7)) 1 1) checking waiting [] queued_one in
    let got = first_moves (shared (some (pos 7)) 1 1) checking (taking (pos 7)) [] seen in
    let taken = first_moves (shared none 1 1) checking (woken (pos 7)) [] got in
    first_moves (shared none 1 1) checking (accepted (pos 7)) [] taken

-- With two workers waiting and one client, the second signal wakes a worker that gets -1; the pool
-- is not larger than `n`, so that worker goes on to serve descriptor -1.
serves_minus_one :
    (work 2 (shared none 2 2) waiting).1 ≡ taking (negsuc 0)
    × ((work 2 (shared none 2 2) (woken (negsuc 0))).1 ≡ accepted (negsuc 0))
unfolding work
serves_minus_one = (refl, refl)

arguments :
    (accepts 1 1 ≡ true) × (accepts 0 5 ≡ false) × (accepts 21 30 ≡ false) × (accepts 5 4 ≡ false)
unfolding accepts
arguments = (refl, refl, refl, refl)

clients_bounded_instance : (total busy (serving (pos 7) ∷ []) ≤ 2) × (◌≤◌ 1 2)
clients_bounded_instance = clients_bounded (omega arith) (omega arith) one_client

pool_size_exact_example : (◌≤◌ 1 1) × (total counted (serving (pos 7) ∷ []) + pending checking ≡ 1)
pool_size_exact_example = pool_size_exact (omega arith) (omega arith) one_client refl

free_workers_exact_instance : 0 ≡ total announced (serving (pos 7) ∷ []) % 2 ^ 64
free_workers_exact_instance = free_workers_exact (omega arith) (omega arith) one_client
