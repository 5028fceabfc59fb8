-- ===== src/DirServer/Pool/Count.antt =====
-- lab6/server.c: how many workers stand where, against the two counters.
use syssoft_labs.Prelude.{ℕ, ◌+◌, ◌%◌, ◌^◌, ◌≤◌, ◌<◌, ◌≡◌, refl, List, [], ◌∷◌, ◌++◌, arith}
use syssoft_labs.Prelude.Int.{ℤ}
use syssoft_labs.DirServer.Pool.{
  Shared, Worker, starting, serving, retiring, gone, work, Main, creating, spawning, serve, System,
  spawn, Step, by_worker, by_main, Reach, start, later,
}

unfoldable pub total : (Worker → ℕ) → List Worker → ℕ
total f [] = 0
total f (w ∷ ws) = f w + total f ws

pub total-append :
    (f : Worker → ℕ) (xs ys : List Worker) → total f (xs ++ ys) ≡ total f xs + total f ys
unfolding total
total-append f [] ys = omega arith
total-append f (x ∷ xs) ys = omega (arith, total-append f xs ys)

pub total-cons :
    (f : Worker → ℕ) (w : Worker) (ws : List Worker) → total f (w ∷ ws) ≡ f w + total f ws
unfolding total
total-cons f w ws = refl

pub total-middle :
    (f : Worker → ℕ) (xs : List Worker) (w : Worker) (ys : List Worker)
    → total f (xs ++ w ∷ ys) ≡ f w + (total f xs + total f ys)
total-middle f xs w ys = omega (arith, total-append f xs (w ∷ ys), total-cons f w ys)

-- Workers that `pool_size` counts: those that have not given up their place.
abbrev pub counted : Worker → ℕ
counted retiring = 0
counted gone = 0
counted _ = 1

-- Workers that `free_workers_count` counts: between its `++` and its `--`.
abbrev pub announced : Worker → ℕ
announced starting = 0
announced (serving c) = 0
announced gone = 0
announced _ = 1

-- Workers that talk to a client.
abbrev pub busy : Worker → ℕ
busy (serving c) = 1
busy _ = 0

-- Workers that the main thread has counted and not yet created.
abbrev pub pending : Main → ℕ
pending spawning = 1
pending _ = 0

-- `pool_size` against the number of workers, by where the main thread stands.
abbrev pub Sized : (n k : ℕ) → Main → (pool_size live : ℕ) → Type 0
Sized n k (creating i) p live = (p ≡ 0) × (live ≡ i) × (i ≤ n)
Sized n k m p live = (live + pending m ≡ p) × (n ≤ p) × (p ≤ k)

pub record Inv (n k : ℕ) (x : System) : Type 0 where
  pub sized : Sized n k x.main x.shared.pool_size (total counted x.workers)
  pub free : x.shared.free_workers ≡ total announced x.workers % 2 ^ 64

module _ (n k : ℕ) (small : k < 2 ^ 64) where
  work-free :
      (s : Shared) (w : Worker) (rest : ℕ)
      → s.free_workers ≡ (announced w + rest) % 2 ^ 64
      → (work n s w).0.free_workers ≡ (announced (work n s w).1 + rest) % 2 ^ 64
  unfolding work
  work-free s w rest h = ground arith

  work-Sized :
      (s : Shared) (m : Main) (w : Worker) (rest : ℕ)
      → Sized n k m s.pool_size (counted w + rest)
      → Sized n k m (work n s w).0.pool_size (counted (work n s w).1 + rest)
  unfolding work
  work-Sized s m w rest h = ground arith

  serve-free :
      (fd : ℤ) (s : Shared) (m : Main) (ws : List Worker)
      → s.free_workers ≡ total announced ws % 2 ^ 64
      → (serve n k fd s m).0.free_workers ≡ total announced (spawn (serve n k fd s m).2 ws) % 2 ^ 64
  unfolding serve total
  serve-free fd s m ws h = ground arith

  serve-Sized :
      (fd : ℤ) (s : Shared) (m : Main) (ws : List Worker)
      → n ≤ k
      → Sized n k m s.pool_size (total counted ws)
      → Sized n k
          (serve n k fd s m).1
          (serve n k fd s m).0.pool_size
          (total counted (spawn (serve n k fd s m).2 ws))
  unfolding serve total
  serve-Sized fd s m ws le h = ground arith

  pub Step-Inv : {x y : System} → n ≤ k → Step n k x y → Inv n k x → Inv n k y
  Step-Inv le (by_worker s m w xs ys) i = record {
    sized = rw (total-middle counted xs (work n s w).1 ys) (
        work-Sized s m w (total counted xs + total counted ys)
          (rw (total-middle counted xs w ys) at i.sized));
    free = rw (total-middle announced xs (work n s w).1 ys) (
        work-free s w (total announced xs + total announced ys)
          (rw (total-middle announced xs w ys) at i.free));
  }
  Step-Inv le (by_main s m ws fd) i = record {
    sized = serve-Sized fd s m ws le i.sized;
    free = serve-free fd s m ws i.free;
  }

  pub Reach-Inv : {x : System} → n ≤ k → Reach n k x → Inv n k x
  unfolding total
  Reach-Inv le start = record { sized = (refl, refl, omega arith); free = refl }
  Reach-Inv le (later r st) = Step-Inv le st (Reach-Inv le r)

-- At most one client to each worker that has its place in the pool.
pub total-busy-le : (ws : List Worker) → total busy ws ≤ total counted ws
unfolding total
total-busy-le [] = omega arith
total-busy-le (w ∷ ws) = ground (arith, total-busy-le ws)
