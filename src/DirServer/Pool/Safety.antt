-- ===== src/DirServer/Pool/Safety.antt =====
-- lab6/server.c: bounds on the pool, and no client with two workers.
use syssoft_labs.Prelude.{
  ℕ, ◌+◌, ◌%◌, ◌^◌, ◌≤◌, ◌<◌, ◌≡◌, Bool, true, false, arith, Option, none, some, ◌==◌, ◌⊎◌,
  if◌then◌else◌,
}
use syssoft_labs.Prelude.Int.{ℤ, pos, negsuc}
use syssoft_labs.DirServer.Pool.{
  Worker, waiting, taking, woken, accepted, serving, Main, creating, accepting, System, Step,
  by_worker, by_main, Reach, start, later,
}
use syssoft_labs.DirServer.Pool.Count.{
  total, counted, announced, busy, pending, Sized, Reach-Inv, total-busy-le,
}

abbrev pub is_creating : Main → Bool
is_creating (creating i) = true
is_creating _ = false

module _ {n k : ℕ} (small : k < 2 ^ 64) (le : n ≤ k) where
  Sized-bounds : (m : Main) (p live : ℕ) → Sized n k m p live → (p ≤ k) × (live ≤ k)
  Sized-bounds m p live h = ground arith

  Sized-exact :
      (m : Main) (p live : ℕ)
      → Sized n k m p live
      → is_creating m ≡ false
      → (n ≤ p) × (live + pending m ≡ p)
  Sized-exact m p live h e = ground arith

  -- In every reachable state at most `k` clients are being served, and `pool_size` is at most `k`.
  pub clients_bounded :
      {x : System} → Reach n k x → (total busy x.workers ≤ k) × (x.shared.pool_size ≤ k)
  clients_bounded {x} r = omega (
    arith,
    total-busy-le x.workers,
    Sized-bounds x.main x.shared.pool_size (total counted x.workers)
        (Reach-Inv n k small le r).sized,
  )

  -- Once the main thread has created the first workers, `pool_size` is at least `n`, and it is the
  -- number of workers that have not given up their place, one that is about to be created included.
  pub pool_size_exact :
      {x : System}
      → Reach n k x
      → is_creating x.main ≡ false
      → (n ≤ x.shared.pool_size) × (total counted x.workers + pending x.main ≡ x.shared.pool_size)
  pool_size_exact {x} r e =
      Sized-exact x.main x.shared.pool_size (total counted x.workers)
        (Reach-Inv n k small le r).sized e

  -- `free_workers_count` is the number of workers between its `++` and its `--`, as a `size_t`: no
  -- order of the steps loses an update.
  pub free_workers_exact :
      {x : System} → Reach n k x → x.shared.free_workers ≡ total announced x.workers % 2 ^ 64
  free_workers_exact r = (Reach-Inv n k small le r).free

-- Whether a value is the client `c`.
abbrev pub is_client : ℕ → ℤ → ℕ
is_client c (pos d) = if d == c then 1 else 0
is_client c (negsuc d) = 0

-- A worker that has the client, and the queue that has it.
abbrev pub has : ℕ → Worker → ℕ
has c (taking v) = is_client c v
has c (woken v) = is_client c v
has c (accepted v) = is_client c v
has c (serving v) = is_client c v
has c _ = 0

abbrev pub queued : ℕ → Option ℤ → ℕ
queued c none = 0
queued c (some v) = is_client c v

-- A worker that is inside of `queue_dequeue`, and one that enters it.
abbrev pub takes : Worker → ℕ
takes (taking v) = 1
takes _ = 0

abbrev pub enters : Worker → ℕ
enters waiting = 1
enters _ = 0

-- What a step adds to the calls of `close` on the client, and to those of `accept` that return it.
abbrev pub closes : ℕ → Worker → ℕ
closes c (serving v) = is_client c v
closes c _ = 0

abbrev pub opens : ℕ → ℤ → Main → ℕ
opens c fd accepting = is_client c fd
opens c fd _ = 0

-- The queue's copy counts while no worker is taking it.
abbrev left_in : ℕ → (takers : ℕ) → Option ℤ → ℕ
left_in c takers o = if takers == 0 then queued c o else 0

abbrev held : ℕ → System → ℕ
held c x = total (has c) x.workers + left_in c (total takes x.workers) x.shared.clients

module _ {n k : ℕ} where
  pub closed_by : {x y : System} → ℕ → Step n k x y → ℕ
  closed_by c (by_worker s m w xs ys) = closes c w
  closed_by c (by_main s m ws fd) = 0

  pub opened_by : {x y : System} → ℕ → Step n k x y → ℕ
  opened_by c (by_worker s m w xs ys) = 0
  opened_by c (by_main s m ws fd) = opens c fd m

  -- How often the client was closed, and how often it was accepted, on the way to a state.
  pub closed : {x : System} → ℕ → Reach n k x → ℕ
  closed c start = 0
  closed c (later r st) = closed c r + closed_by c st

  pub opened : {x : System} → ℕ → Reach n k x → ℕ
  opened c start = 0
  opened c (later r st) = opened c r + opened_by c st

  -- No worker enters `queue_dequeue` while another one is inside of it.
  abbrev pub IsApartBy : {x y : System} → Step n k x y → Type 0
  IsApartBy (by_worker s m w xs ys) = (enters w ≡ 0) ⊎ (total takes xs + total takes ys ≡ 0)
  IsApartBy (by_main s m ws fd) = Unit

  abbrev pub IsApart : {x : System} → Reach n k x → Type 0
  IsApart start = Unit
  IsApart (later r st) = IsApart r × IsApartBy st
