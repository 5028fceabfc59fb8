-- ===== src/DirServer/Exit/Begun.antt =====
-- lab6/server.c: how the set-up of `main` ends, whichever call fails.
use syssoft_labs.Prelude.{
  ℕ, ◌≡◌, ◌≢◌, ◌&&◌, Bool, true, false, not, Option, none, some, [], ◌∷◌, ◌==◌, arith,
}
use syssoft_labs.Prelude.Family.{update}
use syssoft_labs.Prelude.Int.{ℤ, pos}
use syssoft_labs.DirServer.Heap.{Ptr, null, Heap, Run, ok, fault, out_of_fuel, Cmd, Allocator}
use syssoft_labs.DirServer.Queue.{nothing}
use syssoft_labs.DirServer.Queue.Latch.{node, IsEmpty, queue_init_lem}
use syssoft_labs.DirServer.Pool.{accepts}
use syssoft_labs.DirServer.Exit.{
  StartCalls, after_destroy, Startup, shows_usage, listening, cleaned, create_workers, or_cleanup,
  open_socket, init_locks, start_server,
}

-- The queue at `q` is all that was allocated since `h`.
abbrev pub IsAlone : Heap → Ptr → Heap → Type 0
IsAlone h q g = (h q ≡ none) × IsEmpty g q × ((x : Ptr) → x ≢ q → g x ≡ h x)

abbrev is_some : Option ℕ → Bool
is_some none = false
is_some (some fd) = true

abbrev pub sockfd_of : Bool → Option ℕ → ℤ
sockfd_of true (some fd) = pos fd
sockfd_of true none = nothing
sockfd_of false o = nothing

-- All calls in front of `socket` have succeeded, and then all calls.
abbrev pub is_locked : Allocator → (n : ℕ) → StartCalls → Heap → Bool
is_locked a n c h =
    not (Allocator.malloc a h == null)
    && c.queue_mutex
    && c.client_came
    && c.pool_size_mutex
    && create_workers c 0 n

abbrev pub succeeds : Allocator → (n : ℕ) → StartCalls → Heap → Bool
succeeds a n c h = is_locked a n c h && is_some c.socket && c.reuses && c.binds && c.listens

-- How the set-up ends: `listening` exactly where every call succeeds, and else with `cleanup`, which
-- closes the socket, or the file -1 where a call before `socket` has failed or `socket` itself has.
abbrev pub Begun : Allocator → (n k : ℕ) → StartCalls → Heap → Run Startup → Type 0
Begun a n k c h (ok shows_usage g) = (accepts n k ≡ false) × ((x : Ptr) → g x ≡ h x)
Begun a n k c h (ok (listening q sockfd) g) =
    (succeeds a n c h ≡ true) × (sockfd ≡ sockfd_of true c.socket) × IsAlone h q g
Begun a n k c h (ok (cleaned end) g) =
    (succeeds a n c h ≡ false)
    × (end ≡ after_destroy c.destroys (sockfd_of (is_locked a n c h) c.socket ∷ []))
    × ((x : Ptr) → g x ≡ h x)
Begun a n k c h fault = true ≡ false
Begun a n k c h out_of_fuel = true ≡ false

module _ (a : Allocator) (n k : ℕ) (c : StartCalls) (h : Heap) where
  open a use {malloc, junk, unused}

  -- A call has failed while `sockfd` was the socket.
  abbrev Fails : ℤ → Type 0
  Fails sockfd = (succeeds a n c h ≡ false) × (sockfd ≡ sockfd_of (is_locked a n c h) c.socket)

  abbrev with_queue : Ptr → Cmd Startup
  with_queue q = or_cleanup c (not (q == null)) q nothing (init_locks n c q)

  made-IsAlone :
      (g : Heap)
      → malloc h ≢ null
      → ((x : Ptr) → g x ≡ update h (malloc h) (some (node null null (junk h).elem)) x)
      → IsAlone h (malloc h) g
  made-IsAlone g absent at = (
    unused h absent,
    record { ne_null = absent; unread = (junk h).elem; at_queue = ground (arith, at (malloc h)) },
    λ x other. ground (arith, at x, other),
  )

-- Where every call succeeds, the server waits for clients.
pub record IsGranted (a : Allocator) (n k : ℕ) (c : StartCalls) (h : Heap) (fd : ℕ) : Type 0 where
  pub accepted : accepts n k ≡ true
  pub queued : Allocator.malloc a h ≢ null
  pub queue_mutex : c.queue_mutex ≡ true
  pub client_came : c.client_came ≡ true
  pub pool_size_mutex : c.pool_size_mutex ≡ true
  pub created : create_workers c 0 n ≡ true
  pub socket : c.socket ≡ some fd
  pub reuses : c.reuses ≡ true
  pub binds : c.binds ≡ true
  pub listens : c.listens ≡ true

pub start_server-IsGranted :
    (a : Allocator) (n k : ℕ) (c : StartCalls) (h : Heap) (fd : ℕ)
    → IsGranted a n k c h fd
    → (g : Heap) × (start_server a n k c h ≡ ok (listening (Allocator.malloc a h) (pos fd)) g)
      × IsAlone h (Allocator.malloc a h) g
unfolding start_server init_locks open_socket or_cleanup
start_server-IsGranted a n k c h fd i =
    let (g, e, at) = queue_init_lem a h i.queued in
    (
      g,
      ground (
        arith, e, i.accepted, i.queued, i.queue_mutex, i.client_came, i.pool_size_mutex, i.created,
        i.socket, i.reuses, i.binds, i.listens,
      ),
      made-IsAlone a n k c h g i.queued at,
    )
