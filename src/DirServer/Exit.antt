-- ===== src/DirServer/Exit.antt =====
-- lab6/server.c: what `main` sets up before it waits for clients, and `cleanup`, by which the server
-- ends after a failure or a signal. The worker threads are left out: `_exit` ends them.
pub mod Clean
pub mod Begun
mod Tests
use syssoft_labs.Prelude.{
  ℕ, zero, suc, ◌+◌, ◌-◌, ◌≡◌, ◌≢◌, refl, sym, ◌∙◌, Bool, true, false, not, ◌&&◌, Option, none,
  some, List, [], ◌∷◌, ◌++◌, ◌==◌, if◌then◌else◌, arith,
}
use syssoft_labs.Prelude.Family.{update}
use syssoft_labs.Prelude.Int.{ℤ, pos, negsuc}
use syssoft_labs.DirServer.Heap.{
  Ptr, null, Heap, Run, ok, fault, out_of_fuel, Cmd, return, resume, ◌>>=◌, ◌>>◌, load, store, free,
  set_head, set_tail, Allocator,
}
use syssoft_labs.DirServer.Queue.{
  nothing, allocate, queue_init, queue_dequeue, destroy_loop, queue_destroy,
}
use syssoft_labs.DirServer.Queue.Latch.{
  node, IsEmpty, IsHolding, queue_init_lem, queue_init-IsEmpty,
}
use syssoft_labs.DirServer.Queue.Contract.{
  IsLatch, front, head_at, Without, queue_dequeue_refines, queue_destroy-Without,
}
use syssoft_labs.DirServer.Pool.{accepts}

abbrev is_nothing : ℤ → Bool
is_nothing (negsuc zero) = true
is_nothing (negsuc (suc n)) = false
is_nothing (pos n) = false

-- `while (-1 != (client = queue_dequeue(clients))) close(client);`: the files that are closed
unfoldable pub close_clients : ℕ → Ptr → Cmd (List ℤ)
close_clients zero clients = λ _. out_of_fuel
close_clients (suc k) clients = do
  client ← queue_dequeue clients
  if is_nothing client
      then return []
      else (do rest ← close_clients k clients; return (client ∷ rest))

-- The files that `cleanup` has closed, in their order, when it ends with the status 0; or it hangs in
-- `pthread_cond_destroy`.
pub data Cleanup : Type 0 where
  exits hangs : (closed : List ℤ) → Cleanup

abbrev pub after_destroy : (destroys : Bool) → List ℤ → Cleanup
after_destroy true closed = exits closed
after_destroy false closed = hangs closed

-- `destroys` tells whether `pthread_cond_destroy` returns: POSIX leaves open what it does while threads
-- wait on the condition, and it may block.
unfoldable pub cleanup : (destroys : Bool) (clients : Ptr) (sockfd : ℤ) → Cmd Cleanup
cleanup destroys clients sockfd = do
  closed ← close_clients 2 clients
  queue_destroy 2 clients
  return (after_destroy destroys (closed ++ sockfd ∷ []))

-- `sighandler`, while the server waits for clients: only SIGPIPE lets it go on.
unfoldable pub pool_sighandler :
    (destroys : Bool) (signo : ℕ) (clients : Ptr) (sockfd : ℤ) → Cmd (Option Cleanup)
pool_sighandler destroys signo clients sockfd =
    if signo == 13
    then return none
    else (do end ← cleanup destroys clients sockfd; return (some end))

-- What the calls of `main` answer; `creates` and `detaches` by the index of the thread.
pub record StartCalls : Type 0 where
  pub queue_mutex : Bool
  pub client_came : Bool
  pub pool_size_mutex : Bool
  pub creates : ℕ → Bool
  pub detaches : ℕ → Bool
  pub socket : Option ℕ
  pub reuses : Bool
  pub binds : Bool
  pub listens : Bool
  pub destroys : Bool

-- `usage` ends with the status 1.
pub data Startup : Type 0 where
  shows_usage : Startup
  listening : (clients : Ptr) → (sockfd : ℤ) → Startup
  cleaned : Cleanup → Startup

-- the loop that creates the workers, with its `i` and how many are left
unfoldable pub create_workers : StartCalls → (i left : ℕ) → Bool
create_workers c i zero = true
create_workers c i (suc left) = c.creates i && c.detaches i && create_workers c (i + 1) left

-- `cleanup()` in `main`
unfoldable pub end_start : StartCalls → Ptr → ℤ → Cmd Startup
end_start c clients sockfd = do end ← cleanup c.destroys clients sockfd; return (cleaned end)

-- `if (...) { perror(...); cleanup(); }`
unfoldable pub or_cleanup : StartCalls → Bool → Ptr → ℤ → Cmd Startup → Cmd Startup
or_cleanup c succeeds clients sockfd rest = if succeeds then rest else end_start c clients sockfd

-- What `main` does with the answer of `socket`.
unfoldable pub open_socket : StartCalls → Ptr → (socket : Option ℕ) → Cmd Startup
open_socket c clients none = end_start c clients nothing
open_socket c clients (some fd) =
    let listened = or_cleanup c c.listens clients (pos fd) (return (listening clients (pos fd))) in
    or_cleanup c c.reuses clients (pos fd) (or_cleanup c c.binds clients (pos fd) listened)

-- from the first `pthread_mutex_init` on
unfoldable pub init_locks : ℕ → StartCalls → Ptr → Cmd Startup
init_locks n c clients =
    let created =
      or_cleanup c (create_workers c 0 n) clients nothing (open_socket c clients c.socket) in
    let counted = or_cleanup c c.pool_size_mutex clients nothing created in
    or_cleanup c c.queue_mutex clients nothing (or_cleanup c c.client_came clients nothing counted)

unfoldable pub start_server : Allocator → (n k : ℕ) → StartCalls → Cmd Startup
start_server a n k c =
    if accepts n k
    then (do
      clients ← queue_init a
      or_cleanup c (not (clients == null)) clients nothing (init_locks n c clients))
    else return shows_usage
