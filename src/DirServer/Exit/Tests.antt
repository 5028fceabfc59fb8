-- ===== src/DirServer/Exit/Tests.antt =====
-- Tests and examples of DirServer.Exit.
use syssoft_labs.Prelude.{ℕ, ◌≡◌, ◌≢◌, refl, true, none, some, [], ◌∷◌, ◌++◌, ltb, arith}
use syssoft_labs.Prelude.Family.{update}
use syssoft_labs.Prelude.Int.{pos}
use syssoft_labs.DirServer.Heap.{null, Heap, ok, Allocator}
use syssoft_labs.DirServer.Queue.Latch.{node, IsHolding}
use syssoft_labs.DirServer.Queue.Contract.{Without}
use syssoft_labs.DirServer.Pool.{accepts}
use syssoft_labs.DirServer.Exit.{
  exits, StartCalls, listening, start_server, cleanup, create_workers, pool_sighandler,
}
use syssoft_labs.DirServer.Exit.Clean.{waiting_client, cleanup_lem}
use syssoft_labs.DirServer.Exit.Begun.{Begun, IsGranted, IsAlone, start_server-IsGranted}

abbrev empty_heap : Heap
empty_heap _ = none

-- A block at 5, while it is free.
one_block : Heap → ℕ
one_block h = elim (h 5) [ none ↦ 5 | some _ ↦ null ]

one_block-eq-none : (h : Heap) → one_block h ≢ null → h (one_block h) ≡ none
unfolding one_block
one_block-eq-none h n = ground arith

abbrev one : Allocator
one = record { malloc = one_block; junk = λ _. node 99 98 (pos 97); unused = one_block-eq-none }

-- The third thread cannot be detached.
abbrev refuses_third : StartCalls
refuses_third = record {
  queue_mutex = true;
  client_came = true;
  pool_size_mutex = true;
  creates = λ i. true;
  detaches = λ i. ltb i 2;
  socket = some 3;
  reuses = true;
  binds = true;
  listens = true;
  destroys = true;
}

two_workers : IsGranted one 2 5 refuses_third empty_heap 3
unfolding accepts create_workers one_block
two_workers = record {
  accepted = refl;
  queued = omega arith;
  queue_mutex = refl;
  client_came = refl;
  pool_size_mutex = refl;
  created = refl;
  socket = refl;
  reuses = refl;
  binds = refl;
  listens = refl;
}

start_server-IsGranted_instance :
    (g : Heap) × (start_server one 2 5 refuses_third empty_heap
      ≡ ok (listening (one_block empty_heap) (pos 3)) g)
    × IsAlone empty_heap (one_block empty_heap) g
start_server-IsGranted_instance =
    start_server-IsGranted one 2 5 refuses_third empty_heap 3 two_workers

-- A queue at 4 with the client 7.
abbrev with_client : Heap
with_client =
    update (update empty_heap 4 (some (node 5 5 (pos 0)))) 5 (some (node null null (pos 7)))

holds : IsHolding with_client 4 (pos 7)
holds = record {
  ne_null = omega arith;
  unread = pos 0;
  first = 5;
  last = 5;
  at_queue = refl;
  first_ne_null = omega arith;
  first_ne_queue = omega arith;
  first_tail = null;
  at_first = refl;
  last_ne_null = omega arith;
  last_ne_queue = omega arith;
  last_tail = null;
  last_elem = pos 7;
  at_last = refl;
}

cleanup_lem_example :
    (g : Heap) × (cleanup true 4 (pos 3) with_client
      ≡ ok (exits (waiting_client (some 7) ++ pos 3 ∷ [])) g)
    × Without with_client 4 g
cleanup_lem_example = cleanup_lem true with_client 4 (some 7) (pos 3) holds

ignores_pipe : pool_sighandler true 13 4 (pos 3) with_client ≡ ok none with_client
unfolding pool_sighandler
ignores_pipe = refl
