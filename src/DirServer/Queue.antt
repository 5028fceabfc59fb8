-- ===== src/DirServer/Queue.antt =====
-- lab6/queue.c: the queue of clients that wait for a worker.
pub mod Latch
pub mod Contract
mod Tests
use syssoft_labs.Prelude.{ℕ, zero, suc, ◌==◌, if◌then◌else◌, List, [], ◌∷◌, some}
use syssoft_labs.Prelude.Family.{update}
use syssoft_labs.Prelude.Int.{ℤ, negsuc}
use syssoft_labs.DirServer.Heap.{
  Ptr, null, Node, Heap, ok, out_of_fuel, Cmd, return, ◌>>=◌, ◌>>◌, load, set_head, set_tail,
  set_elem, free, Allocator,
}

-- The value that `queue_dequeue` returns when there is nothing.
abbrev pub nothing : ℤ
nothing = negsuc 0

module _ (a : Allocator) where
  open a use {malloc, junk}

  -- `malloc(sizeof(struct queue))`
  pub allocate : Cmd Ptr
  allocate h =
      if malloc h == null then ok null h else ok (malloc h) (update h (malloc h) (some (junk h)))

  pub queue_init : Cmd Ptr
  queue_init = do
    q ← allocate
    if q == null then return null else (do set_head q null; set_tail q null; return q)

  pub queue_enqueue : Ptr → ℤ → Cmd (Unit {0})
  queue_enqueue q e = if q == null then return tt else do
    n ← load q
    if n.tail == null
        then (do
          p ← queue_init
          set_head q p
          set_tail q p
          n ← load q
          if n.tail == null then return tt else set_elem n.tail e)
        else (do
          p ← queue_init
          n ← load q
          set_tail n.tail p
          n ← load q
          t ← load n.tail
          set_elem t.tail e
          n ← load q
          t ← load n.tail
          set_tail q t.tail)

  -- a client's calls of `queue_enqueue`, one after the other
  pub enqueue_all : Ptr → List ℤ → Cmd (Unit {0})
  enqueue_all q [] = return tt
  enqueue_all q (e ∷ es) = queue_enqueue q e >> enqueue_all q es

unfoldable pub queue_dequeue : Ptr → Cmd ℤ
queue_dequeue q = if q == null then return nothing else do
  n ← load q
  if n.head == null then return nothing else (do
    first ← load n.head
    let e = first.elem
    let new_head = first.head
    free n.head
    set_head q new_head
    (if new_head == null then set_tail q null else return tt)
    return e)

-- The loop of `queue_destroy` over `next`.
unfoldable pub destroy_loop : ℕ → Ptr → Ptr → Cmd (Unit {0})
destroy_loop zero q next = λ _. out_of_fuel
destroy_loop (suc k) q next = if next == null then return tt else do
  n ← load q
  first ← load n.head
  set_head q first.head
  free next
  n ← load q
  destroy_loop k q n.head

unfoldable pub queue_destroy : (fuel : ℕ) → Ptr → Cmd (Unit {0})
queue_destroy fuel q =
    if q == null then free q else (do n ← load q; destroy_loop fuel q n.head; free q)
