-- ===== src/DirServer/Exit/Clean.antt =====
-- lab6/server.c: what `cleanup` closes and frees.
use syssoft_labs.Prelude.{Bool, ℕ, ◌≡◌, refl, Option, none, some, List, [], ◌∷◌, ◌++◌, arith}
use syssoft_labs.Prelude.Family.{update}
use syssoft_labs.Prelude.Int.{ℤ, pos}
use syssoft_labs.DirServer.Heap.{Ptr, null, Heap, ok, load, store, free, set_head, set_tail}
use syssoft_labs.DirServer.Queue.{queue_dequeue, destroy_loop, queue_destroy}
use syssoft_labs.DirServer.Queue.Latch.{node}
use syssoft_labs.DirServer.Queue.Contract.{IsLatch, Without}
use syssoft_labs.DirServer.Exit.{close_clients, after_destroy, cleanup}

abbrev pub waiting_client : Option ℕ → List ℤ
waiting_client none = []
waiting_client (some fd) = pos fd ∷ []

abbrev pub content : Option ℕ → Option ℤ
content none = none
content (some fd) = some (pos fd)

-- `cleanup` closes the client that waits, if one does, and then the socket; it frees the queue and the
-- node of that client, and no other. Then it ends with the status 0, if `pthread_cond_destroy`
-- returns, and else it hangs there.
pub cleanup_lem :
    (destroys : Bool) (h : Heap) (q : Ptr) (o : Option ℕ) (sockfd : ℤ)
    → IsLatch h q (content o)
    → (g : Heap) × (cleanup destroys q sockfd h
        ≡ ok (after_destroy destroys (waiting_client o ++ sockfd ∷ [])) g)
      × Without h q g
unfolding cleanup close_clients queue_dequeue queue_destroy destroy_loop load free set_head set_tail
    store
cleanup_lem destroys h q none sockfd i =
    (update h q none, ground (arith, i.ne_null, i.at_queue), λ x. ground (arith, i.at_queue))
cleanup_lem destroys h q (some c) sockfd i = (
  update
      (update (update (update h i.first none) q (some (node null i.last i.unread))) q
        (some (node null null i.unread)))
      q none,
  ground (arith, i.ne_null, i.at_queue, i.at_first, i.first_ne_null, i.first_ne_queue),
  λ x. ground (arith, i.at_queue, i.first_ne_null),
)

pub cleanup-null :
    (destroys : Bool) (h : Heap) (sockfd : ℤ)
    → cleanup destroys null sockfd h ≡ ok (after_destroy destroys (sockfd ∷ [])) h
unfolding cleanup close_clients queue_dequeue queue_destroy free
cleanup-null destroys h sockfd = refl
