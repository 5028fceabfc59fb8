-- ===== src/DirServer/Queue/Contract.antt =====
-- lab6/queue.c: each operation against the latch, the loss of values behind the first, and what
-- `queue_destroy` gives back.
use syssoft_labs.Prelude.{
  ℕ, suc, ◌≡◌, ◌≢◌, refl, Option, none, some, List, [], ◌∷◌, arith, ◌==◌, ◌&&◌, not, if◌then◌else◌,
}
use syssoft_labs.Prelude.Family.{update}
use syssoft_labs.Prelude.Int.{ℤ}
use syssoft_labs.DirServer.Heap.{
  Ptr, null, Heap, ok, fault, load, store, set_head, set_tail, set_elem, free, Allocator,
}
use syssoft_labs.DirServer.Queue.{
  nothing, allocate, queue_init, queue_enqueue, enqueue_all, queue_dequeue, destroy_loop,
  queue_destroy,
}
use syssoft_labs.DirServer.Queue.Latch.{
  node, IsEmpty, IsHolding, enqueue-IsEmpty, enqueue-IsHolding, latched,
}

-- The queue at `q` is a latch with the content `o`.
abbrev pub IsLatch : Heap → Ptr → Option ℤ → Type 0
IsLatch h q none = IsEmpty h q
IsLatch h q (some x) = IsHolding h q x

-- With memory granted, `queue_enqueue` on an empty queue makes the value the one that the queue
-- holds; on a queue that holds a value it keeps that value, and the new one cannot be reached.
pub queue_enqueue_refines :
    (a : Allocator) (h : Heap) (q : Ptr) (o : Option ℤ) (e : ℤ)
    → IsLatch h q o
    → Allocator.malloc a h ≢ null
    → (g : Heap) × (queue_enqueue a q e h ≡ ok tt g) × IsLatch g q (some (latched o e))
queue_enqueue_refines a h q none e i n = enqueue-IsEmpty a h q e i n
queue_enqueue_refines a h q (some x) e i n = enqueue-IsHolding a h q x e i n

no_memory-IsEmpty :
    (a : Allocator) (h : Heap) (q : Ptr) (e : ℤ)
    → IsEmpty h q
    → Allocator.malloc a h ≡ null
    → (g : Heap) × (queue_enqueue a q e h ≡ ok tt g) × IsEmpty g q
unfolding queue_enqueue queue_init allocate load set_head set_tail store
no_memory-IsEmpty a h q e i n = (
  update (update h q (some (node null null i.unread))) q (some (node null null i.unread)),
  ground (arith, i.ne_null, i.at_queue, n),
  record { ne_null = i.ne_null; unread = i.unread; at_queue = ground arith },
)

no_memory-IsHolding :
    (a : Allocator) (h : Heap) (q : Ptr) (x e : ℤ)
    → IsHolding h q x
    → Allocator.malloc a h ≡ null
    → queue_enqueue a q e h ≡ fault
unfolding queue_enqueue queue_init allocate load set_head set_tail set_elem store
no_memory-IsHolding a h q x e i n =
    ground (arith, i.ne_null, i.at_queue, n, i.at_last, i.last_ne_null, i.last_ne_queue)

-- What `queue_enqueue` does when memory is refused, by the content of the queue.
abbrev pub Refused : Allocator → Heap → Ptr → Option ℤ → ℤ → Type 0
Refused a h q none e = (g : Heap) × (queue_enqueue a q e h ≡ ok tt g) × IsEmpty g q
Refused a h q (some x) e = queue_enqueue a q e h ≡ fault

-- When memory is refused, `queue_enqueue` on an empty queue drops the value and the queue stays
-- empty, and on a queue that holds a value it writes through NULL.
pub queue_enqueue-Refused :
    (a : Allocator) (h : Heap) (q : Ptr) (o : Option ℤ) (e : ℤ)
    → IsLatch h q o
    → Allocator.malloc a h ≡ null
    → Refused a h q o e
queue_enqueue-Refused a h q none e i n = no_memory-IsEmpty a h q e i n
queue_enqueue-Refused a h q (some x) e i n = no_memory-IsHolding a h q x e i n

dequeue-IsEmpty : (h : Heap) (q : Ptr) → IsEmpty h q → queue_dequeue q h ≡ ok nothing h
unfolding queue_dequeue load
dequeue-IsEmpty h q i = ground (arith, i.ne_null, i.at_queue)

dequeue-IsHolding :
    (h : Heap) (q : Ptr) (x : ℤ)
    → IsHolding h q x
    → (g : Heap) × (queue_dequeue q h ≡ ok x g) × IsEmpty g q
unfolding queue_dequeue load free set_head set_tail store
dequeue-IsHolding h q x i = (
  update (update (update h i.first none) q (some (node null i.last i.unread))) q
      (some (node null null i.unread)),
  ground (arith, i.ne_null, i.at_queue, i.at_first, i.first_ne_null, i.first_ne_queue),
  record { ne_null = i.ne_null; unread = i.unread; at_queue = ground arith },
)

-- What `queue_dequeue` returns from a latch.
abbrev pub front : Option ℤ → ℤ
front none = nothing
front (some x) = x

-- `queue_dequeue` returns the value that the queue holds, or -1 if it is empty, and leaves the queue
-- empty in both cases.
pub queue_dequeue_refines :
    (h : Heap) (q : Ptr) (o : Option ℤ)
    → IsLatch h q o
    → (g : Heap) × (queue_dequeue q h ≡ ok (front o) g) × IsLatch g q none
queue_dequeue_refines h q none i = (h, dequeue-IsEmpty h q i, i)
queue_dequeue_refines h q (some x) i = dequeue-IsHolding h q x i

-- Each of the calls that put `es` in is granted memory.
abbrev pub Granted : Allocator → Ptr → List ℤ → Heap → Type 0
Granted a q [] h = Unit
Granted a q (e ∷ es) h =
    (Allocator.malloc a h ≢ null)
    × ((g : Heap) → queue_enqueue a q e h ≡ ok tt g → Granted a q es g)

enqueue_all-IsHolding :
    (a : Allocator) (h : Heap) (q : Ptr) (x : ℤ) (es : List ℤ)
    → IsHolding h q x
    → Granted a q es h
    → (g : Heap) × (enqueue_all a q es h ≡ ok tt g) × IsHolding g q x
unfolding enqueue_all
enqueue_all-IsHolding a h q x [] i n = (h, refl, i)
enqueue_all-IsHolding a h q x (e ∷ es) i n =
    let (g, put, i') = enqueue-IsHolding a h q x e i n.0 in
    let (f, rest, i'') = enqueue_all-IsHolding a g q x es i' (n.1 g put) in
    (f, ground (arith, put, rest), i'')

-- However many values are put into an empty queue, `queue_dequeue` returns the first of them and
-- then -1: the values behind the first are lost.
pub queue_keeps_first :
    (a : Allocator) (h : Heap) (q : Ptr) (e : ℤ) (es : List ℤ)
    → IsEmpty h q
    → Granted a q (e ∷ es) h
    → (f : Heap) × (g : Heap) × (enqueue_all a q (e ∷ es) h ≡ ok tt f)
      × (queue_dequeue q f ≡ ok e g)
      × (queue_dequeue q g ≡ ok nothing g)
unfolding enqueue_all
queue_keeps_first a h q e es i n =
    let (h', put, i') = enqueue-IsEmpty a h q e i n.0 in
    let (f, rest, i'') = enqueue_all-IsHolding a h' q e es i' (n.1 h' put) in
    let (g, got, i''') = dequeue-IsHolding f q e i'' in
    (f, g, ground (arith, put, rest), got, dequeue-IsEmpty g q i''')

-- The address in the `head` field of the node at `q`.
abbrev pub head_at : Heap → Ptr → Ptr
head_at h q = elim (h q) [ none ↦ null | some n ↦ n.head ]

-- `h` without the queue and the node at its front.
abbrev pub Without : Heap → Ptr → Heap → Type 0
Without h q g =
    (x : Ptr)
    → g x ≡ (if x == q then none else if (x == head_at h q) && not (x == null) then none else h x)

-- The loop frees the node in front and stops, since the head field of that node is NULL.
destroy_loop-IsHolding :
    (k : ℕ) (h : Heap) (q : Ptr) (v : ℤ) (i : IsHolding h q v)
    → destroy_loop (suc (suc k)) q i.first h
      ≡ ok tt (update (update h q (some (node null i.last i.unread))) i.first none)
unfolding destroy_loop load free set_head store
destroy_loop-IsHolding k h q v i =
    ground (arith, i.ne_null, i.at_queue, i.at_first, i.first_ne_null, i.first_ne_queue)

-- `queue_destroy` runs its loop at most twice; it frees the queue and the node that `queue_dequeue`
-- would return, and no other: the nodes put in behind the first stay allocated.
pub queue_destroy-Without :
    (k : ℕ) (h : Heap) (q : Ptr) (o : Option ℤ)
    → IsLatch h q o
    → (g : Heap) × (queue_destroy (suc (suc k)) q h ≡ ok tt g) × Without h q g
unfolding queue_destroy destroy_loop load free
queue_destroy-Without k h q none i =
    (update h q none, ground (arith, i.ne_null, i.at_queue), λ x. ground (arith, i.at_queue))
queue_destroy-Without k h q (some v) i = (
  update (update (update h q (some (node null i.last i.unread))) i.first none) q none,
  ground (arith, i.ne_null, i.at_queue, i.first_ne_queue, destroy_loop-IsHolding k h q v i),
  λ x. ground (arith, i.at_queue, i.first_ne_null),
)
