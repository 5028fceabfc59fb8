-- ===== src/DirServer/Queue/Tests.antt =====
-- lab6/queue.c: runs of the queue, and the theorems at them.
use syssoft_labs.Prelude.{◌≡◌, ◌≢◌, refl, ap, subst, Option, none, some, [], ◌∷◌, arith}
use syssoft_labs.Prelude.Family.{update}
use syssoft_labs.Prelude.Int.{ℤ, pos, negsuc}
use syssoft_labs.DirServer.Heap.{
  Ptr, null, Heap, Run, ok, Cmd, ◌>>=◌, ◌>>◌, load, store, set_head, set_tail, set_elem, free,
  Allocator,
}
use syssoft_labs.DirServer.Queue.{
  nothing, allocate, queue_init, queue_enqueue, enqueue_all, queue_dequeue, queue_destroy,
}
use syssoft_labs.DirServer.Queue.Latch.{node, IsEmpty, IsHolding}
use syssoft_labs.DirServer.Queue.Contract.{
  IsLatch, queue_enqueue_refines, queue_enqueue-Refused, Refused, queue_dequeue_refines, Granted,
  queue_keeps_first, Without, queue_destroy-Without,
}

-- The first unused of three addresses, and memory that holds a stale node.
first_unused : Heap → Ptr
first_unused h = elim (h 5) [
  | none ↦ 5
  | some _ ↦ elim (h 6) [ none ↦ 6 | some _ ↦ elim (h 7) [ none ↦ 7 | some _ ↦ null ] ]
]

first_unused-eq-none : (h : Heap) → first_unused h ≢ null → h (first_unused h) ≡ none
unfolding first_unused
first_unused-eq-none h n = ground arith

abbrev three : Allocator
three = record {
  malloc = first_unused;
  junk = λ _. node 99 98 (pos 97);
  unused = first_unused-eq-none;
}

abbrev empty_heap : Heap
empty_heap _ = none

-- An empty queue at 4.
abbrev with_queue : Heap
with_queue = update empty_heap 4 (some (node null null (pos 0)))

-- 10 and 11 are put in; 10 comes out, and then nothing.
abbrev session : Cmd (ℤ × ℤ)
session = do
  q ← queue_init three
  queue_enqueue three q (pos 10)
  queue_enqueue three q (pos 11)
  x ← queue_dequeue q
  y ← queue_dequeue q
  λ h. ok (x, y) h

abbrev value : {A : Type 0} → Run A → Option A
value (ok x _) = some x
value _ = none

second_is_lost : value (session empty_heap) ≡ some (pos 10, negsuc 0)
unfolding queue_init queue_enqueue queue_dequeue allocate set_head set_tail set_elem load store free
    first_unused
second_is_lost = refl

with_queue-IsEmpty : IsEmpty with_queue 4
with_queue-IsEmpty = record { ne_null = omega arith; unread = pos 0; at_queue = refl }

granted_one : first_unused with_queue ≢ null
unfolding first_unused
granted_one = omega arith

queue_enqueue_refines_example :
    (g : Heap) × (queue_enqueue three 4 (pos 10) with_queue ≡ ok tt g) × IsLatch g 4 (some (pos 10))
queue_enqueue_refines_example =
    queue_enqueue_refines three with_queue 4 none (pos 10) with_queue-IsEmpty granted_one

queue_dequeue_refines_example :
    (g : Heap) × (queue_dequeue 4 with_queue ≡ ok nothing g) × IsLatch g 4 none
queue_dequeue_refines_example = queue_dequeue_refines with_queue 4 none with_queue-IsEmpty

-- An allocator that has nothing left.
abbrev exhausted : Allocator
exhausted = record {
  malloc = λ _. null;
  junk = λ _. node null null (pos 0);
  unused = λ h n. absurd (n refl);
}

-- A queue at 4 with one node at 5.
abbrev with_one : Heap
with_one = update (update empty_heap 4 (some (node 5 5 (pos 0)))) 5 (some (node null null (pos 10)))

with_one-IsHolding : IsHolding with_one 4 (pos 10)
with_one-IsHolding = record {
  ne_null = omega arith;
  unread = pos 0;
  first = 5;
  last = 5;
  at_queue = refl;
  first_ne_null = omega arith;
  first_ne_queue = omega arith;
  first_tail = null;
  at_first = refl;
  last_ne_null = omega arith;
  last_ne_queue = omega arith;
  last_tail = null;
  last_elem = pos 10;
  at_last = refl;
}

queue_enqueue-Refused_instance : Refused exhausted with_one 4 (some (pos 10)) (pos 11)
queue_enqueue-Refused_instance =
    queue_enqueue-Refused exhausted with_one 4 (some (pos 10)) (pos 11) with_one-IsHolding refl

queue_destroy-Without_instance :
    (g : Heap) × (queue_destroy 2 4 with_one ≡ ok tt g) × Without with_one 4 g
queue_destroy-Without_instance =
    queue_destroy-Without 0 with_one 4 (some (pos 10)) with_one-IsHolding

abbrev heap_of : {A : Type 0} → Run A → Heap
heap_of (ok x h) = h
heap_of _ = empty_heap

Granted-two : Granted three 4 (pos 10 ∷ pos 11 ∷ []) with_queue
unfolding queue_enqueue queue_init allocate set_head set_tail set_elem load store first_unused
Granted-two = (
  omega arith,
  λ g e.
      let room : first_unused (heap_of (queue_enqueue three 4 (pos 10) with_queue)) ≢ null =
        omega arith in
      (subst (λ h. first_unused h ≢ null) (ap heap_of e) room, λ f e'. tt),
)

queue_keeps_first_example :
    (f : Heap) × (g : Heap) × (enqueue_all three 4 (pos 10 ∷ pos 11 ∷ []) with_queue ≡ ok tt f)
    × (queue_dequeue 4 f ≡ ok (pos 10) g)
    × (queue_dequeue 4 g ≡ ok nothing g)
queue_keeps_first_example =
    queue_keeps_first three with_queue 4 (pos 10) (pos 11 ∷ []) with_queue-IsEmpty Granted-two
