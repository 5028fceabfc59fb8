-- ===== src/DirServer/Queue/Latch.antt =====
-- lab6/queue.c: what the queue is for its clients: a latch that holds the first value put into it.
use syssoft_labs.Prelude.{◌≡◌, ◌≢◌, Option, none, some, arith, ◌==◌, if◌then◌else◌}
use syssoft_labs.Prelude.Family.{update}
use syssoft_labs.Prelude.Int.{ℤ}
use syssoft_labs.DirServer.Heap.{
  Ptr, null, Node, Heap, ok, load, store, set_head, set_tail, set_elem, Allocator,
}
use syssoft_labs.DirServer.Queue.{allocate, queue_init, queue_enqueue}

abbrev pub node : Ptr → Ptr → ℤ → Node
node p t e = record { head = p; tail = t; elem = e }

-- The queue at `q` is empty.
pub record IsEmpty (h : Heap) (q : Ptr) : Type 0 where
  pub ne_null : q ≢ null
  pub unread : ℤ
  pub at_queue : h q ≡ some (node null null unread)

-- The queue at `q` has `x` at its front, and nothing that `queue_dequeue` can reach behind it.
pub record IsHolding (h : Heap) (q : Ptr) (x : ℤ) : Type 0 where
  pub ne_null : q ≢ null
  pub unread : ℤ
  pub first : Ptr
  pub last : Ptr
  pub at_queue : h q ≡ some (node first last unread)
  pub first_ne_null : first ≢ null
  pub first_ne_queue : first ≢ q
  pub first_tail : Ptr
  pub at_first : h first ≡ some (node null first_tail x)
  pub last_ne_null : last ≢ null
  pub last_ne_queue : last ≢ q
  pub last_tail : Ptr
  pub last_elem : ℤ
  pub at_last : h last ≡ some (node null last_tail last_elem)

-- What a latch holds once `e` is put into it.
abbrev pub latched : Option ℤ → ℤ → ℤ
latched none e = e
latched (some x) e = x

module _ (a : Allocator) where
  open a use {malloc, junk, unused}

  -- With memory granted, `queue_init` adds an empty node at an address that was not in use.
  pub queue_init_lem :
      (h : Heap)
      → malloc h ≢ null
      → (g : Heap) × (queue_init a h ≡ ok (malloc h) g)
        × ((x : Ptr) → g x ≡ update h (malloc h) (some (node null null (junk h).elem)) x)
  unfolding queue_init allocate set_head set_tail store load
  queue_init_lem h n = (
    update
        (update (update h (malloc h) (some (junk h))) (malloc h)
          (some (record (junk h) { head = null })))
        (malloc h) (some (node null null (junk h).elem)),
    ground arith,
    λ x. ground arith,
  )

  -- When memory is refused, so is the queue.
  pub queue_init-null : (h : Heap) → malloc h ≡ null → queue_init a h ≡ ok null h
  unfolding queue_init allocate
  queue_init-null h e = ground (arith, e)

  -- A new queue is empty.
  pub queue_init-IsEmpty :
      (h : Heap)
      → malloc h ≢ null
      → (g : Heap) × (queue_init a h ≡ ok (malloc h) g) × IsEmpty g (malloc h)
  queue_init-IsEmpty h n =
      let (g, made, at) = queue_init_lem h n in
      (
        g,
        made,
        record { ne_null = n; unread = (junk h).elem; at_queue = ground (arith, at (malloc h)) },
      )

  pub enqueue-IsEmpty :
      (h : Heap) (q : Ptr) (e : ℤ)
      → IsEmpty h q
      → malloc h ≢ null
      → (g : Heap) × (queue_enqueue a q e h ≡ ok tt g) × IsHolding g q e
  unfolding queue_enqueue set_head set_tail set_elem store load
  enqueue-IsEmpty h q e i n =
      let (g, made, at) = queue_init_lem h n in
      let p : Ptr = malloc h in
      (
        update (update (update g q (some (node p null i.unread))) q (some (node p p i.unread))) p
            (some (node null null e)),
        ground (arith, made, at q, at p, unused h n, i.at_queue, i.ne_null),
        record {
          ne_null = i.ne_null;
          unread = i.unread;
          first = p;
          last = p;
          at_queue = ground (arith, unused h n, i.at_queue);
          first_ne_null = n;
          first_ne_queue = ground (arith, unused h n, i.at_queue);
          first_tail = null;
          at_first = ground arith;
          last_ne_null = n;
          last_ne_queue = ground (arith, unused h n, i.at_queue);
          last_tail = null;
          last_elem = e;
          at_last = ground arith;
        },
      )

  pub enqueue-IsHolding :
      (h : Heap) (q : Ptr) (x e : ℤ)
      → IsHolding h q x
      → malloc h ≢ null
      → (g : Heap) × (queue_enqueue a q e h ≡ ok tt g) × IsHolding g q x
  unfolding queue_enqueue set_head set_tail set_elem store load
  enqueue-IsHolding h q x e i n =
      let (g, made, at) = queue_init_lem h n in
      let p : Ptr = malloc h in
      let l : Ptr = i.last in
      let linked = update g l (some (node null p i.last_elem)) in
      (
        update (update linked p (some (node null null e))) q (some (node i.first p i.unread)),
        ground (
          arith,
          made,
          at q,
          at p,
          at l,
          unused h n,
          i.at_queue,
          i.ne_null,
          i.at_last,
          i.last_ne_null,
          i.last_ne_queue,
        ),
        record {
          ne_null = i.ne_null;
          unread = i.unread;
          first = i.first;
          last = p;
          at_queue = ground arith;
          first_ne_null = i.first_ne_null;
          first_ne_queue = i.first_ne_queue;
          first_tail = if l == i.first then p else i.first_tail;
          at_first = ground (
            arith,
            at i.first,
            unused h n,
            i.at_first,
            i.at_last,
            i.first_ne_queue,
            i.last_ne_null,
          );
          last_ne_null = n;
          last_ne_queue = ground (arith, unused h n, i.at_queue);
          last_tail = null;
          last_elem = e;
          at_last = ground (arith, unused h n, i.at_queue);
        },
      )
