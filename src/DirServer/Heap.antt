-- ===== src/DirServer/Heap.antt =====
-- lab6/queue.c: the memory that holds its nodes, and commands that read and write it.
use syssoft_labs.Prelude.{ℕ, ◌≡◌, ◌≢◌, Option, none, some, ◌==◌, if◌then◌else◌}
use syssoft_labs.Prelude.Family.{update}
use syssoft_labs.Prelude.Int.{ℤ}

abbrev pub Ptr : Type 0
Ptr = ℕ

abbrev pub null : Ptr
null = 0

-- `struct queue`, which serves as the queue and as a node of it
pub record Node : Type 0 where
  pub head : Ptr
  pub tail : Ptr
  pub elem : ℤ

-- `none`: no node is allocated there
abbrev pub Heap : Type 0
Heap = Ptr → Option Node

-- How a function that uses the heap ends. `fault` is an access through NULL or to memory that is not
-- allocated.
pub data Run (A : Type 0) : Type 0 where
  ok : A → Heap → Run A
  fault : Run A
  out_of_fuel : Run A

abbrev pub Cmd : Type 0 → Type 0
Cmd A = Heap → Run A

abbrev pub return : {A : Type 0} → A → Cmd A
return = ok

module _ {A B : Type 0} where
  -- the rest of a block of statements, on the outcome of what ran before it
  abbrev pub resume : Run A → (A → Cmd B) → Run B
  resume fault rest = fault
  resume out_of_fuel rest = out_of_fuel
  resume (ok a h) rest = rest a h

  infixl 5 ◌>>=◌ ◌>>◌
  abbrev pub ◌>>=◌ : Cmd A → (A → Cmd B) → Cmd B
  c >>= rest = λ h. resume (c h) rest

  abbrev pub ◌>>◌ : Cmd A → Cmd B → Cmd B
  c >> d = c >>= λ _. d

-- `*p`
unfoldable pub load : Ptr → Cmd Node
load p h = if p == null then fault else elim (h p) [ none ↦ fault | some n ↦ ok n h ]

-- `*p = n`, where `p` is allocated
unfoldable pub store : Ptr → Node → Cmd (Unit {0})
unfolding load
store p n = load p >>= λ _. λ h. ok tt (update h p (some n))

-- `p->head = r`, `p->tail = r` and `p->elem = e`
unfoldable pub set_head : Ptr → Ptr → Cmd (Unit {0})
set_head p r = do n ← load p; store p (record n { head = r })

unfoldable pub set_tail : Ptr → Ptr → Cmd (Unit {0})
set_tail p r = do n ← load p; store p (record n { tail = r })

unfoldable pub set_elem : Ptr → ℤ → Cmd (Unit {0})
set_elem p e = do n ← load p; store p (record n { elem = e })

-- `free(NULL)` does nothing.
unfoldable pub free : Ptr → Cmd (Unit {0})
free p = if p == null then return tt else (load p >>= λ _. λ h. ok tt (update h p none))

-- What `malloc` answers, NULL or the address of memory that was not in use, and what that memory
-- holds.
pub record Allocator : Type 0 where
  pub malloc : Heap → Ptr
  pub junk : Heap → Node
  pub unused : (h : Heap) → malloc h ≢ null → h (malloc h) ≡ none
