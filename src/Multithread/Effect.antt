-- ===== src/Multithread/Effect.antt =====
-- lab5/multithread.c: what the two bodies do to the string when they run alone.
use mathlib.Core.Path.{fun_ext}
use syssoft_labs.Prelude.{
  ℕ, zero, suc, ◌+◌, ◌-◌, ◌*◌, ◌/◌, ◌≤◌, ◌≡◌, refl, ap, ◌∙◌, sym, arith, ltb, leb, ◌&&◌,
  if◌then◌else◌,
}
use syssoft_labs.Prelude.Family.{update}
use syssoft_labs.Multithread.Code.{Memory, Code, done, run, repeat, iterate}
use syssoft_labs.Multithread.Passes.{
  swaps, reverse, is_upper, is_lower, lower, upper, change, changes, change_register, change_letter,
  change_letters,
}

-- The first `len` bytes in reverse order; each of them under `f`.
abbrev pub reversed : ℕ → Memory → Memory
reversed len m j = if ltb j len then m (len - 1 - j) else m j

abbrev pub mapped : (ℕ → ℕ) → ℕ → Memory → Memory
mapped f len m j = if ltb j len then f (m j) else m j

-- `p` does to the memory what `f` says, and then goes on.
abbrev pub Does : (Code → Code) → (Memory → Memory) → Type 0
Does p f = (k : Code) (m : Memory) → run (p k) m ≡ run k (f m)

Does-repeat :
    (p : Code → Code) (f : Memory → Memory) (n : ℕ) → Does p f → Does (repeat n p) (iterate n f)
unfolding repeat
Does-repeat p f zero d k m = refl
Does-repeat p f (suc n) d k m = d (repeat n p k) m ∙ Does-repeat p f n d k (f m)

-- After the rounds below `i` the outer `i` bytes on both sides have changed places.
abbrev swapped_to : ℕ → ℕ → Memory → Memory
swapped_to len i m j =
    if ltb j i
    then m (len - 1 - j)
    else if (ltb j len) && leb (len - i) j
    then m (len - 1 - j)
    else m j

swap-step :
    (len i : ℕ) (m : Memory)
    → 2 * (i + 1) ≤ len
    → (j : ℕ)
    → update
        (update (swapped_to len i m) i (swapped_to len i m (len - i - 1)))
        (len - i - 1)
        (swapped_to len i m i)
        j
      ≡ swapped_to len (i + 1) m j
swap-step len i m h j = ground arith

-- The inner loop of `reverse` from `i` on, when the rounds before it are done.
swaps-run :
    (len n i : ℕ) (k : Code) (m : Memory)
    → 2 * (i + n) ≤ len
    → run (swaps len n i k) (swapped_to len i m) ≡ run k (swapped_to len (i + n) m)
unfolding swaps
swaps-run len zero i k m h = ap (λ n. run k (swapped_to len n m)) (omega arith)
swaps-run len (suc n) i k m h =
    let next = swaps-run len n (i + 1) k m (omega arith) in
    let e : i + 1 + n ≡ i + suc n = omega arith in
    ap (run (swaps len n (i + 1) k)) (fun_ext (swap-step len i m (omega arith))) ∙ (rw e at next)

swapped_to-zero : (len : ℕ) (m : Memory) (j : ℕ) → swapped_to len 0 m j ≡ m j
swapped_to-zero len m j = ground arith

swapped_to-half : (len : ℕ) (m : Memory) (j : ℕ) → swapped_to len (len / 2) m j ≡ reversed len m j
swapped_to-half len m j = ground arith

Does-swaps : (len : ℕ) → Does (swaps len (len / 2) 0) (reversed len)
Does-swaps len k m =
    ap (run (swaps len (len / 2) 0 k)) (sym (fun_ext (swapped_to-zero len m)))
    ∙ swaps-run len (len / 2) 0 k m (omega arith)
    ∙ ap (λ n. run k (swapped_to len n m)) (omega arith)
    ∙ ap (run k) (fun_ext (swapped_to-half len m))

-- `reverse` runs its loop five times, and leaves the string reversed.
pub reversed-twice : (len : ℕ) (m : Memory) → reversed len (reversed len m) ≡ m
reversed-twice len m = fun_ext λ j. ground arith

pub run-reverse : (len : ℕ) (m : Memory) → run (reverse len) m ≡ reversed len m
unfolding reverse
run-reverse len m =
    Does-repeat (swaps len (len / 2) 0) (reversed len) 5 (Does-swaps len) done m
    ∙ ap (λ x. reversed len (reversed len (reversed len x))) (reversed-twice len m)
    ∙ ap (reversed len) (reversed-twice len m)

-- One round of a loop over the bytes does `f` to byte `i`.
abbrev pub Edits : (ℕ → Code → Code) → (ℕ → ℕ) → Type 0
Edits round f = (i : ℕ) (k : Code) (m : Memory) → run (round i k) m ≡ run k (update m i (f (m i)))

abbrev mapped_to : (ℕ → ℕ) → ℕ → Memory → Memory
mapped_to f i m j = if ltb j i then f (m j) else m j

mapped-step :
    (f : ℕ → ℕ) (i : ℕ) (m : Memory) (j : ℕ)
    → update (mapped_to f i m) i (f (mapped_to f i m i)) j ≡ mapped_to f (i + 1) m j
mapped-step f i m j = ground arith

changes-run :
    (round : ℕ → Code → Code) (f : ℕ → ℕ) (n i : ℕ) (k : Code) (m : Memory)
    → Edits round f
    → run (changes round n i k) (mapped_to f i m) ≡ run k (mapped_to f (i + n) m)
unfolding changes
changes-run round f zero i k m d = ap (λ n. run k (mapped_to f n m)) (omega arith)
changes-run round f (suc n) i k m d =
    let e : i + 1 + n ≡ i + suc n = omega arith in
    d i (changes round n (i + 1) k) (mapped_to f i m)
    ∙ ap (run (changes round n (i + 1) k)) (fun_ext (mapped-step f i m))
    ∙ (rw e at (changes-run round f n (i + 1) k m d))

mapped_to-zero : (f : ℕ → ℕ) (m : Memory) (j : ℕ) → m j ≡ mapped_to f 0 m j
mapped_to-zero f m j = ground arith

pub Does-changes :
    (round : ℕ → Code → Code) (f : ℕ → ℕ) (len : ℕ)
    → Edits round f
    → Does (changes round len 0) (mapped f len)
Does-changes round f len d k m =
    ap (run (changes round len 0 k)) (fun_ext (mapped_to-zero f m))
    ∙ changes-run round f len 0 k m d
    ∙ ap (λ n. run k (mapped_to f n m)) (omega arith)

pub mapped-mapped :
    (f g : ℕ → ℕ) (len : ℕ) (m : Memory)
    → mapped f len (mapped g len m) ≡ mapped (λ c. f (g c)) len m
mapped-mapped f g len m = fun_ext λ j. ground arith

-- The same loop five times does `f` five times to every byte.
pub run-changes :
    (round : ℕ → Code → Code) (f : ℕ → ℕ) (len : ℕ) (m : Memory)
    → Edits round f
    → run (repeat 5 (changes round len 0) done) m ≡ mapped (iterate 5 f) len m
run-changes round f len m d =
    Does-repeat (changes round len 0) (mapped f len) 5 (Does-changes round f len d) done m
    ∙ fun_ext λ j. ground arith

-- What a round of multithread.c does to a byte, and a round of multithread7.c.
abbrev pub toggle : ℕ → ℕ
toggle c = if is_upper c then lower c else upper c

abbrev pub toggle_letter : ℕ → ℕ
toggle_letter c = if is_upper c then lower c else if is_lower c then upper c else c

Edits-change : Edits change toggle
unfolding change
Edits-change i k m = ground arith

update_self : (m : Memory) (i : ℕ) → m ≡ update m i (m i)
update_self m i = fun_ext λ j. ground arith

Edits-change_letter : Edits change_letter toggle_letter
unfolding change_letter
Edits-change_letter i k m = ground (arith, update_self m i)

pub run-change_register :
    (len : ℕ) (m : Memory) → run (change_register len) m ≡ mapped (iterate 5 toggle) len m
unfolding change_register
run-change_register len m = run-changes change toggle len m Edits-change

pub run-change_letters :
    (len : ℕ) (m : Memory) → run (change_letters len) m ≡ mapped (iterate 5 toggle_letter) len m
unfolding change_letters
run-change_letters len m = run-changes change_letter toggle_letter len m Edits-change_letter
