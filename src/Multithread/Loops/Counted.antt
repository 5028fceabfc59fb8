-- ===== src/Multithread/Loops/Counted.antt =====
-- lab5/multithread7.c: what `count_capitalized` prints while the other threads edit the string.
use mathlib.Core.Path.{fun_ext}
use syssoft_labs.Prelude.{
  ℕ, zero, suc, ◌+◌, ◌-◌, ◌≤◌, ◌≡◌, ◌≢◌, refl, ap, sym, ◌∙◌, ◌⊎◌, inl, inr, Bool, true, false, All,
  All-map, arith, if◌then◌else◌,
}
use syssoft_labs.Multithread.Code.{Memory, iterate}
use syssoft_labs.Multithread.Passes.{reverse, change_letters, is_upper, is_lower}
use syssoft_labs.Multithread.Effect.{reversed, mapped, run-change_letters, toggle_letter}
use syssoft_labs.Multithread.Loops.{
  reader, unguarded, count_capitalized, read_all, World, Runs, after_init_sync,
}
use syssoft_labs.Multithread.Loops.Serial.{IsSnapshot, results-IsSnapshot}
use syssoft_labs.Multithread.Loops.Orbit.{variant, Orbit-variant}

abbrev pub one : (ℕ → Bool) → Memory → ℕ → ℕ
one test m i = if test (m i) then 1 else 0

-- How many of the bytes from `i` on pass a test.
abbrev pub count : (ℕ → Bool) → (rounds i : ℕ) → Memory → ℕ
count test zero i m = 0
count test (suc n) i m = one test m i + count test n (i + 1) m

count_capitalized-count :
    (n i cnt : ℕ) (m : Memory) → read_all (count_capitalized n i cnt) m ≡ cnt + count is_upper n i m
unfolding count_capitalized
count_capitalized-count zero i cnt m = omega arith
count_capitalized-count (suc n) i cnt m = ground (
  arith,
  count_capitalized-count n (i + 1) cnt m,
  count_capitalized-count n (i + 1) (cnt + 0) m,
  count_capitalized-count n (i + 1) (cnt + 1) m,
)

eq_zero : (i : ℕ) → i ≡ i + 0
eq_zero i = omega arith

eq_suc : (i n : ℕ) → i + 1 + n ≡ i + suc n
eq_suc i n = omega arith

-- The count from the other end.
count_last :
    (test : ℕ → Bool) (n i : ℕ) (m : Memory)
    → count test (suc n) i m ≡ count test n i m + one test m (i + n)
count_last test zero i m = omega (arith, ap (one test m) (eq_zero i))
count_last test (suc n) i m =
    omega (arith, count_last test n (i + 1) m, ap (one test m) (eq_suc i n))

at_head : (i n : ℕ) (m : Memory) → reversed (i + suc n) m i ≡ m n
at_head i n m = let e : i + suc n - 1 - i ≡ n = omega arith in ground (arith, ap m e)

zero_plus : (n : ℕ) → 0 + n ≡ n
zero_plus n = omega arith

count-reversed_part :
    (test : ℕ → Bool) (n i : ℕ) (m : Memory)
    → count test n i (reversed (i + n) m) ≡ count test n 0 m
count-reversed_part test zero i m = refl
count-reversed_part test (suc n) i m =
    let head : one test (reversed (i + suc n) m) i ≡ one test m n =
      ap (λ c. if test c then 1 else 0) (at_head i n m) in
    let tail =
      ap (λ k. count test n (i + 1) (reversed k m)) (sym (eq_suc i n))
      ∙ count-reversed_part test n (i + 1) m in
    omega (arith, head, tail, count_last test n 0 m, ap (one test m) (zero_plus n))

count-mapped :
    (test : ℕ → Bool) (f : ℕ → ℕ) (len n i : ℕ) (m : Memory)
    → i + n ≤ len
    → count test n i (mapped f len m) ≡ count (λ c. test (f c)) n i m
count-mapped test f len zero i m h = refl
count-mapped test f len (suc n) i m h =
    ground (arith, h, count-mapped test f len n (i + 1) m (omega arith))

count-reversed :
    (test : ℕ → Bool) (len : ℕ) (m : Memory)
    → count test len 0 (reversed len m) ≡ count test len 0 m
count-reversed test len m =
    ap (λ k. count test len 0 (reversed k m)) (sym (zero_plus len))
    ∙ count-reversed_part test len 0 m

-- Five changes are one, and they make capital letters of the others.
abbrev change_five : ℕ → ℕ
change_five c = iterate 5 toggle_letter c

toggle_letter_twice : (c : ℕ) → toggle_letter (toggle_letter c) ≡ c
toggle_letter_twice c = ground arith

change_five_lem : (c : ℕ) → change_five c ≡ toggle_letter c
change_five_lem c =
    ap (λ d. toggle_letter (toggle_letter (toggle_letter d))) (toggle_letter_twice c)
    ∙ ap toggle_letter (toggle_letter_twice c)

change_five-twice : (c : ℕ) → change_five (change_five c) ≡ c
change_five-twice c =
    change_five_lem (change_five c) ∙ ap toggle_letter (change_five_lem c) ∙ toggle_letter_twice c

is_upper-change : (c : ℕ) → is_upper (change_five c) ≡ is_lower c
is_upper-change c = ap is_upper (change_five_lem c) ∙ ground arith

-- The capital letters of the four strings.
count-changed :
    (len : ℕ) (m : Memory) (c : Bool)
    → count is_upper len 0 (if c then mapped change_five len m else m)
      ≡ count (if c then is_lower else is_upper) len 0 m
count-changed len m true =
    count-mapped is_upper change_five len len 0 m (omega arith)
    ∙ ap (λ (test : ℕ → Bool). count test len 0 m) (fun_ext is_upper-change)
count-changed len m false = refl

count-variant :
    (len : ℕ) (m : Memory) (t c : Bool)
    → count is_upper len 0 (variant change_five len t c m)
      ≡ count (if c then is_lower else is_upper) len 0 m
count-variant len m true c =
    count-reversed is_upper len (if c then mapped change_five len m else m) ∙ count-changed len m c
count-variant len m false c = count-changed len m c

abbrev pub IsCounted : (len : ℕ) → Memory → ℕ → Type 0
IsCounted len m cnt = (cnt ≡ count is_upper len 0 m) ⊎ (cnt ≡ count is_lower len 0 m)

by_change :
    (len : ℕ) (m : Memory) (c : Bool) (cnt : ℕ)
    → cnt ≡ count (if c then is_lower else is_upper) len 0 m
    → IsCounted len m cnt
by_change len m true cnt e = inr e
by_change len m false cnt e = inl e

IsSnapshot-IsCounted :
    (len : ℕ) (m : Memory) (cnt : ℕ)
    → IsSnapshot (reverse len) (change_letters len) (count_capitalized len 0 0) m cnt
    → IsCounted len m cnt
IsSnapshot-IsCounted len m cnt (n, o, e) =
    let (t, c, h) =
      Orbit-variant change_five len m (λ k l. change_five-twice (m k)) (change_letters len) n
        (run-change_letters len) o in
    by_change len m c cnt (
      e
      ∙ count_capitalized-count len 0 0 n
      ∙ zero_plus (count is_upper len 0 n)
      ∙ ap (count is_upper len 0) h
      ∙ count-variant len m t c)

reader_guards : reader ≢ unguarded
reader_guards e = cc

-- In multithread7.c, where no thread calls `rlock` or `wlock` before `init_sync` has returned, which the
-- source does not ensure: over any string and however the steps of the threads interleave then, every
-- number that `count_capitalized` prints is the number of the capital letters of the first string or the
-- number of its small letters.
pub count_capitalized_lem :
    (len : ℕ) (m : Memory) (x : World ℕ)
    → Runs reader
        (reverse len)
        (change_letters len)
        (count_capitalized len 0 0)
        (after_init_sync m)
        x
    → All (IsCounted len m) x.results
count_capitalized_lem len m x r =
    All-map (IsSnapshot (reverse len) (change_letters len) (count_capitalized len 0 0) m)
      (IsCounted len m) x.results (IsSnapshot-IsCounted len m)
      (results-IsSnapshot reader reader_guards (reverse len) (change_letters len)
        (count_capitalized len 0 0) m r)
