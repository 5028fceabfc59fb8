-- ===== src/Multithread/Loops/Shown.antt =====
-- lab5/multithread6.c: what `main` prints while the two threads edit the string.
use mathlib.Core.Path.{fun_ext}
use syssoft_labs.Prelude.{
  ℕ, zero, suc, ◌+◌, ◌-◌, ◌<◌, ◌≡◌, ◌≢◌, refl, ap, ◌∙◌, Bool, true, false, [], ◌∷◌, ◌++◌, All,
  All-map, arith, if◌then◌else◌,
}
use mathlib.Core.List.{append_assoc, append-nil}
use syssoft_labs.Prelude.CString.{CString}
use syssoft_labs.Multithread.Code.{Memory, iterate}
use syssoft_labs.Multithread.Passes.{reverse, change_register}
use syssoft_labs.Multithread.Effect.{reversed, mapped, run-change_register, toggle}
use syssoft_labs.Multithread.Threads.Rounds.{is_letter, toggle_twice, toggle_five}
use syssoft_labs.Multithread.Loops.{mutex, unguarded, puts, read_all, World, Runs, after_init_sync}
use syssoft_labs.Multithread.Loops.Serial.{IsSnapshot, results-IsSnapshot}
use syssoft_labs.Multithread.Loops.Orbit.{variant, Orbit-variant}

-- the bytes from `i` on
abbrev pub text : (count i : ℕ) → Memory → CString
text zero i m = []
text (suc n) i m = m i ∷ text n (i + 1) m

-- `puts` stops at the NUL behind the string.
puts-text :
    (n i : ℕ) (shown : CString) (m : Memory)
    → ((j : ℕ) → j < i + n → m j ≢ 0)
    → m (i + n) ≡ 0
    → read_all (puts (suc n) i shown) m ≡ shown ++ text n i m
unfolding puts
puts-text zero i shown m h z =
    let e : m i ≡ 0 = ap m (omega arith) ∙ z in ground (arith, e, append-nil shown)
puts-text (suc n) i shown m h z =
    let n_zero : m i ≢ 0 = h i (omega arith) in
    let rest =
      puts-text n (i + 1) (shown ++ m i ∷ []) m (λ j l. h j (omega arith))
        (ap m (omega arith) ∙ z) in
    ground (arith, n_zero, rest, append_assoc shown (m i ∷ []) (text n (i + 1) m))

abbrev change_five : ℕ → ℕ
change_five c = iterate 5 toggle c

change_five-twice : (c : ℕ) → is_letter c ≡ true → change_five (change_five c) ≡ c
change_five-twice c l =
    ap change_five (toggle_five c l)
    ∙ ap (λ d. toggle (toggle (toggle (toggle d)))) (toggle_twice c l)
    ∙ ap (λ d. toggle (toggle d)) (toggle_twice c l)
    ∙ toggle_twice c l

change_five-letter : (c : ℕ) → is_letter c ≡ true → is_letter (change_five c) ≡ true
change_five-letter c l = ap is_letter (toggle_five c l) ∙ ground (arith, l)

module _ (len : ℕ) (m : Memory) (letters : (k : ℕ) → k < len → is_letter (m k) ≡ true)
    (nul : m len ≡ 0) where
  -- Each of the four strings has letters, and the NUL behind them.
  changed-letter :
      (c : Bool) (j : ℕ)
      → j < len
      → is_letter ((if c then mapped change_five len m else m) j) ≡ true
  changed-letter true j l = ground (arith, change_five-letter (m j) (letters j l))
  changed-letter false j l = letters j l

  variant-letter :
      (t c : Bool) (j : ℕ) → j < len → is_letter (variant change_five len t c m j) ≡ true
  variant-letter true c j l = ground (arith, changed-letter c (len - 1 - j) (omega arith))
  variant-letter false c j l = changed-letter c j l

  variant-nul : (t c : Bool) → variant change_five len t c m len ≡ 0
  variant-nul true true = ground (arith, nul)
  variant-nul true false = ground (arith, nul)
  variant-nul false true = ground (arith, nul)
  variant-nul false false = nul

  letter-nonzero : (c : ℕ) → is_letter c ≡ true → c ≢ 0
  letter-nonzero c l e = ground arith

  changed-toggle : mapped change_five len m ≡ mapped toggle len m
  changed-toggle = fun_ext λ j. ground (arith, toggle_five (m j), letters j)

  -- On letters, five changes are one.
  variant-toggle : (t c : Bool) → variant change_five len t c m ≡ variant toggle len t c m
  variant-toggle t false = refl
  variant-toggle t true = ap (λ (n : Memory). if t then reversed len n else n) changed-toggle

  -- What is printed of one of the four strings.
  abbrev pub IsShown : CString → Type 0
  IsShown a = (t : Bool) × (c : Bool) × (a ≡ text len 0 (variant toggle len t c m))

  IsSnapshot-IsShown :
      (a : CString)
      → IsSnapshot (reverse len) (change_register len) (puts (suc len) 0 []) m a
      → IsShown a
  IsSnapshot-IsShown a (n, o, e) =
      let (t, c, h) =
        Orbit-variant change_five len m (λ k l. change_five-twice (m k) (letters k l))
          (change_register len) n (run-change_register len) o in
      (
        t,
        c,
        e
            ∙ ap (read_all (puts (suc len) 0 [])) h
            ∙ puts-text len 0 [] (variant change_five len t c m)
                (λ j l. letter-nonzero _ (variant-letter t c j (omega arith)))
                (ap (variant change_five len t c m) (omega arith) ∙ variant-nul t c)
            ∙ ap (text len 0) (variant-toggle t c),
      )

mutex_guards : mutex ≢ unguarded
mutex_guards e = cc

-- In multithread6.c, where no thread calls `lock` before `init_sync` has returned, which the source does
-- not ensure: over a string of letters and however the steps of the threads interleave then, every
-- string that `main` prints is the first one or its reverse, with the case of every letter as it was
-- or with the case of every letter changed: never a string that a thread has half edited.
pub shown_whole :
    (len : ℕ) (m : Memory) (x : World CString)
    → ((k : ℕ) → k < len → is_letter (m k) ≡ true)
    → m len ≡ 0
    → Runs mutex (reverse len) (change_register len) (puts (suc len) 0 []) (after_init_sync m) x
    → All (λ a. (t : Bool) × (c : Bool) × (a ≡ text len 0 (variant toggle len t c m))) x.results
shown_whole len m x letters nul r =
    All-map (IsSnapshot (reverse len) (change_register len) (puts (suc len) 0 []) m)
      (IsShown len m letters nul) x.results (IsSnapshot-IsShown len m letters nul)
      (results-IsSnapshot mutex mutex_guards (reverse len) (change_register len)
        (puts (suc len) 0 []) m r)
