-- ===== src/Multithread/Threads/Rounds.antt =====
-- lab5/multithread.c: what one round of `main` does to the string under a semaphore.
use syssoft_labs.Prelude.{
  ℕ, ◌-◌, ◌<◌, ◌≡◌, ◌≢◌, refl, ap, ◌∙◌, ◌⊎◌, inl, inr, Bool, true, false, arith, ltb, lt→ltb,
  if◌then◌else◌, ◌||◌,
}
use syssoft_labs.Multithread.Code.{Memory, run, iterate}
use syssoft_labs.Multithread.Passes.{reverse, change_register, is_upper, is_lower}
use syssoft_labs.Multithread.Effect.{reversed, mapped, run-reverse, run-change_register, toggle}
use syssoft_labs.Multithread.Sync.{SyncType, unsynchronized}
use syssoft_labs.Multithread.Threads.{Thread, waiting, inside, finished, System, init, Reach}
use syssoft_labs.Multithread.Threads.Serial.{Serial, Reach-Serial, init_sync-eq}

-- Reversing and editing byte by byte commute.
pub mapped-reversed :
    (f : ℕ → ℕ) (len : ℕ) (m : Memory) (j : ℕ)
    → mapped f len (reversed len m) j ≡ (if ltb j len then f (m (len - 1 - j)) else m j)
mapped-reversed f len m j = ground arith

pub reversed-mapped :
    (f : ℕ → ℕ) (len : ℕ) (m : Memory) (j : ℕ)
    → reversed len (mapped f len m) j ≡ (if ltb j len then f (m (len - 1 - j)) else m j)
reversed-mapped f len m j = ground arith

abbrev pub is_inside : Thread → Bool
is_inside (inside c) = true
is_inside _ = false

module _ {s : SyncType} (b : s ≢ unsynchronized) (len : ℕ) (m : Memory) {x : System}
    (r : Reach s (init s len m) x) where
  serial : Serial (reverse len) (change_register len) m x.first x.second x.counter x.memory
  serial =
      Reach-Serial b (reverse len) (change_register len) m r (init_sync-eq s b, refl, refl, refl)

  never_both :
      (t u : Thread)
      → Serial (reverse len) (change_register len) m t u x.counter x.memory
      → is_inside t ≡ true
      → is_inside u ≡ true
      → ⊥
  never_both (inside c) (inside d) i p q = i
  never_both (inside c) (waiting d) i p q = cc
  never_both (inside c) finished i p q = cc
  never_both (waiting c) u i p q = cc
  never_both finished u i p q = cc

  -- With a POSIX or System V semaphore, the two threads are never between `lock` and `unlock`
  -- together, however their steps interleave.
  pub mutual_exclusion : ¬ ((is_inside x.first ≡ true) × (is_inside x.second ≡ true))
  mutual_exclusion h = never_both x.first x.second serial h.0 h.1

  result :
      (n : Memory)
      → (n ≡ run (change_register len) (run (reverse len) m))
        ⊎ (n ≡ run (reverse len) (run (change_register len) m))
      → (j : ℕ) → n j ≡ (if ltb j len then iterate 5 toggle (m (len - 1 - j)) else m j)
  result n (inl e) j =
      ap (λ (f : Memory). f j)
        (e ∙ ap (run (change_register len)) (run-reverse len m) ∙ run-change_register len _)
      ∙ mapped-reversed (iterate 5 toggle) len m j
  result n (inr e) j =
      ap (λ (f : Memory). f j)
        (e ∙ ap (run (reverse len)) (run-change_register len m) ∙ run-reverse len _)
      ∙ reversed-mapped (iterate 5 toggle) len m j

  finished_case :
      (t u : Thread)
      → Serial (reverse len) (change_register len) m t u x.counter x.memory
      → t ≡ finished
      → u ≡ finished
      → (j : ℕ) → x.memory j ≡ (if ltb j len then iterate 5 toggle (m (len - 1 - j)) else m j)
  finished_case finished finished i p q j = result x.memory i.1 j
  finished_case (waiting c) u i p q j = cc
  finished_case (inside c) u i p q j = cc
  finished_case finished (waiting c) i p q j = cc
  finished_case finished (inside c) i p q j = cc

  -- With a semaphore, in whatever order the steps of the threads are taken, when both threads have
  -- finished the first `len` bytes are reversed, each changed five times by the rule of
  -- `change_register`, and the other bytes are as before.
  pub round_result :
      x.first ≡ finished
      → x.second ≡ finished
      → (j : ℕ) → x.memory j ≡ (if ltb j len then iterate 5 toggle (m (len - 1 - j)) else m j)
  round_result = finished_case x.first x.second serial

abbrev pub is_letter : ℕ → Bool
is_letter c = is_upper c || is_lower c

pub toggle_twice : (c : ℕ) → is_letter c ≡ true → toggle (toggle c) ≡ c
toggle_twice c h = ground arith

-- On a letter, five changes are one change.
pub toggle_five : (c : ℕ) → is_letter c ≡ true → iterate 5 toggle c ≡ toggle c
toggle_five c h =
    ap (λ d. toggle (toggle (toggle d))) (toggle_twice c h) ∙ ap toggle (toggle_twice c h)

-- With a semaphore, a string of letters ends a round reversed and with the case of every letter
-- changed, whatever the order of the steps.
pub round_result_letters :
    {s : SyncType} (b : s ≢ unsynchronized) (len : ℕ) (m : Memory) {x : System}
    → Reach s (init s len m) x
    → ((k : ℕ) → k < len → is_letter (m k) ≡ true)
    → x.first ≡ finished
    → x.second ≡ finished
    → (j : ℕ) → j < len
    → x.memory j ≡ toggle (m (len - 1 - j))
round_result_letters b len m {x} r letters p q j h =
    round_result b len m r p q j
    ∙ rw (lt→ltb j len h) (toggle_five (m (len - 1 - j)) (letters (len - 1 - j) (omega arith)))
