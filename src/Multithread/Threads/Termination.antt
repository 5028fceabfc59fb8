-- ===== src/Multithread/Threads/Termination.antt =====
-- lab5/multithread.c: every order of the steps of two threads comes to an end.
use syssoft_labs.Prelude.{ℕ, ◌≡◌, ◌≢◌, inl, inr}
use syssoft_labs.Multithread.Code.{Memory, Code, done, load, store}
use syssoft_labs.Multithread.Sync.{SyncType, unsynchronized}
use syssoft_labs.Multithread.Threads.{
  Thread, waiting, inside, finished, Move, enter, read, write, leave, System, Step, by_first,
  by_second, init, Reach, start, later,
}
use syssoft_labs.Multithread.Threads.Progress.{movers}

-- Where a thread may stand after its next step, whatever the string and the counter hold.
abbrev Next : (Thread → Type 0) → Thread → Type 0
Next P (waiting c) = P (inside c)
Next P (inside done) = P finished
Next P (inside (load a k)) = (x : ℕ) → P (inside (k x))
Next P (inside (store a b c)) = P (inside c)
Next P finished = Unit

Move-Next :
    {s : SyncType} {m m' : Memory} {v w : ℕ} {t t' : Thread} (P : Thread → Type 0)
    → Move s m v t m' w t'
    → Next P t
    → P t'
Move-Next P (enter e) n = n
Move-Next {m} P (read {a}) n = n (m a)
Move-Next P write n = n
Move-Next P leave n = n

-- No sequence of steps of two threads goes on for ever.
pub data Halts (s : SyncType) : Thread → Thread → Type 0 where
  halts :
      {t u : Thread}
      → ((m : Memory) (v : ℕ) (m' : Memory) (w : ℕ) (t' : Thread)
          → Move s m v t m' w t'
          → Halts s t' u)
      → ((m : Memory) (v : ℕ) (m' : Memory) (w : ℕ) (u' : Thread)
          → Move s m v u m' w u'
          → Halts s t u')
      → Halts s t u

module _ (s : SyncType) where
  by_parts :
      {t u : Thread} → Next (λ t'. Halts s t' u) t → Next (λ u'. Halts s t u') u → Halts s t u
  by_parts {t} {u} n k =
      halts (λ m v m' w t' mv. Move-Next (λ t'. Halts s t' u) mv n)
        (λ m v m' w u' mv. Move-Next (λ u'. Halts s t u') mv k)

  Halts-second : (d : Code) → Halts s finished (inside d)
  Halts-second done = by_parts tt (by_parts tt tt)
  Halts-second (load a k) = by_parts tt (λ x. Halts-second (k x))
  Halts-second (store a b d) = by_parts tt (Halts-second d)

  Halts-first : (c : Code) → Halts s (inside c) finished
  Halts-first done = by_parts (by_parts tt tt) tt
  Halts-first (load a k) = by_parts (λ x. Halts-first (k x)) tt
  Halts-first (store a b c) = by_parts (Halts-first c) tt

  Halts-both : (c d : Code) → Halts s (inside c) (inside d)
  Halts-both done done = by_parts (Halts-second done) (Halts-first done)
  Halts-both done (load a k) = by_parts (Halts-second (load a k)) (λ x. Halts-both done (k x))
  Halts-both done (store a b d) = by_parts (Halts-second (store a b d)) (Halts-both done d)
  Halts-both (load a k) done = by_parts (λ x. Halts-both (k x) done) (Halts-first (load a k))
  Halts-both (load a k) (load a' k') =
      by_parts (λ x. Halts-both (k x) (load a' k')) (λ x. Halts-both (load a k) (k' x))
  Halts-both (load a k) (store a' b' d) =
      by_parts (λ x. Halts-both (k x) (store a' b' d)) (Halts-both (load a k) d)
  Halts-both (store a b c) done = by_parts (Halts-both c done) (Halts-first (store a b c))
  Halts-both (store a b c) (load a' k') =
      by_parts (Halts-both c (load a' k')) (λ x. Halts-both (store a b c) (k' x))
  Halts-both (store a b c) (store a' b' d) =
      by_parts (Halts-both c (store a' b' d)) (Halts-both (store a b c) d)

  Halts-waiting_inside : (c d : Code) → Halts s (waiting c) (inside d)
  Halts-waiting_inside c done = by_parts (Halts-both c done) (by_parts (Halts-first c) tt)
  Halts-waiting_inside c (load a k) =
      by_parts (Halts-both c (load a k)) (λ x. Halts-waiting_inside c (k x))
  Halts-waiting_inside c (store a b d) =
      by_parts (Halts-both c (store a b d)) (Halts-waiting_inside c d)

  Halts-inside_waiting : (c d : Code) → Halts s (inside c) (waiting d)
  Halts-inside_waiting done d = by_parts (by_parts tt (Halts-second d)) (Halts-both done d)
  Halts-inside_waiting (load a k) d =
      by_parts (λ x. Halts-inside_waiting (k x) d) (Halts-both (load a k) d)
  Halts-inside_waiting (store a b c) d =
      by_parts (Halts-inside_waiting c d) (Halts-both (store a b c) d)

  pub Halts-all : (t u : Thread) → Halts s t u
  Halts-all (waiting c) (waiting d) = by_parts (Halts-inside_waiting c d) (Halts-waiting_inside c d)
  Halts-all (waiting c) (inside d) = Halts-waiting_inside c d
  Halts-all (waiting c) finished = by_parts (Halts-first c) tt
  Halts-all (inside c) (waiting d) = Halts-inside_waiting c d
  Halts-all (inside c) (inside d) = Halts-both c d
  Halts-all (inside c) finished = Halts-first c
  Halts-all finished (waiting d) = by_parts tt (Halts-second d)
  Halts-all finished (inside d) = Halts-second d
  Halts-all finished finished = by_parts tt tt

Reach-prepend : {s : SyncType} {x y z : System} → Step s x y → Reach s y z → Reach s x z
Reach-prepend st start = later start st
Reach-prepend st (later r st') = later (Reach-prepend st r) st'

-- From `x` some further steps lead to a state in which both threads have finished.
abbrev pub Completes : SyncType → System → Type 0
Completes s x = (y : System) × Reach s x y × (y.first ≡ finished) × (y.second ≡ finished)

abbrev after : Memory → ℕ → Thread → Thread → System
after n v t u = record { memory = n; counter = v; first = t; second = u }

prepend : {s : SyncType} {x y : System} → Step s x y → Completes s y → Completes s x
prepend st (z, r, p, q) = (z, Reach-prepend st r, p, q)

module _ {s : SyncType} (b : s ≢ unsynchronized) (len : ℕ) (m : Memory) where
  completes :
      {t u : Thread} (n : Memory) (v : ℕ)
      → Halts s t u
      → Reach s (init s len m) (after n v t u)
      → Completes s (after n v t u)
  completes {t} {u} n v (halts f g) r = elim (movers b len m r) [
    | inl (p, q) ↦ (_, start, p, q)
    | inr (inl (n', w, t', mv)) ↦
        prepend {y = after n' w t' u} (by_first mv)
          (completes n' w (f n v n' w t' mv) (later r (by_first mv)))
    | inr (inr (n', w, u', mv)) ↦
        prepend {y = after n' w t u'} (by_second mv)
          (completes n' w (g n v n' w u' mv) (later r (by_second mv)))
  ]

  -- With a semaphore, no order of the steps goes on for ever, and from every state that is reached
  -- some order leads to one in which both threads have finished.
  pub round_terminates :
      {x : System} → Reach s (init s len m) x → Halts s x.first x.second × Completes s x
  round_terminates {x} r =
      let h = Halts-all s x.first x.second in (h, completes x.memory x.counter h r)
