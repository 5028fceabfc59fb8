-- ===== src/Multithread/Threads/Progress.antt =====
-- lab5/multithread.c: under a semaphore no reachable state is stuck before both threads finish.
use syssoft_labs.Prelude.{ℕ, suc, ◌≡◌, ◌≢◌, refl, ◌⊎◌, inl, inr, some}
use syssoft_labs.Multithread.Code.{Memory, Code, done, load, store}
use syssoft_labs.Multithread.Passes.{reverse, change_register}
use syssoft_labs.Multithread.Sync.{SyncType, sem, ipc_sem, unsynchronized, lock}
use syssoft_labs.Multithread.Threads.{
  Thread, waiting, inside, finished, Move, enter, read, write, leave, System, Step, by_first,
  by_second, init, Reach,
}
use syssoft_labs.Multithread.Threads.Serial.{Serial, Reach-Serial, init_sync-eq}

-- A next step of a thread that stands at `t`.
abbrev pub CanMove : SyncType → Memory → ℕ → Thread → Type 0
CanMove s m v t = (m' : Memory) × (w : ℕ) × (t' : Thread) × Move s m v t m' w t'

inside_moves : (s : SyncType) (m : Memory) (v : ℕ) (c : Code) → CanMove s m v (inside c)
inside_moves s m v done = (_, _, _, leave)
inside_moves s m v (load a k) = (_, _, _, read)
inside_moves s m v (store a b c) = (_, _, _, write)

lock-free : (s : SyncType) (v : ℕ) → (w : ℕ) × (lock s (suc v) ≡ some w)
unfolding lock
lock-free sem v = (v, refl)
lock-free ipc_sem v = (v, refl)
lock-free unsynchronized v = (suc v, refl)

waiting_moves : (s : SyncType) (m : Memory) (v : ℕ) (c : Code) → v ≡ 1 → CanMove s m v (waiting c)
waiting_moves s m v c e = let (w, h) = lock-free s 0 in (m, w, inside c, enter (rw e h))

module _ (s : SyncType) (p q : Code) (m : Memory) where
  some_moves :
      (t u : Thread) (v : ℕ) (n : Memory)
      → Serial p q m t u v n
      → ((t ≡ finished) × (u ≡ finished)) ⊎ (CanMove s n v t ⊎ CanMove s n v u)
  some_moves (inside c) u v n i = inr (inl (inside_moves s n v c))
  some_moves (waiting c) (waiting d) v n i = inr (inl (waiting_moves s n v c i.0))
  some_moves (waiting c) (inside d) v n i = inr (inr (inside_moves s n v d))
  some_moves (waiting c) finished v n i = inr (inl (waiting_moves s n v c i.0))
  some_moves finished (waiting d) v n i = inr (inr (waiting_moves s n v d i.0))
  some_moves finished (inside d) v n i = inr (inr (inside_moves s n v d))
  some_moves finished finished v n i = inl (refl, refl)

-- Which thread can move in a reachable state.
pub movers :
    {s : SyncType}
    → s ≢ unsynchronized
    → (len : ℕ) (m : Memory) {x : System} → Reach s (init s len m) x
    → ((x.first ≡ finished) × (x.second ≡ finished))
      ⊎ (CanMove s x.memory x.counter x.first ⊎ CanMove s x.memory x.counter x.second)
movers {s} b len m {x} r =
    some_moves s (reverse len) (change_register len) m x.first x.second x.counter x.memory
      (Reach-Serial b (reverse len) (change_register len) m r (init_sync-eq s b, refl, refl, refl))

-- With a semaphore, in every state that the two threads reach both have finished or one of them
-- has a next step: neither waits for ever.
pub no_deadlock :
    {s : SyncType}
    → s ≢ unsynchronized
    → (len : ℕ) (m : Memory) {x : System} → Reach s (init s len m) x
    → ((x.first ≡ finished) × (x.second ≡ finished)) ⊎ ((y : System) × Step s x y)
no_deadlock b len m r = elim (movers b len m r) [
  | inl end ↦ inl end
  | inr (inl (n, w, t, mv)) ↦ inr (_, by_first mv)
  | inr (inr (n, w, t, mv)) ↦ inr (_, by_second mv)
]
