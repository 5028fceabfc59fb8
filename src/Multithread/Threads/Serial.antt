-- ===== src/Multithread/Threads/Serial.antt =====
-- lab5/multithread.c: with either semaphore the two bodies run one after the other, in some order.
use syssoft_labs.Prelude.{ℕ, zero, suc, ◌+◌, ◌≡◌, ◌≢◌, refl, ap₂, ◌⊎◌, inl, inr, some, arith}
use syssoft_labs.Multithread.Code.{Memory, Code, run}
use syssoft_labs.Multithread.Sync.{SyncType, sem, ipc_sem, unsynchronized, init_sync, lock, unlock}
use syssoft_labs.Multithread.Threads.{
  Thread, waiting, inside, finished, Move, enter, read, write, leave, System, Step, by_first,
  by_second, Reach, start, later,
}

-- Where two threads with the bodies `p` and `q` stand, over a string that began as `m`: at most one
-- is inside, the counter is 1 when none is, and the code that is left completes the body.
abbrev pub Serial : Code → Code → Memory → Thread → Thread → ℕ → Memory → Type 0
Serial p q m (waiting c) (waiting d) v n = (v ≡ 1) × (c ≡ p) × (d ≡ q) × (n ≡ m)
Serial p q m (inside c) (waiting d) v n = (v ≡ 0) × (d ≡ q) × (run c n ≡ run p m)
Serial p q m (waiting c) (inside d) v n = (v ≡ 0) × (c ≡ p) × (run d n ≡ run q m)
Serial p q m finished (waiting d) v n = (v ≡ 1) × (d ≡ q) × (n ≡ run p m)
Serial p q m (waiting c) finished v n = (v ≡ 1) × (c ≡ p) × (n ≡ run q m)
Serial p q m finished (inside d) v n = (v ≡ 0) × (run d n ≡ run q (run p m))
Serial p q m (inside c) finished v n = (v ≡ 0) × (run c n ≡ run p (run q m))
Serial p q m finished finished v n = (v ≡ 1) × ((n ≡ run q (run p m)) ⊎ (n ≡ run p (run q m)))
Serial p q m (inside c) (inside d) v n = ⊥

-- A semaphore of either kind is free exactly when its counter is positive.
lock-eq : (s : SyncType) (v w : ℕ) → s ≢ unsynchronized → lock s v ≡ some w → v ≡ suc w
unfolding lock
lock-eq sem zero w b e = cc
lock-eq sem (suc v) w b e = cc
lock-eq ipc_sem zero w b e = cc
lock-eq ipc_sem (suc v) w b e = cc
lock-eq unsynchronized v w b e = absurd (b refl)

unlock-eq : (s : SyncType) (v : ℕ) → s ≢ unsynchronized → unlock s v ≡ v + 1
unfolding unlock
unlock-eq sem v b = refl
unlock-eq ipc_sem v b = refl
unlock-eq unsynchronized v b = absurd (b refl)

module _ {s : SyncType} (b : s ≢ unsynchronized) (p q : Code) (m : Memory) where
  first-Serial :
      {n n' : Memory} {v w : ℕ} {t t' : Thread} (u : Thread)
      → Move s n v t n' w t'
      → Serial p q m t u v n
      → Serial p q m t' u w n'
  first-Serial {v} {w} (waiting d) (enter e) i =
      let h = lock-eq s v w b e in (omega arith, i.2, ap₂ run i.1 i.3)
  first-Serial {v} {w} (inside d) (enter e) i = absurd (omega (arith, lock-eq s v w b e, i.0))
  first-Serial {v} {w} finished (enter e) i =
      let h = lock-eq s v w b e in (omega arith, ap₂ run i.1 i.2)
  first-Serial (waiting d) read i = i
  first-Serial (inside d) read i = absurd i
  first-Serial finished read i = i
  first-Serial (waiting d) write i = i
  first-Serial (inside d) write i = absurd i
  first-Serial finished write i = i
  first-Serial {v} (waiting d) leave i = (omega (arith, unlock-eq s v b, i.0), i.1, i.2)
  first-Serial (inside d) leave i = absurd i
  first-Serial {v} finished leave i = (omega (arith, unlock-eq s v b, i.0), inr i.1)

  second-Serial :
      {n n' : Memory} {v w : ℕ} {u u' : Thread} (t : Thread)
      → Move s n v u n' w u'
      → Serial p q m t u v n
      → Serial p q m t u' w n'
  second-Serial {v} {w} (waiting c) (enter e) i =
      let h = lock-eq s v w b e in (omega arith, i.1, ap₂ run i.2 i.3)
  second-Serial {v} {w} (inside c) (enter e) i = absurd (omega (arith, lock-eq s v w b e, i.0))
  second-Serial {v} {w} finished (enter e) i =
      let h = lock-eq s v w b e in (omega arith, ap₂ run i.1 i.2)
  second-Serial (waiting c) read i = i
  second-Serial (inside c) read i = absurd i
  second-Serial finished read i = i
  second-Serial (waiting c) write i = i
  second-Serial (inside c) write i = absurd i
  second-Serial finished write i = i
  second-Serial {v} (waiting c) leave i = (omega (arith, unlock-eq s v b, i.0), i.1, i.2)
  second-Serial (inside c) leave i = absurd i
  second-Serial {v} finished leave i = (omega (arith, unlock-eq s v b, i.0), inl i.1)

  abbrev SerialAt : System → Type 0
  SerialAt x = Serial p q m x.first x.second x.counter x.memory

  Step-Serial : {x y : System} → Step s x y → SerialAt x → SerialAt y
  Step-Serial {x} (by_first mv) i = first-Serial x.second mv i
  Step-Serial {x} (by_second mv) i = second-Serial x.first mv i

  pub Reach-Serial : {x y : System} → Reach s x y → SerialAt x → SerialAt y
  Reach-Serial start i = i
  Reach-Serial (later r st) i = Step-Serial st (Reach-Serial r i)

-- With a semaphore, exactly one thread can enter at first.
pub init_sync-eq : (s : SyncType) → s ≢ unsynchronized → init_sync s ≡ 1
unfolding init_sync
init_sync-eq sem b = refl
init_sync-eq ipc_sem b = refl
init_sync-eq unsynchronized b = absurd (b refl)
