-- ===== src/Multithread/Loops/Orbit.antt =====
-- lab5/multithread6.c and lab5/multithread7.c: the four strings that the two bodies make of one.
use mathlib.Core.Path.{fun_ext}
use syssoft_labs.Prelude.{
  ℕ, ◌<◌, ◌≡◌, refl, ap, sym, ◌∙◌, Bool, true, false, not, arith, if◌then◌else◌,
}
use syssoft_labs.Multithread.Code.{Memory, Code, run}
use syssoft_labs.Multithread.Passes.{reverse}
use syssoft_labs.Multithread.Effect.{reversed, mapped, run-reverse, reversed-twice, mapped-mapped}
use syssoft_labs.Multithread.Threads.Rounds.{mapped-reversed, reversed-mapped}
use syssoft_labs.Multithread.Loops.Serial.{Orbit, same_string, after_first, after_second}

-- The string reversed or not, its bytes changed or not.
abbrev pub variant : (f : ℕ → ℕ) (len : ℕ) (turned changed : Bool) → Memory → Memory
variant f len turned changed m =
    let n = if changed then mapped f len m else m in if turned then reversed len n else n

module _ (f : ℕ → ℕ) (len : ℕ) (m : Memory) (twice : (k : ℕ) → k < len → f (f (m k)) ≡ m k) where
  mapped-twice : mapped f len (mapped f len m) ≡ m
  mapped-twice = mapped-mapped f f len m ∙ fun_ext λ j. ground (arith, twice j)

  commute : (n : Memory) → mapped f len (reversed len n) ≡ reversed len (mapped f len n)
  commute n = fun_ext λ j. mapped-reversed f len n j ∙ sym (reversed-mapped f len n j)

  turn-variant : (t c : Bool) → reversed len (variant f len t c m) ≡ variant f len (not t) c m
  turn-variant true c = reversed-twice len _
  turn-variant false c = refl

  change-variant : (t c : Bool) → mapped f len (variant f len t c m) ≡ variant f len t (not c) m
  change-variant true true = commute (mapped f len m) ∙ ap (reversed len) mapped-twice
  change-variant true false = commute m
  change-variant false true = mapped-twice
  change-variant false false = refl

  -- Every string of the orbit is one of the four.
  pub Orbit-variant :
      (q : Code) (n : Memory)
      → ((n' : Memory) → run q n' ≡ mapped f len n')
      → Orbit (reverse len) q m n
      → (t : Bool) × (c : Bool) × (n ≡ variant f len t c m)
  Orbit-variant q n e same_string = (false, false, refl)
  Orbit-variant q _ e (after_first {n = n} o) =
      let (t, c, h) = Orbit-variant q n e o in
      (not t, c, run-reverse len n ∙ ap (reversed len) h ∙ turn-variant t c)
  Orbit-variant q _ e (after_second {n = n} o) =
      let (t, c, h) = Orbit-variant q n e o in
      (t, not c, e n ∙ ap (mapped f len) h ∙ change-variant t c)
