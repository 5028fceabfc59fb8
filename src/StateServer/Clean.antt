-- ===== src/StateServer/Clean.antt =====
-- lab5/server.c: what a server leaves behind when it ends.
use syssoft_labs.Prelude.{ℕ, ◌≡◌, ◌+◌, ◌⊎◌, true, false, none}
use syssoft_labs.StateServer.{
  Objects, Server, Mode, shm, msg, mmap, Step, going, ended, ◌>>=◌, is_caught,
}

-- The object of a mode is not there.
abbrev pub IsRemoved : Mode → Objects → Type 0
IsRemoved shm o = o.segment ≡ none
IsRemoved msg o = o.queue ≡ none
IsRemoved mmap o = o.shared ≡ none

-- The server knows the object that it has made.
abbrev IsOwner : Mode → Server → Type 0
IsOwner shm s = s.has_segment ≡ true
IsOwner msg s = s.has_queue ≡ true
IsOwner mmap s = Unit

-- In which cases an object is left: the clock fails in the mode of the shared object, or a signal that
-- has no handler ends the process.
abbrev pub IsClean : Mode → ℕ → Objects → Type 0
IsClean mode code o =
    IsRemoved mode o
    ⊎ ((mode ≡ mmap) × (code ≡ 1))
    ⊎ ((signo : ℕ) × (code ≡ 128 + signo) × (is_caught signo ≡ false))

abbrev pub Ends : {A : Type 0} → (A → Type 0) → (ℕ → Objects → Type 0) → Step A → Type 0
Ends P Q (going a) = P a
Ends P Q (ended code o) = Q code o

module _ {A B : Type 0} where
  pub bind-Ends :
      (P : A → Type 0) (R : B → Type 0) (Q : ℕ → Objects → Type 0) (m : Step A) (k : A → Step B)
      → Ends P Q m
      → ((a : A) → P a → Ends R Q (k a))
      → Ends R Q (m >>= k)
  bind-Ends P R Q (going a) k h f = f a h
  bind-Ends P R Q (ended code o) k h f = h

-- What a server leaves if it ends before its loop: nothing but a segment that could not be attached,
-- and what was there if its object could not be made.
abbrev pub IsLeft : Mode → ℕ → Objects → Objects → Type 0
IsLeft mode code before o =
    IsClean mode code o ⊎ ((mode ≡ shm) × (code ≡ 4)) ⊎ ((o ≡ before) × (code ≡ 3))
