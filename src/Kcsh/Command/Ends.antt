-- ===== src/Kcsh/Command/Ends.antt =====
-- lab4/parser.c, `make_cmd`: computations that end, the slots of the vector, and what make_cmd leaves
-- in them.
use syssoft_labs.Prelude.{
  ℕ, zero, suc, ◌+◌, ◌≤◌, ◌<◌, ◌≡◌, refl, sym, ◌∙◌, subst, ltb, Bool, true, false, Option, none, [],
  ◌∷◌, arith, if◌then◌else◌, length, set, dec_lt,
}
use syssoft_labs.Prelude.CString.{CString}
use syssoft_labs.Kcsh.Outcome.{Outcome, ok, exited, fault, out_of_fuel, ◌>>=◌}
use syssoft_labs.Kcsh.Command.{Args, slot, take_args}

length-set : (args : Args) (i : ℕ) (a : Option CString) → length (set args i a) ≡ length args
length-set [] i a = refl
length-set (b ∷ args) zero a = refl
length-set (b ∷ args) (suc i) a = omega (arith, length-set args i a)

slot-set :
    (args : Args) (i : ℕ) (a : Option CString) → i < length args → slot (set args i a) i ≡ ok a
slot-set [] i a h = absurd (omega (arith, h))
slot-set (b ∷ args) zero a h = refl
slot-set (b ∷ args) (suc i) a h = slot-set args i a (omega (arith, h))

-- A computation ends, and its result satisfies `P`.
abbrev pub Ends {ℓ} : {A : Type ℓ} → (A → Type 0) → Outcome A → Type 0
Ends P (ok a) = P a
Ends P (exited c) = Unit
Ends P fault = Unit
Ends P out_of_fuel = true ≡ false

pub bind-Ends {ℓ κ} :
    {A : Type ℓ} {B : Type κ} (Q : A → Type 0) (P : B → Type 0) (m : Outcome A) (k : A → Outcome B)
    → Ends Q m
    → ((a : A) → Q a → Ends P (k a))
    → Ends P (m >>= k)
bind-Ends Q P (ok a) k h f = f a h
bind-Ends Q P (exited c) k h f = tt
bind-Ends Q P fault k h f = tt
bind-Ends Q P out_of_fuel k h f = h

pub map-Ends {ℓ} :
    {A : Type ℓ} (P Q : A → Type 0) (m : Outcome A) → ((a : A) → P a → Q a) → Ends P m → Ends Q m
map-Ends P Q (ok a) f h = f a h
map-Ends P Q (exited c) f h = tt
map-Ends P Q fault f h = tt
map-Ends P Q out_of_fuel f h = h

pub if-Ends {ℓ} :
    {A : Type ℓ} (P : A → Type 0) (b : Bool) (m n : Outcome A)
    → (b ≡ true → Ends P m)
    → (b ≡ false → Ends P n)
    → Ends P (if b then m else n)
if-Ends P true m n h k = h refl
if-Ends P false m n h k = k refl

pub slot-Ends : (args : Args) (i : ℕ) → Ends (λ a. slot args i ≡ ok a) (slot args i)
slot-Ends [] i = tt
slot-Ends (a ∷ args) zero = refl
slot-Ends (a ∷ args) (suc i) = slot-Ends args i

pub slot-bound : (args : Args) (i : ℕ) (a : Option CString) → slot args i ≡ ok a → i < length args
slot-bound [] i a e = ground arith
slot-bound (b ∷ args) zero a e = omega arith
slot-bound (b ∷ args) (suc i) a e = omega (arith, slot-bound args i a e)

-- What `take_args` leaves: a vector as long, with NULL in the last slot taken.
abbrev pub IsTaken : (i last : ℕ) → Args → Args × Args → Type 0
IsTaken i last args q =
    (length q.1 ≡ length args) × (i ≤ last → slot q.1 last ≡ ok none) × (last < i → q.1 ≡ args)

taken :
    (i last : ℕ) (args : Args) (a : Option CString) (t : Args × Args)
    → slot args i ≡ ok a
    → i ≤ last
    → IsTaken (i + 1) last (set args i none) t
    → IsTaken i last args t
taken i last args a t q w r = (
  omega (arith, r.0, length-set args i none),
  λ h. elim (dec_lt i last) [
    | yes below ↦ r.1 (omega (arith, below))
    | no above ↦
        subst (λ x. slot x last ≡ ok none) (sym (r.2 (omega (arith, above))))
          (subst (λ j. slot (set args i none) j ≡ ok none) (omega (arith, above, w))
            (slot-set args i none (slot-bound args i a q)))
  ],
  λ h. absurd (omega (arith, h, w)),
)

pub take_args-Ends :
    (slots i last : ℕ) (args : Args) → Ends (IsTaken i last args) (take_args slots i last args)
unfolding take_args
take_args-Ends zero i last args = tt
take_args-Ends (suc slots) i last args =
    let rest = take_args slots (i + 1) last (set args i none) in
    if-Ends (IsTaken i last args) (ltb last i) _ _ (λ past. ground (arith, past))
      λ within.
        bind-Ends (λ a. slot args i ≡ ok a) (IsTaken i last args) (slot args i) _ (slot-Ends args i)
          λ a q.
            bind-Ends (IsTaken (i + 1) last (set args i none)) (IsTaken i last args) rest _
              (take_args-Ends slots (i + 1) last (set args i none))
              λ t r. taken i last args a t q (ground (arith, within)) r

slot-set-other :
    (args : Args) (i j : ℕ) (a : Option CString) → i < j → slot (set args i a) j ≡ slot args j
slot-set-other [] i j a h = refl
slot-set-other (b ∷ args) i zero a h = absurd (omega (arith, h))
slot-set-other (b ∷ args) zero (suc j) a h = refl
slot-set-other (b ∷ args) (suc i) (suc j) a h = slot-set-other args i j a (omega (arith, h))

-- The block of `argv` was large enough, and the slots behind `last` are as before.
abbrev pub IsFrame : (slots i last : ℕ) → Args → Args × Args → Type 0
IsFrame slots i last args q =
    (last + 1 < i + slots) × ((j : ℕ) → last < j → slot q.1 j ≡ slot args j)

pub take_args-IsFrame :
    (slots i last : ℕ) (args : Args)
    → Ends (IsFrame slots i last args) (take_args slots i last args)
unfolding take_args
take_args-IsFrame zero i last args = tt
take_args-IsFrame (suc slots) i last args =
    let rest = take_args slots (i + 1) last (set args i none) in
    let P = IsFrame (suc slots) i last args in
    if-Ends P (ltb last i) _ _ (λ past. (ground (arith, past), λ j l. refl))
      λ within.
        bind-Ends (λ a. slot args i ≡ ok a) P (slot args i) _ (slot-Ends args i)
          λ a q.
            bind-Ends (IsFrame slots (i + 1) last (set args i none)) P rest _
              (take_args-IsFrame slots (i + 1) last (set args i none))
              λ t r. (
                omega (arith, r.0),
                λ j l. r.1 j l ∙ slot-set-other args i j none (ground (arith, within, l)),
              )
