-- ===== src/Kcsh/Command/Skip.antt =====
-- lab4/parser.c, `make_cmdv`: the parts of the body end, and where the loop over the separators stops.
use syssoft_labs.Prelude.{
  ℕ, zero, suc, ◌+◌, ◌≤◌, ◌<◌, ◌≡◌, ◌⊎◌, inl, inr, refl, sym, subst, Bool, true, Option, none, some,
  List, [], ◌∷◌, arith, if◌then◌else◌, length, dec_lt,
}
use syssoft_labs.Prelude.CString.{CString}
use syssoft_labs.Kcsh.Outcome.{Outcome, ok, exited, fault, out_of_fuel}
use syssoft_labs.Kcsh.Command.{
  Args, slot, is_operator, is_item, Cmd, connect, redirect_into, redirect_out, redirect_from,
}
use syssoft_labs.Kcsh.Command.Parse.{mark_bg, mark_pipeline, background, skip_operators}
use syssoft_labs.Kcsh.Command.Ends.{Ends, bind-Ends, map-Ends, if-Ends, slot-Ends, slot-bound}

abbrev pub IsPast : (i first : ℕ) → ℕ × ℕ → Type 0
IsPast i first q = (i ≤ q.0) × ((q.1 ≡ q.0) ⊎ (q.1 ≡ first))

IsPast-item :
    (n i first : ℕ) (args : Args) (a : Option CString)
    → i < length args
    → length args < i + suc n
    → (length args < i + 1 + n → Ends (IsPast (i + 1) first) (skip_operators n (i + 1) first args))
    → Ends (IsPast i first) (elim a [
      | none ↦ ok (i, first)
      | some arg ↦ if is_operator arg then skip_operators n (i + 1) first args else ok (i, i)
    ])
IsPast-item n i first args none b h f = ground arith
IsPast-item n i first args (some arg) b h f =
    if-Ends (IsPast i first) (is_operator arg) _ _
      (λ o.
        map-Ends (IsPast (i + 1) first) (IsPast i first) _ (λ q r. (omega (arith, r.0), r.1))
          (f (omega (arith, h))))
      λ o. (omega arith, inl refl)

-- With enough rounds the loop over the separators ends, behind the first item if that is one.
skip_operators-Ends :
    (n i first : ℕ) (args : Args)
    → length args < i + n
    → 1 ≤ n
    → Ends (IsPast i first) (skip_operators n i first args)
unfolding skip_operators
skip_operators-Ends zero i first args h p = absurd (omega (arith, p))
skip_operators-Ends (suc n) i first args h p =
    bind-Ends (λ a. slot args i ≡ ok a) _ (slot args i) _ (slot-Ends args i)
      λ a e. IsPast-item n i first args a (slot-bound args i a e) h (λ l.
        skip_operators-Ends n (i + 1) first args (omega (arith, l))
          (omega (arith, l, slot-bound args i a e)))

-- Where the loop stops when it starts at NULL, and when it starts at a separator.
skip_operators-none :
    (n i first : ℕ) (args : Args)
    → slot args i ≡ ok none
    → Ends (λ q. q.0 ≡ i) (skip_operators (suc n) i first args)
unfolding skip_operators
skip_operators-none n i first args e = ground (arith, e)

skip_operators-is_operator :
    (n i first : ℕ) (args : Args) (arg : CString)
    → length args < i + suc n
    → slot args i ≡ ok (some arg)
    → is_operator arg ≡ true
    → Ends (λ q. i < q.0) (skip_operators (suc n) i first args)
unfolding skip_operators
skip_operators-is_operator n i first args arg h e o = ground (
  arith,
  e,
  o,
  map-Ends (IsPast (i + 1) first) (λ q. i < q.0) (skip_operators n (i + 1) first args)
      (λ q r. omega (arith, r.0))
      (skip_operators-Ends n (i + 1) first args (omega (arith, h))
        (omega (arith, h, slot-bound args i (some arg) e))),
)

is_item-Ends :
    (args : Args) (i : ℕ) (item : CString)
    → Ends (λ b. b ≡ true → i < length args) (is_item args i item)
unfolding is_item
is_item-Ends args i item =
    bind-Ends (λ a. slot args i ≡ ok a) (λ b. b ≡ true → i < length args) (slot args i) _
      (slot-Ends args i) λ a e. λ t. slot-bound args i a e

abbrev pub Moves : ℕ → Args → Option (ℕ × Cmd) → Type 0
Moves i args none = Unit
Moves i args (some (j, c)) = (i ≤ j) × (slot args i ≡ ok none → j ≡ i)

pub redirect_from-Ends :
    (granted : Option ℕ) (args : Args) (i : ℕ) (c : Cmd)
    → Ends (Moves i args) (redirect_from granted args i c)
unfolding redirect_from is_item
redirect_from-Ends granted args i c = ground (arith, slot-Ends args i, slot-Ends args (i + 1))

pub redirect_out-Ends :
    (granted : Option ℕ) (args : Args) (i : ℕ) (c : Cmd)
    → Ends (Moves i args) (redirect_out granted args i c)
unfolding redirect_out redirect_into is_item
redirect_out-Ends granted args i c =
    ground (arith, slot-Ends args i, slot-Ends args (i + 1), slot-Ends args (i + 2))

pub connect-Ends :
    (pn : Bool) (args : Args) (i : ℕ) (c : Cmd) → Ends (λ _. Unit {0}) (connect pn args i c)
unfolding connect is_item
connect-Ends pn args i c = ground (arith, slot-Ends args i, slot-Ends args (i + 1))

mark_bg-Ends : (cs : List Cmd) → Ends (λ _. Unit {0}) (mark_bg cs)
unfolding mark_bg
mark_bg-Ends [] = tt
mark_bg-Ends (c ∷ cs) = ground (arith, mark_bg-Ends cs)

mark_pipeline-Ends : (cs : List Cmd) (c : Cmd) → Ends (λ _. Unit {0}) (mark_pipeline cs c)
unfolding mark_pipeline
mark_pipeline-Ends [] c = tt
mark_pipeline-Ends (d ∷ []) c = mark_bg-Ends (d ∷ c ∷ [])
mark_pipeline-Ends (d ∷ d' ∷ ds) c = ground (arith, mark_pipeline-Ends (d' ∷ ds) c)

pub background-Ends :
    (args : Args) (i : ℕ) (cs : List Cmd) (c : Cmd) → Ends (λ _. Unit {0}) (background args i cs c)
unfolding background is_item
background-Ends args i cs c =
    ground (arith, slot-Ends args i, mark_pipeline-Ends cs (record c { bg = true }))

pub both-Ends {ℓ} :
    {A : Type ℓ} (P Q : A → Type 0) (m : Outcome A) → Ends P m → Ends Q m → Ends (λ a. P a × Q a) m
both-Ends P Q (ok a) h k = (h, k)
both-Ends P Q (exited c) h k = tt
both-Ends P Q fault h k = tt
both-Ends P Q out_of_fuel h k = h

-- Where a command ends: at the NULL, or at a separator.
abbrev pub IsEnd : Args → ℕ → Type 0
IsEnd args i =
    (slot args i ≡ ok none)
    ⊎ ((arg : CString) × (slot args i ≡ ok (some arg)) × (is_operator arg ≡ true))

-- What the next round may rely on: it is further on, or it stands at the NULL.
abbrev pub IsOn : (i : ℕ) → Args → ℕ × ℕ → Type 0
IsOn i args q = (q.1 ≤ q.0) × ((i < q.0) ⊎ (slot args q.0 ≡ ok none))

pub skip_operators-IsOn :
    (i j first : ℕ) (args : Args)
    → IsEnd args i
    → i ≤ j
    → (slot args i ≡ ok none → j ≡ i)
    → first ≤ j
    → Ends (IsOn i args) (skip_operators (suc (length args)) j first args)
skip_operators-IsOn i j first args (inl e) l s f =
    let skipped = skip_operators (suc (length args)) j first args in
    map-Ends (λ q. (q.0 ≡ j) × IsPast j first q) (IsOn i args) skipped
      (λ q r. (
        omega (arith, r.1.0, r.1.1, f),
        inr (subst (λ x. slot args x ≡ ok none) (omega (arith, r.0, s e)) e),
      ))
      (both-Ends (λ q. q.0 ≡ j) (IsPast j first) skipped
        (skip_operators-none (length args) j first args
          (subst (λ x. slot args x ≡ ok none) (sym (s e)) e))
        (skip_operators-Ends (suc (length args)) j first args (omega arith) (omega arith)))
skip_operators-IsOn i j first args (inr (arg, e, o)) l s f =
    let skipped = skip_operators (suc (length args)) j first args in
    let past = skip_operators-Ends (suc (length args)) j first args (omega arith) (omega arith) in
    elim (dec_lt i j) [
      | yes below ↦
          map-Ends (IsPast j first) (IsOn i args) skipped
            (λ q r. (omega (arith, r.0, r.1, f), inl (omega (arith, r.0, below)))) past
      | no above ↦
          map-Ends (λ q. (j < q.0) × IsPast j first q) (IsOn i args) skipped
            (λ q r. (omega (arith, r.1.0, r.1.1, f), inl (omega (arith, r.0, l, above))))
            (both-Ends (λ q. j < q.0) (IsPast j first) skipped
              (skip_operators-is_operator (length args) j first args arg (omega arith)
                (subst (λ x. slot args x ≡ ok (some arg)) (omega (arith, l, above)) e) o)
              past)
    ]
