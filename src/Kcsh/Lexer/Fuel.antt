-- ===== src/Kcsh/Lexer/Fuel.antt =====
-- lab4/parser.c: the loop of `get_splitted` ends, whatever the allocator answers.
use syssoft_labs.Prelude.{
  ℕ, zero, suc, ◌+◌, ◌<◌, ◌≡◌, refl, inl, inr, Bool, true, false, Option, none, some, List, [], ◌∷◌,
  length, drop, arith, if◌then◌else◌,
}
use syssoft_labs.Prelude.CString.{CString}
use syssoft_labs.Kcsh.Outcome.{Outcome, ok, ◌>>=◌, try_alloc}
use syssoft_labs.Kcsh.Command.Ends.{Ends, bind-Ends}
use syssoft_labs.Kcsh.Lexer.{
  is_granted, end_arg, skip_spaces, get_arg, put, next_arg, split, split_args,
}
use syssoft_labs.Kcsh.Lexer.Split.{line_cases, rest-shorter}

abbrev pub Returns {ℓ} : {A : Type ℓ} → Outcome A → Type 0
Returns o = Ends (λ _. Unit {0}) o

module _ {A B : Type 0} where
  pub bind-Returns :
      (m : Outcome A) (k : A → Outcome B)
      → Returns m
      → ((a : A) → Returns (k a))
      → Returns (m >>= k)
  bind-Returns m k h f = bind-Ends (λ _. Unit {0}) (λ _. Unit {0}) m k h λ a _. f a

  pub option-Returns :
      (o : Option A) (m : Outcome B) (k : A → Outcome B)
      → Returns m
      → ((a : A) → Returns (k a))
      → Returns (elim o [ none ↦ m | some a ↦ k a ])
  option-Returns none m k h f = h
  option-Returns (some a) m k h f = f a

pub if-Returns :
    {A : Type 0} (b : Bool) (m n : Outcome A) → Returns m → Returns n → Returns (if b then m else n)
if-Returns true m n h k = h
if-Returns false m n h k = k

pub try_alloc-Returns : (granted : Bool) → Returns (try_alloc granted)
try_alloc-Returns true = tt
try_alloc-Returns false = tt

end_arg-Returns : (o : Option ℕ) → Returns (end_arg o)
end_arg-Returns none = tt
end_arg-Returns (some zero) = tt
end_arg-Returns (some (suc slack)) = tt

put-Returns :
    (granted : Bool) (vec : List CString) (item : CString) → Returns (put granted vec item)
unfolding put
put-Returns true vec item = ground arith
put-Returns false vec item = ground arith

-- The rest of the line behind a token.
abbrev IsRest : CString → Option (CString × List CString) → Type 0
IsRest l none = Unit
IsRest l (some (line, vec)) = line ≡ drop (length (get_arg l)) l

next_arg-IsRest :
    (granted : ℕ → Option ℕ) (d : ℕ) (ds : CString) (vec : List CString)
    → Ends (IsRest (d ∷ ds)) (next_arg granted (d ∷ ds) vec)
unfolding next_arg
next_arg-IsRest granted d ds vec =
    bind-Ends (λ _. Unit {0}) (IsRest (d ∷ ds)) (try_alloc (is_granted (granted (length vec)))) _
      (try_alloc-Returns (is_granted (granted (length vec))))
      λ _ _.
        bind-Ends (λ _. Unit {0}) (IsRest (d ∷ ds)) (end_arg (granted (length vec))) _
          (end_arg-Returns (granted (length vec)))
          λ _ _.
            bind-Ends (λ _. Unit {0}) (IsRest (d ∷ ds))
              (put (is_granted (granted (length vec))) vec (get_arg (d ∷ ds))) _
              (put-Returns (is_granted (granted (length vec))) vec (get_arg (d ∷ ds))) λ _ _. refl

rest-Returns :
    (k : CString → List CString → Outcome (List CString)) (vec : List CString) (l : CString)
    (r : Option (CString × List CString))
    → IsRest l r
    → ((line : CString) (vec' : List CString)
        → line ≡ drop (length (get_arg l)) l
        → Returns (k line vec'))
    → Returns (elim r [ none ↦ ok vec | some (line, vec') ↦ k line vec' ])
rest-Returns k vec l none i f = tt
rest-Returns k vec l (some (line, vec')) i f = f line vec' i

split-Returns :
    (granted : ℕ → Option ℕ) (fuel : ℕ) (line : CString) (vec : List CString)
    → length line < fuel
    → Returns (split granted fuel line vec)
unfolding split next_arg
split-Returns granted zero line vec h = absurd (omega (arith, h))
split-Returns granted (suc fuel) [] vec h = tt
split-Returns granted (suc fuel) (c ∷ cs) vec h = elim (line_cases (skip_spaces (c ∷ cs))) [
  | inl e ↦ rw e tt
  | inr (d, ds, e) ↦ rw e (
      bind-Ends (IsRest (d ∷ ds)) (λ _. Unit {0}) (next_arg granted (d ∷ ds) vec) _
        (next_arg-IsRest granted d ds vec)
        λ r i. rest-Returns (split granted fuel) vec (d ∷ ds) r i λ line vec' e'.
          split-Returns granted fuel line vec' (rw e' (rest-shorter fuel c cs d ds e h)))
]

pub split_args-Returns :
    (vg : Bool) (granted : ℕ → Option ℕ) (line : CString) → Returns (split_args vg granted line)
unfolding split_args
split_args-Returns vg granted line =
    bind-Returns (try_alloc vg) _ (try_alloc-Returns vg)
      λ _. split-Returns granted (length line + 1) line [] (omega arith)
