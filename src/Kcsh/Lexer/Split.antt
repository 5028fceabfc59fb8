-- ===== src/Kcsh/Lexer/Split.antt =====
-- lab4/parser.c: the loop of `get_splitted` behind the one that unfolds variables, against a description of the tokens of a line.
use syssoft_labs.Prelude.{
  ℕ, zero, suc, ◌+◌, ◌≤◌, ◌<◌, ◌≡◌, refl, ap, sym, ◌∙◌, ◌⊎◌, inl, inr, true, false, List, [], ◌∷◌,
  ◌++◌, length, length-append, drop, All, arith, dec_lt, Option, some, Bool-cases, ◌||◌,
}
use mathlib.Core.List.{append-nil, append_assoc}
use syssoft_labs.Prelude.CString.{CString}
use syssoft_labs.Kcsh.Outcome.{Outcome, ok, fault}
use syssoft_labs.Kcsh.Lexer.{
  is_space, is_separator, word, skip_spaces, get_arg, args_size, put, next_arg, split, split_args,
}
use syssoft_labs.Kcsh.Lexer.Laws.{
  is_plain, IsWord, IsOperator, word-All, get_arg-append-drop, length-rest, skip_spaces-lead,
  length-skip_spaces,
}

-- What follows a word does not go on with it.
abbrev pub EndsWord : CString → Type 0
EndsWord [] = Unit
EndsWord (c ∷ cs) = is_plain c ≡ false

-- `ts` are the tokens of `line`: it is made of them and of spaces in front of, between and behind
-- them. Each token is a separator, or a word that is as long as it can be.
abbrev pub AreTokens : (line : CString) (ts : List CString) → Type 0
AreTokens line [] = All (λ c. is_space c ≡ true) line
AreTokens line (t ∷ ts) =
    (gap : CString) × (rest : CString) × (line ≡ gap ++ (t ++ rest))
    × All (λ c. is_space c ≡ true) gap
    × (IsOperator t ⊎ (IsWord t × EndsWord rest))
    × AreTokens rest ts

skip_spaces-gap :
    (line : CString)
    → (gap : CString) × (line ≡ gap ++ skip_spaces line) × All (λ c. is_space c ≡ true) gap
unfolding skip_spaces
skip_spaces-gap [] = ([], refl, tt)
skip_spaces-gap (c ∷ cs) = elim (Bool-cases (is_space c)) [
  | inl y ↦ let (gap, e, h) = skip_spaces-gap cs in rw y (c ∷ gap, ap (λ l. c ∷ l) e, (y, h))
  | inr n ↦ rw n ([], refl, tt)
]

skip_spaces-nil : (line : CString) → skip_spaces line ≡ [] → All (λ c. is_space c ≡ true) line
unfolding skip_spaces
skip_spaces-nil [] e = tt
skip_spaces-nil (c ∷ cs) e = ground (arith, e, skip_spaces-nil cs)

word-EndsWord : (cs : CString) → EndsWord (drop (length (word cs)) cs)
unfolding word
word-EndsWord [] = tt
word-EndsWord (c ∷ cs) = elim (Bool-cases (is_space c || is_separator c)) [
  | inl stop ↦ rw stop (ground (arith, stop))
  | inr go ↦ rw go (word-EndsWord cs)
]

get_arg-EndsWord :
    (c : ℕ) (cs : CString)
    → is_space c ≡ false
    → IsOperator (get_arg (c ∷ cs))
      ⊎ (IsWord (get_arg (c ∷ cs)) × EndsWord (drop (length (get_arg (c ∷ cs))) (c ∷ cs)))
unfolding get_arg word
get_arg-EndsWord c cs h = elim (Bool-cases (is_separator c)) [
  | inl op ↦ rw op (inl op)
  | inr no_op ↦
      let plain : is_plain c ≡ true = ground arith in
      rw (no_op, h) (inr ((plain, word-All cs), word-EndsWord cs))
]

-- The loop of `get_splitted`, from the vector `vec` on: it fills the vector with the tokens, or it
-- has one token too many.
abbrev Splits : CString → List CString → Outcome (List CString) → Type 0
Splits line vec o =
    (ts : List CString) × AreTokens line ts
    × (((o ≡ ok (vec ++ ts)) × (length vec + length ts < args_size))
        ⊎ ((o ≡ fault) × (args_size ≤ length vec + length ts)))

-- Memory is granted, with a byte more than `get_arg` asks for.
abbrev pub all_granted : ℕ → Option ℕ
all_granted _ = some 1

-- What follows once the spaces before a token are skipped.
module _ (fuel c : ℕ) (cs : CString) (vec : List CString) where
  pub split-done : skip_spaces (c ∷ cs) ≡ [] → split all_granted (suc fuel) (c ∷ cs) vec ≡ ok vec
  unfolding split next_arg
  split-done e = rw e

  no_token :
      skip_spaces (c ∷ cs) ≡ []
      → length vec < args_size
      → Splits (c ∷ cs) vec (split all_granted (suc fuel) (c ∷ cs) vec)
  no_token e r = (
    [],
    skip_spaces-nil (c ∷ cs) e,
    inl (split-done e ∙ ap ok (sym (append-nil vec)), omega arith),
  )

  module _ (d : ℕ) (ds : CString) (e : skip_spaces (c ∷ cs) ≡ d ∷ ds) where
    abbrev arg : CString
    arg = get_arg (d ∷ ds)

    abbrev rest : CString
    rest = drop (length arg) (d ∷ ds)

    lead : is_space d ≡ false
    lead = skip_spaces-lead (c ∷ cs) d ds e

    more_tokens : (ts : List CString) → AreTokens rest ts → AreTokens (c ∷ cs) (arg ∷ ts)
    more_tokens ts a =
        let (gap, g, spaces) = skip_spaces-gap (c ∷ cs) in
        (
          gap,
          rest,
          g ∙ ap (λ l. gap ++ l) (e ∙ sym (get_arg-append-drop d ds)),
          spaces,
          get_arg-EndsWord d ds lead,
          a,
        )

    shift : (ts : List CString) → (vec ++ arg ∷ []) ++ ts ≡ vec ++ arg ∷ ts
    shift ts = append_assoc vec (arg ∷ []) ts

    -- The loop with the token put into the vector, and with no room for it.
    pub split-room :
        length vec + 1 < args_size
        → split all_granted (suc fuel) (c ∷ cs) vec ≡ split all_granted fuel rest (vec ++ arg ∷ [])
    unfolding split next_arg put
    split-room r = rw e (ground arith)

    split-full :
        length vec < args_size
        → args_size ≤ length vec + 1
        → split all_granted (suc fuel) (c ∷ cs) vec ≡ fault
    unfolding split next_arg put
    split-full r f = rw e (ground arith)

pub line_cases : (l : CString) → (l ≡ []) ⊎ ((d : ℕ) × (ds : CString) × (l ≡ d ∷ ds))
line_cases [] = inl refl
line_cases (d ∷ ds) = inr (d, ds, refl)

-- The rest behind a token is shorter than the line.
pub rest-shorter :
    (fuel c : ℕ) (cs : CString) (d : ℕ) (ds : CString)
    → skip_spaces (c ∷ cs) ≡ d ∷ ds
    → length (c ∷ cs) < suc fuel
    → length (drop (length (get_arg (d ∷ ds))) (d ∷ ds)) < fuel
rest-shorter fuel c cs d ds e h = omega (
  arith,
  length-rest d ds (skip_spaces-lead (c ∷ cs) d ds e),
  length-skip_spaces (c ∷ cs),
  ap length e,
)

-- Every line has tokens.
tokens_exist :
    (fuel : ℕ) (line : CString) → length line < fuel → (ts : List CString) × AreTokens line ts
tokens_exist zero line h = absurd (omega arith)
tokens_exist (suc fuel) [] h = ([], tt)
tokens_exist (suc fuel) (c ∷ cs) h = elim (line_cases (skip_spaces (c ∷ cs))) [
  | inl e ↦ let s = no_token fuel c cs [] e (omega arith) in (s.0, s.1)
  | inr (d, ds, e) ↦
      let (ts, a) =
        tokens_exist fuel (drop (length (get_arg (d ∷ ds))) (d ∷ ds))
          (rest-shorter fuel c cs d ds e h) in
      (get_arg (d ∷ ds) ∷ ts, more_tokens fuel c cs [] d ds e ts a)
]

module _ (fuel c : ℕ) (cs : CString) (vec : List CString) (d : ℕ) (ds : CString)
    (e : skip_spaces (c ∷ cs) ≡ d ∷ ds) where
  abbrev token : CString
  token = get_arg (d ∷ ds)

  abbrev remainder : CString
  remainder = drop (length token) (d ∷ ds)

  one_token :
      length vec + 1 < args_size
      → Splits remainder (vec ++ token ∷ []) (split all_granted fuel remainder (vec ++ token ∷ []))
      → Splits (c ∷ cs) vec (split all_granted (suc fuel) (c ∷ cs) vec)
  one_token r (ts, a, inl (done, fits)) = (
    token ∷ ts,
    more_tokens fuel c cs vec d ds e ts a,
    inl (
      split-room fuel c cs vec d ds e r ∙ done ∙ ap ok (append_assoc vec (token ∷ []) ts),
      omega (arith, length-append vec (token ∷ [])),
    ),
  )
  one_token r (ts, a, inr (bad, full)) = (
    token ∷ ts,
    more_tokens fuel c cs vec d ds e ts a,
    inr (split-room fuel c cs vec d ds e r ∙ bad, omega (arith, length-append vec (token ∷ []))),
  )

  no_room :
      length vec < args_size
      → args_size ≤ length vec + 1
      → length (c ∷ cs) < suc fuel
      → Splits (c ∷ cs) vec (split all_granted (suc fuel) (c ∷ cs) vec)
  no_room r f h =
      let (ts, a) = tokens_exist fuel remainder (rest-shorter fuel c cs d ds e h) in
      (
        token ∷ ts,
        more_tokens fuel c cs vec d ds e ts a,
        inr (split-full fuel c cs vec d ds e r f, omega arith),
      )

split_lem :
    (fuel : ℕ) (line : CString) (vec : List CString)
    → length line < fuel
    → length vec < args_size
    → Splits line vec (split all_granted fuel line vec)
unfolding split
split_lem zero line vec h r = absurd (omega arith)
split_lem (suc fuel) [] vec h r = ([], tt, inl (rw append-nil, omega arith))
split_lem (suc fuel) (c ∷ cs) vec h r = elim (line_cases (skip_spaces (c ∷ cs))) [
  | inl e ↦ no_token fuel c cs vec e r
  | inr (d, ds, e) ↦ elim (dec_lt (length vec + 1) args_size) [
    | yes room ↦ one_token fuel c cs vec d ds e room (
        split_lem fuel (drop (length (get_arg (d ∷ ds))) (d ∷ ds)) (vec ++ get_arg (d ∷ ds) ∷ [])
          (rest-shorter fuel c cs d ds e h)
          (omega (arith, length-append vec (get_arg (d ∷ ds) ∷ []))))
    | no full ↦ no_room fuel c cs vec d ds e r (omega arith) h
  ]
]

-- The tokens of a line, put into the vector where there is room for them.
pub split_args_lem :
    (line : CString)
    → (ts : List CString) × AreTokens line ts
      × (((split_args true all_granted line ≡ ok ts) × (length ts < args_size))
          ⊎ ((split_args true all_granted line ≡ fault) × (args_size ≤ length ts)))
unfolding split_args
split_args_lem line =
    let (ts, a, o) = split_lem (length line + 1) line [] (omega arith) (omega arith) in
    (
      ts,
      a,
      elim o [
        | inl (done, fits) ↦ inl (done, omega arith)
        | inr (bad, full) ↦ inr (bad, omega arith)
      ],
    )
