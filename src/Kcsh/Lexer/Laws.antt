-- ===== src/Kcsh/Lexer/Laws.antt =====
-- lab4/parser.c: what a token is, and what the scan of one takes from the line.
use syssoft_labs.Prelude.{
  ℕ, ◌≤◌, ◌<◌, ◌≡◌, refl, ap, sym, ◌∙◌, ◌⊎◌, inl, inr, Bool, true, false, not, [], ◌∷◌, ◌++◌, ◌||◌,
  length, length-append, drop, All, arith, if◌then◌else◌, Bool-cases,
}
use syssoft_labs.Prelude.CString.{CString}
use syssoft_labs.Kcsh.Lexer.{is_space, is_separator, skip_spaces, word, get_arg}

-- The bytes of a line that are no spaces.
unfoldable pub unspaced : CString → CString
unspaced [] = []
unspaced (c ∷ cs) = if is_space c then unspaced cs else c ∷ unspaced cs

-- A byte that a word is made of.
abbrev pub is_plain : ℕ → Bool
is_plain c = not (is_space c || is_separator c)

abbrev pub IsWord : CString → Type 0
IsWord [] = ⊥
IsWord (c ∷ cs) = All (λ d. is_plain d ≡ true) (c ∷ cs)

abbrev pub IsOperator : CString → Type 0
IsOperator [] = ⊥
IsOperator (c ∷ []) = is_separator c ≡ true
IsOperator (c ∷ d ∷ cs) = ⊥

-- A token is one separator, or bytes that are neither spaces nor separators.
abbrev pub IsToken : CString → Type 0
IsToken t = IsOperator t ⊎ IsWord t

pub word-All : (cs : CString) → All (λ d. is_plain d ≡ true) (word cs)
unfolding word
word-All [] = tt
word-All (c ∷ cs) = elim (Bool-cases (is_space c || is_separator c)) [
  | inl stop ↦ rw stop tt
  | inr go ↦ rw go (rw go refl, word-All cs)
]

-- The line begins with its next word.
word-append-drop : (cs : CString) → word cs ++ drop (length (word cs)) cs ≡ cs
unfolding word
word-append-drop [] = refl
word-append-drop (c ∷ cs) = ground (arith, word-append-drop cs)

pub get_arg-append-drop :
    (c : ℕ) (cs : CString) → get_arg (c ∷ cs) ++ drop (length (get_arg (c ∷ cs))) (c ∷ cs) ≡ c ∷ cs
unfolding get_arg
get_arg-append-drop c cs = elim (Bool-cases (is_separator c)) [
  | inl op ↦ rw op
  | inr no_op ↦ rw no_op (word-append-drop (c ∷ cs))
]

-- What `get_arg` takes from a line that begins with no space is a token.
pub get_arg-IsToken : (c : ℕ) (cs : CString) → is_space c ≡ false → IsToken (get_arg (c ∷ cs))
unfolding get_arg word
get_arg-IsToken c cs h = elim (Bool-cases (is_separator c)) [
  | inl op ↦ rw op (inl op)
  | inr no_op ↦
      let plain : is_plain c ≡ true = ground arith in rw (no_op, h) (inr (plain, word-All cs))
]

unspaced-append : (xs ys : CString) → unspaced (xs ++ ys) ≡ unspaced xs ++ unspaced ys
unfolding unspaced
unspaced-append [] ys = refl
unspaced-append (x ∷ xs) ys = ground (arith, unspaced-append xs ys)

unspaced-All : (xs : CString) → All (λ d. is_plain d ≡ true) xs → unspaced xs ≡ xs
unfolding unspaced
unspaced-All [] h = refl
unspaced-All (x ∷ xs) h = ground (arith, unspaced-All xs h.1)

unspaced-operator : (t : CString) → IsOperator t → unspaced t ≡ t
unfolding unspaced
unspaced-operator [] h = absurd h
unspaced-operator (c ∷ []) h = ground arith
unspaced-operator (c ∷ d ∷ cs) h = absurd h

unspaced-word : (t : CString) → IsWord t → unspaced t ≡ t
unspaced-word [] h = absurd h
unspaced-word (c ∷ cs) h = unspaced-All (c ∷ cs) h

unspaced-token : (t : CString) → IsToken t → unspaced t ≡ t
unspaced-token t (inl h) = unspaced-operator t h
unspaced-token t (inr h) = unspaced-word t h

-- A token and the rest of the line, without their spaces.
pub unspaced-get_arg :
    (c : ℕ) (cs : CString)
    → is_space c ≡ false
    → get_arg (c ∷ cs) ++ unspaced (drop (length (get_arg (c ∷ cs))) (c ∷ cs)) ≡ unspaced (c ∷ cs)
unspaced-get_arg c cs h =
    let t = get_arg (c ∷ cs) in
    let rest = drop (length t) (c ∷ cs) in
    ap (λ x. x ++ unspaced rest) (sym (unspaced-token t (get_arg-IsToken c cs h)))
    ∙ sym (unspaced-append t rest)
    ∙ ap unspaced (get_arg-append-drop c cs)

-- The scan of a token goes forward.
IsToken-length : (t : CString) → IsToken t → 0 < length t
IsToken-length [] (inl h) = absurd h
IsToken-length [] (inr h) = absurd h
IsToken-length (c ∷ cs) h = omega arith

pub length-rest :
    (c : ℕ) (cs : CString)
    → is_space c ≡ false
    → length (drop (length (get_arg (c ∷ cs))) (c ∷ cs)) < length (c ∷ cs)
length-rest c cs h =
    let t = get_arg (c ∷ cs) in
    let rest = drop (length t) (c ∷ cs) in
    omega (
      arith,
      IsToken-length t (get_arg-IsToken c cs h),
      length-append t rest,
      ap length (get_arg-append-drop c cs),
    )

-- Skipping spaces.
pub skip_spaces-lead :
    (line : CString) (d : ℕ) (ds : CString) → skip_spaces line ≡ d ∷ ds → is_space d ≡ false
unfolding skip_spaces
skip_spaces-lead [] d ds e = cc
skip_spaces-lead (c ∷ cs) d ds e = ground (arith, skip_spaces-lead cs d ds)

pub unspaced-skip_spaces : (line : CString) → unspaced (skip_spaces line) ≡ unspaced line
unfolding skip_spaces unspaced
unspaced-skip_spaces [] = refl
unspaced-skip_spaces (c ∷ cs) = ground (arith, unspaced-skip_spaces cs)

pub length-skip_spaces : (line : CString) → length (skip_spaces line) ≤ length line
unfolding skip_spaces
length-skip_spaces [] = omega arith
length-skip_spaces (c ∷ cs) = ground (arith, length-skip_spaces cs)
