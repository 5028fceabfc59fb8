-- ===== src/Kcsh/Unfold/Replace.antt =====
-- lab4/parser.c, `unfold_variable`: what becomes of a line with a variable.
use syssoft_labs.Prelude.{
  ℕ, zero, suc, ◌+◌, ◌-◌, ◌≤◌, ◌<◌, ◌≡◌, ◌≢◌, ◌∙◌, ap, subst, inl, true, Option, none, some, List,
  [], ◌∷◌, ◌++◌, length, length-append, take, drop, All, All-append, arith,
}
use syssoft_labs.Prelude.CString.{CString}
use syssoft_labs.Kcsh.Outcome.{ok, fault}
use syssoft_labs.Kcsh.Editor.{line_size}
use syssoft_labs.Kcsh.Variable.{Variable, get_var}
use syssoft_labs.Kcsh.Variable.Laws.{get_var-none}
use syssoft_labs.Kcsh.Unfold.{write_string, replace_name, try_names, unfold_variable}
use syssoft_labs.Kcsh.Unfold.Write.{
  Spells, string_from-Spells, Spells-nonzero, Spells-drop, write_string-Spells, write_string-before,
}
use syssoft_labs.Kcsh.Unfold.Names.{
  IsLeft', take-all, try_names-none, try_names-found, try_names-outside,
}

-- The line has this string from `p` on, and in front of it the bytes that it had.
abbrev pub IsReplaced : ℕ → CString → (ℕ → ℕ) → (ℕ → ℕ) → Type 0
IsReplaced p s line line' = Spells p s line' × ((j : ℕ) → j < p → line' j ≡ line j)

-- With memory granted, `replace_name` puts `env` and the string at `p + i + 1` to `p`.
replace_name_lem :
    (slack p i : ℕ) (str env rest : CString) (line : ℕ → ℕ)
    → Spells (p + i + 1) rest line
    → p + i + 1 + length rest < line_size
    → All (λ c. c ≢ 0) env
    → length rest ≤ length str + slack
    → p + length env + length rest + 1 ≤ line_size
    → (line' : ℕ → ℕ) × (replace_name true slack p i str env line ≡ ok line')
      × IsReplaced p (env ++ rest) line line'
unfolding replace_name
replace_name_lem slack p i str env rest line s l h fits room = (
  write_string p (env ++ rest) line,
  ground (arith, string_from-Spells (p + i + 1) rest line s l, length-append env rest, fits, room),
  (
    write_string-Spells p (env ++ rest) line
        (All-append (λ c. c ≢ 0) env rest h (Spells-nonzero (p + i + 1) rest line s)),
    λ j l'. write_string-before p (env ++ rest) line j l',
  ),
)

length-drop : (i : ℕ) (s : CString) → i ≤ length s → i + length (drop i s) ≡ length s
length-drop zero s h = omega arith
length-drop (suc i) [] h = absurd (omega (arith, h))
length-drop (suc i) (c ∷ s) h = omega (arith, length-drop i s (omega (arith, h)))

to_end : (p l : ℕ) → p + l + 2 ≡ p + (l + 1) + 1
to_end p l = omega arith

swap_one : (p i : ℕ) → p + 1 + i ≡ p + i + 1
swap_one p i = omega arith

module _ (getenv : CString → Option CString) (vars : List Variable) (slack : ℕ) (junk : ℕ → ℕ)
    (p : ℕ) (name : CString) (line : ℕ → ℕ) (dollar : line p ≡ b'$')
    (text : Spells (p + 1) name line) (inside : p + 1 + length name < line_size) where
  abbrev lookup : CString → Option CString
  lookup found = get_var getenv found vars

  abbrev str : CString
  str = b'$' ∷ name

  nonzero : All (λ c. c ≢ 0) name
  nonzero = Spells-nonzero (p + 1) name line text

  first_left : (subs : ℕ → ℕ) → IsLeft' name (length name + 2) subs
  first_left subs =
      let e : suc (suc (length name)) ≡ length name + 2 = omega arith in
      subst (λ n. IsLeft' name n subs) e (inl (omega arith))

  -- The value found in the round with the counter `i`, and what stands at `line + i + 1`.
  found_lem :
      (i : ℕ) (env rest : CString)
      → 0 < slack
      → i < length name + 2
      → lookup (take (suc i) name) ≡ some env
      → ((k : ℕ) → suc i < k → k ≤ length name + 2 → lookup (take k name) ≡ none)
      → Spells (p + i + 1) rest line
      → p + i + 1 + length rest < line_size
      → All (λ c. c ≢ 0) env
      → length rest ≤ length str + slack
      → p + length env + length rest + 1 ≤ line_size
      → (line' : ℕ → ℕ) × (unfold_variable getenv vars true true slack junk p line ≡ ok line')
        × IsReplaced p (env ++ rest) line line'
  unfolding unfold_variable
  found_lem i env rest sl m known unknown s l h fits room =
      let (line', e, r) = replace_name_lem slack p i str env rest line s l h fits room in
      let (subs, e') =
        try_names-found lookup true slack p name nonzero line i env (length name + 2) junk
          (omega (arith, sl)) m known unknown (first_left junk) in
      (
        line',
        ground (arith, dollar, inside, string_from-Spells (p + 1) name line text inside, e', e),
        r,
      )

  -- Where the name ends inside of the line, and no longer name is known, the value is put in the place
  -- of the dollar sign and of the name without its last character, which stays. A round trip through
  -- the block `buf` always fits there.
  pub unfold_variable-prefix :
      (k : ℕ) (env : CString)
      → 0 < slack
      → 1 ≤ k
      → k < length name
      → lookup (take k name) ≡ some env
      → ((j : ℕ) → k < j → lookup (take j name) ≡ none)
      → All (λ c. c ≢ 0) env
      → p + length env + length name + 2 ≤ line_size + k
      → (line' : ℕ → ℕ) × (unfold_variable getenv vars true true slack junk p line ≡ ok line')
        × IsReplaced p (env ++ drop (k - 1) name) line line'
  unfold_variable-prefix zero env sl m l known unknown h room = absurd (omega (arith, m))
  unfold_variable-prefix (suc i) env sl m l known unknown h room =
      let here =
        subst (λ q. Spells q (drop i name) line) (swap_one p i)
          (Spells-drop i (p + 1) name line text (omega (arith, l))) in
      let len = length-drop i name (omega (arith, l)) in
      let e : i ≡ suc i - 1 = omega arith in
      subst
        (λ j.
          (line' : ℕ → ℕ) × (unfold_variable getenv vars true true slack junk p line ≡ ok line')
          × IsReplaced p (env ++ drop j name) line line')
        e
        (found_lem i env (drop i name) sl (omega (arith, l)) known (λ j l1 l2. unknown j l1) here
          (omega (arith, len, inside)) h (omega (arith, len)) (omega (arith, len, room)))

  -- Where the whole rest of the line is a name that is known, what stands behind the NUL of the line
  -- comes after the value.
  pub unfold_variable-whole :
      (env behind : CString)
      → 0 < slack
      → 1 ≤ length name
      → lookup name ≡ some env
      → Spells (p + length name + 2) behind line
      → p + length name + 2 + length behind < line_size
      → All (λ c. c ≢ 0) env
      → length behind ≤ length name + 1 + slack
      → p + length env + length behind + 1 ≤ line_size
      → (line' : ℕ → ℕ) × (unfold_variable getenv vars true true slack junk p line ≡ ok line')
        × IsReplaced p (env ++ behind) line line'
  unfold_variable-whole env behind sl m known s l h fits room =
      let here : Spells (p + (length name + 1) + 1) behind line =
        subst (λ q. Spells q behind line) (to_end p (length name)) s in
      let all = take-all (suc (length name + 1)) name (omega arith) in
      found_lem (length name + 1) env behind sl (omega arith) (ap lookup all ∙ known)
        (λ k l1 l2. absurd (omega (arith, l1, l2))) here (omega (arith, l)) h (omega (arith, fits))
        room

  -- A name of which no prefix is known leaves the line alone.
  pub unfold_variable-unknown :
      0 < slack
      → ((k : ℕ) → 1 ≤ k → lookup (take k name) ≡ none)
      → unfold_variable getenv vars true true slack junk p line ≡ ok line
  unfolding unfold_variable
  unfold_variable-unknown sl unknown =
      let (subs, e) =
        try_names-none lookup true slack p name nonzero line (length name + 2) junk
          (omega (arith, sl)) (λ k l _. unknown k l) (first_left junk) in
      let (subs', e') =
        try_names-none getenv true slack p name nonzero line (length name + 2) subs
          (omega (arith, sl)) (λ k l _. get_var-none getenv (take k name) vars (unknown k l))
          (first_left subs) in
      ground (arith, dollar, inside, string_from-Spells (p + 1) name line text inside, e, e')

  -- As many bytes as the source asks for are one too few.
  pub unfold_variable-outside :
      slack ≡ 0 → unfold_variable getenv vars true true slack junk p line ≡ fault
  unfolding unfold_variable
  unfold_variable-outside sl =
      let e : suc (length name + 1) ≡ length name + 2 = omega arith in
      let bad =
        try_names-outside lookup true slack p name nonzero line (length name + 1) junk
          (omega (arith, sl)) in
      ground (
        arith,
        dollar,
        inside,
        string_from-Spells (p + 1) name line text inside,
        subst (λ n. try_names lookup true slack p str name n junk line ≡ fault) e bad,
      )
