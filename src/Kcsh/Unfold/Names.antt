-- ===== src/Kcsh/Unfold/Names.antt =====
-- lab4/parser.c, `unfold_variable`: the names that the loop looks up. In the round with the counter
-- `i` the byte `subs[i]` is still that of the round before, so the name has `i + 1` bytes.
use syssoft_labs.Prelude.{
  ℕ, zero, suc, ◌+◌, ◌≤◌, ◌<◌, ◌≡◌, ◌≢◌, refl, sym, ◌∙◌, ap, subst, ◌⊎◌, inl, inr, Bool, Option,
  none, some, [], ◌∷◌, length, take, All, arith, ℕ_discrete,
}
use syssoft_labs.Prelude.CString.{CString, byte_at}
use syssoft_labs.Kcsh.Outcome.{ok, fault, ◌>>=◌}
use syssoft_labs.Kcsh.Editor.{string_at}
use syssoft_labs.Kcsh.Unfold.{cut, replace_name, try_names}
use syssoft_labs.Kcsh.Unfold.Write.{Spells, plus_zero, plus_suc, string_at-Spells}

-- The bytes below `n` are those of the name, and the one behind them is a NUL.
shift_end :
    (p n : ℕ) (c : ℕ) (s : CString) (cells : ℕ → ℕ)
    → (length (c ∷ s) < suc n) ⊎ (cells (p + suc n) ≡ 0)
    → (length s < n) ⊎ (cells (p + 1 + n) ≡ 0)
shift_end p n c s cells (inl l) = inl (omega (arith, l))
shift_end p n c s cells (inr z) = inr (ap cells (plus_suc p n) ∙ z)

cells-Spells :
    (p n : ℕ) (s : CString) (cells : ℕ → ℕ)
    → All (λ c. c ≢ 0) s
    → ((k : ℕ) → k < n → cells (p + k) ≡ byte_at s k)
    → (length s < n) ⊎ (cells (p + n) ≡ 0)
    → Spells p (take n s) cells
cells-Spells p zero s cells h e (inl l) = absurd (omega (arith, l))
cells-Spells p zero s cells h e (inr z) = ap cells (plus_zero p) ∙ z
cells-Spells p (suc n) [] cells h e z = ap cells (plus_zero p) ∙ e 0 (omega arith)
cells-Spells p (suc n) (c ∷ s) cells h e z = (
  ap cells (plus_zero p) ∙ e 0 (omega arith),
  h.0,
  cells-Spells (p + 1) n s cells h.1 (λ k l. ap cells (plus_suc p k) ∙ e (suc k) (omega (arith, l)))
      (shift_end p n c s cells z),
)

take-length : (n : ℕ) (s : CString) → length (take n s) ≤ n
take-length zero s = omega arith
take-length (suc n) [] = omega arith
take-length (suc n) (c ∷ s) = omega (arith, take-length n s)

byte_at-end : (s : CString) (k : ℕ) → length s ≤ k → byte_at s k ≡ 0
byte_at-end [] k h = refl
byte_at-end (c ∷ s) zero h = absurd (omega (arith, h))
byte_at-end (c ∷ s) (suc k) h = byte_at-end s k (omega (arith, h))

-- What `subs` holds when the round with the counter `i` begins: the name up to the byte `i`, or any
-- bytes if it is the first round.
abbrev pub IsLeft : CString → ℕ → (ℕ → ℕ) → Type 0
IsLeft name i subs = (length name < i) ⊎ ((k : ℕ) → k ≤ i → subs k ≡ byte_at name k)

pub take-all : (n : ℕ) (s : CString) → length s ≤ n → take n s ≡ s
take-all zero [] h = refl
take-all zero (c ∷ s) h = absurd (omega (arith, h))
take-all (suc n) [] h = refl
take-all (suc n) (c ∷ s) h = ap (λ t. c ∷ t) (take-all n s (omega (arith, h)))

-- The same, with the number of rounds to go.
abbrev pub IsLeft' : CString → ℕ → (ℕ → ℕ) → Type 0
IsLeft' name zero subs = Unit
IsLeft' name (suc i) subs = IsLeft name i subs

-- The name of a round.
cut-Spells :
    (name : CString) (i : ℕ) (subs : ℕ → ℕ)
    → All (λ c. c ≢ 0) name
    → IsLeft name i subs
    → Spells 0 (take (suc i) name) (cut name i subs)
cut-Spells name i subs h (inl l) =
    subst (λ s. Spells 0 s (cut name i subs))
      (take-all i name (omega (arith, l)) ∙ sym (take-all (suc i) name (omega (arith, l))))
      (cells-Spells 0 i name (cut name i subs) h (λ k l'. ground (arith, l')) (inl l))
cut-Spells name i subs h (inr e) =
    cells-Spells 0 (suc i) name (cut name i subs) h (λ k l. ground (arith, l, e k))
      (inr (ground arith))

cut-IsLeft : (name : CString) (i : ℕ) (subs : ℕ → ℕ) → IsLeft name i (cut name (suc i) subs)
cut-IsLeft name i subs = inr λ k l. ground (arith, l)

-- The name that is looked up in the round with the counter `i`.
pub found_name :
    (name : CString) (size i : ℕ) (subs : ℕ → ℕ)
    → All (λ c. c ≢ 0) name
    → IsLeft name i subs
    → i + 1 < size
    → string_at size 0 (cut name i subs) ≡ ok (take (suc i) name)
found_name name size i subs h left l =
    string_at-Spells size 0 (take (suc i) name) (cut name i subs) (cut-Spells name i subs h left)
      (omega (arith, l, take-length (suc i) name))

module _ (lookup : CString → Option CString) (granted : Bool) (slack p : ℕ) (name : CString)
    (text : All (λ c. c ≢ 0) name) (line : ℕ → ℕ) where
  abbrev str : CString
  str = b'$' ∷ name

  next_left : (i : ℕ) (subs : ℕ → ℕ) → IsLeft' name i (cut name i subs)
  next_left zero subs = tt
  next_left (suc i) subs = cut-IsLeft name i subs

  -- No prefix up to the length `n` is known.
  pub try_names-none :
      (n : ℕ) (subs : ℕ → ℕ)
      → n ≤ length name + 1 + slack
      → ((k : ℕ) → 1 ≤ k → k ≤ n → lookup (take k name) ≡ none)
      → IsLeft' name n subs
      → (subs' : ℕ → ℕ) × (try_names lookup granted slack p str name n subs line ≡ ok (subs', none))
  unfolding try_names
  try_names-none zero subs l unknown left = (subs, refl)
  try_names-none (suc i) subs l unknown left =
      let (subs', e) =
        try_names-none i (cut name i subs) (omega (arith, l))
          (λ k l1 l2. unknown k l1 (omega (arith, l2))) (next_left i subs) in
      (
        subs',
        ground (
          arith,
          l,
          e,
          found_name name (length str + 1 + slack) i subs text left (omega (arith, l)),
          unknown (suc i) (omega arith) (omega arith),
        ),
      )

  -- The prefix of `i + 1` bytes is known, and no longer one up to the length `n`.
  pub try_names-found :
      (i : ℕ) (env : CString) (n : ℕ) (subs : ℕ → ℕ)
      → n ≤ length name + 1 + slack
      → i < n
      → lookup (take (suc i) name) ≡ some env
      → ((k : ℕ) → suc i < k → k ≤ n → lookup (take k name) ≡ none)
      → IsLeft' name n subs
      → (subs' : ℕ → ℕ) × (try_names lookup granted slack p str name n subs line
          ≡ (replace_name granted slack p i str env line >>= λ line'. ok (subs', some line')))
  unfolding try_names
  try_names-found i env zero subs l m known unknown left = absurd (omega (arith, m))
  try_names-found i env (suc j) subs l m known unknown left = elim (ℕ_discrete i j) [
    | yes e ↦ (
      cut name j subs,
      ground (
        arith,
        l,
        ap (λ k. lookup (take (suc k) name)) e,
        known,
        ap (λ k. replace_name granted slack p k str env line) e,
        found_name name (length str + 1 + slack) j subs text left (omega (arith, l)),
      ),
    )
    | no ne ↦
        let (subs', e) =
          try_names-found i env j (cut name j subs) (omega (arith, l)) (omega (arith, m, ne)) known
            (λ k l1 l2. unknown k l1 (omega (arith, l2))) (next_left j subs) in
        (
          subs',
          ground (
            arith,
            l,
            e,
            found_name name (length str + 1 + slack) j subs text left (omega (arith, l)),
            unknown (suc j) (omega (arith, m, ne)) (omega arith),
          ),
        )
  ]

  -- Without a byte more than it asks for, the first round writes outside of `subs`.
  pub try_names-outside :
      (n : ℕ) (subs : ℕ → ℕ)
      → length str + 1 + slack ≤ suc n
      → try_names lookup granted slack p str name (suc n) subs line ≡ fault
  unfolding try_names
  try_names-outside n subs l = ground (arith, l)
