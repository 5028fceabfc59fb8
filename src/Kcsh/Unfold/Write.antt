-- ===== src/Kcsh/Unfold/Write.antt =====
-- lab4/parser.c: the strings in a block of bytes.
use syssoft_labs.Prelude.{
  ℕ, zero, suc, ◌+◌, ◌-◌, ◌≤◌, ◌<◌, ◌≡◌, ◌≢◌, ◌∙◌, subst, [], ◌∷◌, length, drop, All, arith,
}
use syssoft_labs.Prelude.CString.{CString}
use syssoft_labs.Prelude.Family.{update}
use syssoft_labs.Kcsh.Outcome.{ok}
use syssoft_labs.Kcsh.Editor.{string_at, string_from, line_size}
use syssoft_labs.Kcsh.Unfold.{write_string}

-- The bytes from `p` on are those of the string, and then a NUL.
abbrev pub Spells : ℕ → CString → (ℕ → ℕ) → Type 0
Spells p [] line = line p ≡ 0
Spells p (c ∷ cs) line = (line p ≡ c) × (c ≢ 0) × Spells (p + 1) cs line

pub string_at-Spells :
    (left p : ℕ) (s : CString) (line : ℕ → ℕ)
    → Spells p s line
    → length s < left
    → string_at left p line ≡ ok s
unfolding string_at
string_at-Spells zero p s line h l = absurd (omega (arith, l))
string_at-Spells (suc left) p [] line h l = ground (arith, h)
string_at-Spells (suc left) p (c ∷ s) line h l =
    ground (arith, h.0, h.1, string_at-Spells left (p + 1) s line h.2 (omega (arith, l)))

pub string_from-Spells :
    (p : ℕ) (s : CString) (line : ℕ → ℕ)
    → Spells p s line
    → p + length s < line_size
    → string_from p line ≡ ok s
string_from-Spells p s line h l = string_at-Spells (1024 - p) p s line h (omega (arith, l))

pub Spells-nonzero : (p : ℕ) (s : CString) (line : ℕ → ℕ) → Spells p s line → All (λ c. c ≢ 0) s
Spells-nonzero p [] line h = tt
Spells-nonzero p (c ∷ s) line h = (h.1, Spells-nonzero (p + 1) s line h.2)

pub plus_zero : (p : ℕ) → p ≡ p + 0
plus_zero p = omega arith

pub plus_suc : (p i : ℕ) → p + 1 + i ≡ p + suc i
plus_suc p i = omega arith

pub Spells-drop :
    (i p : ℕ) (s : CString) (line : ℕ → ℕ)
    → Spells p s line
    → i ≤ length s
    → Spells (p + i) (drop i s) line
Spells-drop zero p s line h l = subst (λ q. Spells q s line) (plus_zero p) h
Spells-drop (suc i) p [] line h l = absurd (omega (arith, l))
Spells-drop (suc i) p (c ∷ s) line h l =
    subst (λ q. Spells q (drop i s) line) (plus_suc p i)
      (Spells-drop i (p + 1) s line h.2 (omega (arith, l)))

-- A change in front of the string does not matter.
Spells-same :
    (p : ℕ) (s : CString) (line line' : ℕ → ℕ)
    → ((j : ℕ) → p ≤ j → line' j ≡ line j)
    → Spells p s line
    → Spells p s line'
Spells-same p [] line line' e h = e p (omega arith) ∙ h
Spells-same p (c ∷ s) line line' e h = (
  e p (omega arith) ∙ h.0,
  h.1,
  Spells-same (p + 1) s line line' (λ j l. e j (omega (arith, l))) h.2,
)

pub write_string-Spells :
    (p : ℕ) (s : CString) (line : ℕ → ℕ) → All (λ c. c ≢ 0) s → Spells p s (write_string p s line)
write_string-Spells p [] line h = ground arith
write_string-Spells p (c ∷ s) line h = (
  ground arith,
  h.0,
  Spells-same (p + 1) s (write_string (p + 1) s line) (update (write_string (p + 1) s line) p c)
      (λ j l. ground (arith, l)) (write_string-Spells (p + 1) s line h.1),
)

pub write_string-before :
    (p : ℕ) (s : CString) (line : ℕ → ℕ) (j : ℕ) → j < p → write_string p s line j ≡ line j
write_string-before p [] line j l = ground (arith, l)
write_string-before p (c ∷ s) line j l =
    ground (arith, l, write_string-before (p + 1) s line j (omega (arith, l)))
