-- ===== src/Kcsh/Editor/Memory.antt =====
-- lab4/io.c: what the loops over the line do to its bytes.
use syssoft_labs.Prelude.{
  ℕ, zero, suc, ◌+◌, ◌-◌, ◌≤◌, ◌<◌, ◌≡◌, ◌≢◌, refl, ◌∙◌, ◌&&◌, length, ltb, leb, ◌==◌, arith,
  if◌then◌else◌,
}
use syssoft_labs.Prelude.Family.{update}
use syssoft_labs.Kcsh.Outcome.{ok}
use syssoft_labs.Kcsh.Editor.{string_at, slice, shift_left, shift_right, strshr}

-- `k` bytes that are not NUL, and a NUL behind them.
pub record IsString (line : ℕ → ℕ) (p k : ℕ) : Type 0 where
  pub text : (i : ℕ) → i < k → line (p + i) ≢ 0
  pub nul : line (p + k) ≡ 0

tail-IsString :
    (line line' : ℕ → ℕ) (p k : ℕ)
    → ((i : ℕ) → p < i → line' i ≡ line i)
    → IsString line p (suc k)
    → IsString line' (p + 1) k
tail-IsString line line' p k same s = record {
  text = λ i h e. s.text (i + 1) (omega (arith, h)) (ground (arith, same (p + 1 + i), e));
  nul = ground (arith, same (p + 1 + k), s.nul);
}

pub string_at_lem :
    (left p k : ℕ) (line : ℕ → ℕ)
    → IsString line p k
    → k < left
    → string_at left p line ≡ ok (slice k p line)
unfolding string_at slice
string_at_lem zero p k line s h = absurd (omega (arith, h))
string_at_lem (suc left) p zero line s h = ground (arith, s.nul)
string_at_lem (suc left) p (suc k) line s h = ground (
  arith,
  s.text 0 (omega arith),
  string_at_lem left (p + 1) k line (tail-IsString line line p k (λ i _. refl) s)
      (omega (arith, h)),
)

pub length-slice : (k p : ℕ) (line : ℕ → ℕ) → length (slice k p line) ≡ k
unfolding slice
length-slice zero p line = refl
length-slice (suc k) p line = omega (arith, length-slice k (p + 1) line)

-- The bytes from `p` to the NUL move one place to the left.
pub shift_left_lem :
    (left p k : ℕ) (line : ℕ → ℕ)
    → IsString line p k
    → k < left
    → 0 < p
    → (line' : ℕ → ℕ) × (shift_left left p 1 line ≡ ok line')
      × ((i : ℕ) → line' i ≡ (if leb p (i + 1) && ltb i (p + k) then line (i + 1) else line i))
unfolding shift_left
shift_left_lem zero p k line s h q = absurd (omega (arith, h))
shift_left_lem (suc left) p zero line s h q =
    (update line (p - 1) 0, ground (arith, s.nul), λ i. ground (arith, s.nul))
shift_left_lem (suc left) p (suc k) line s h q =
    let next = update line (p - 1) (line p) in
    let (line', e, b) =
      shift_left_lem left (p + 1) k next (tail-IsString line next p k (λ i l. ground (arith, l)) s)
        (omega (arith, h)) (omega arith) in
    (line', ground (arith, s.text 0 (omega arith), e), λ i. ground (arith, b i))

abbrev pub moved : (n i p : ℕ) → (ℕ → ℕ) → ℕ → ℕ
moved n i p line j = if ltb (p + i - n) j && leb j (p + i) then line (j - 1) else line j

moved-suc :
    (n i p : ℕ) (line : ℕ → ℕ) (j : ℕ)
    → suc n ≤ i
    → moved n (i - 1) p (update line (p + i) (line (p + i - 1))) j ≡ moved (suc n) i p line j
moved-suc n i p line j h = ground arith

-- The bytes from `p + i - n` on, up to `p + i`, move one place to the right.
pub shift_right_lem :
    (n i p : ℕ) (line : ℕ → ℕ) (j : ℕ) → n ≤ i → shift_right n i p 1 line j ≡ moved n i p line j
unfolding shift_right
shift_right_lem zero i p line j h = ground arith
shift_right_lem (suc n) i p line j h =
    shift_right_lem n (i - 1) p (update line (p + i) (line (p + i - 1))) j (omega (arith, h))
    ∙ moved-suc n i p line j h

pub strshr_lem :
    (p k : ℕ) (line : ℕ → ℕ)
    → IsString line p k
    → p + k + 1 < 1024
    → (line' : ℕ → ℕ) × (strshr p 1 line ≡ ok line')
      × ((i : ℕ)
          → line' i ≡ (
              if ltb p i && leb i (p + k)
              then line (i - 1)
              else if i == p + k + 1
              then 0
              else line i))
unfolding strshr
strshr_lem p k line s h =
    let ended = update line (p + k + 1) 0 in
    (
      shift_right (k + 1 - 1) k p 1 ended,
      ground
          (arith, h, string_at_lem (1024 - p) p k line s (omega (arith, h)), length-slice k p line),
      λ i. shift_right_lem (k + 1 - 1) k p ended i (omega arith) ∙ ground arith,
    )
