-- ===== src/Kcsh/Editor/Text.antt =====
-- lab4/io.c, `get_line`: a text with a cursor, which is what the keys are meant to edit.
use syssoft_labs.Prelude.{
  ℕ, zero, suc, ◌+◌, ◌-◌, ◌≤◌, ◌<◌, ◌≡◌, ◌≢◌, [], ◌∷◌, length, ltb, ◌==◌, arith, if◌then◌else◌,
}
use syssoft_labs.Prelude.CString.{CString, byte_at}

pub insert_at : ℕ → ℕ → CString → CString
insert_at zero c xs = c ∷ xs
insert_at (suc n) c [] = c ∷ []
insert_at (suc n) c (x ∷ xs) = x ∷ insert_at n c xs

pub remove_at : ℕ → CString → CString
remove_at n [] = []
remove_at zero (x ∷ xs) = xs
remove_at (suc n) (x ∷ xs) = x ∷ remove_at n xs

pub record Text : Type 0 where
  pub text : CString
  pub cursor : ℕ

pub data Key : Type 0 where
  char : ℕ → Key
  rub_out go_left go_right : Key

unfoldable pub apply_key : Key → Text → Text
apply_key (char c) t = record { text = insert_at t.cursor c t.text; cursor = t.cursor + 1 }
apply_key rub_out t =
    if t.cursor == 0
    then t
    else record { text = remove_at (t.cursor - 1) t.text; cursor = t.cursor - 1 }
apply_key go_left t = record t { cursor = t.cursor - 1 }
apply_key go_right t = if t.cursor == length t.text then t else record t { cursor = t.cursor + 1 }

pub byte_at-insert_at :
    (n c : ℕ) (xs : CString) (i : ℕ)
    → n ≤ length xs
    → byte_at (insert_at n c xs) i
      ≡ (if ltb i n then byte_at xs i else if i == n then c else byte_at xs (i - 1))
unfolding insert_at
byte_at-insert_at zero c xs zero h = ground arith
byte_at-insert_at zero c xs (suc i) h = ground arith
byte_at-insert_at (suc n) c [] i h = ground arith
byte_at-insert_at (suc n) c (x ∷ xs) zero h = ground arith
byte_at-insert_at (suc n) c (x ∷ xs) (suc zero) h = ground (arith, byte_at-insert_at n c xs zero)
byte_at-insert_at (suc n) c (x ∷ xs) (suc (suc i)) h =
    ground (arith, byte_at-insert_at n c xs (suc i))

pub byte_at-remove_at :
    (n : ℕ) (xs : CString) (i : ℕ)
    → n < length xs
    → byte_at (remove_at n xs) i ≡ (if ltb i n then byte_at xs i else byte_at xs (i + 1))
unfolding remove_at
byte_at-remove_at n [] i h = ground arith
byte_at-remove_at zero (x ∷ xs) i h = ground arith
byte_at-remove_at (suc n) (x ∷ xs) zero h = ground arith
byte_at-remove_at (suc n) (x ∷ xs) (suc i) h = ground (arith, byte_at-remove_at n xs i)

pub length-insert_at :
    (n c : ℕ) (xs : CString) → n ≤ length xs → length (insert_at n c xs) ≡ suc (length xs)
unfolding insert_at
length-insert_at zero c xs h = ground arith
length-insert_at (suc n) c [] h = ground arith
length-insert_at (suc n) c (x ∷ xs) h = ground (arith, length-insert_at n c xs)

pub length-remove_at :
    (n : ℕ) (xs : CString) → n < length xs → suc (length (remove_at n xs)) ≡ length xs
unfolding remove_at
length-remove_at n [] h = ground arith
length-remove_at zero (x ∷ xs) h = ground arith
length-remove_at (suc n) (x ∷ xs) h = ground (arith, length-remove_at n xs)

-- no NUL
abbrev pub IsText : CString → Type 0
IsText [] = Unit
IsText (c ∷ cs) = (c ≢ 0) × IsText cs

pub insert_at-IsText : (n c : ℕ) (xs : CString) → c ≢ 0 → IsText xs → IsText (insert_at n c xs)
unfolding insert_at
insert_at-IsText zero c xs h t = (h, t)
insert_at-IsText (suc n) c [] h t = (h, t)
insert_at-IsText (suc n) c (x ∷ xs) h t = (t.0, insert_at-IsText n c xs h t.1)

pub remove_at-IsText : (n : ℕ) (xs : CString) → IsText xs → IsText (remove_at n xs)
unfolding remove_at
remove_at-IsText n [] t = t
remove_at-IsText zero (x ∷ xs) t = t.1
remove_at-IsText (suc n) (x ∷ xs) t = (t.0, remove_at-IsText n xs t.1)

pub byte_at-IsText : (xs : CString) (i : ℕ) → IsText xs → i < length xs → byte_at xs i ≢ 0
byte_at-IsText [] i t h = absurd (omega (arith, h))
byte_at-IsText (x ∷ xs) zero t h = t.0
byte_at-IsText (x ∷ xs) (suc i) t h = byte_at-IsText xs i t.1 (omega (arith, h))

pub byte_at-length : (xs : CString) (i : ℕ) → length xs ≤ i → byte_at xs i ≡ 0
byte_at-length [] i h = ground arith
byte_at-length (x ∷ xs) zero h = absurd (omega (arith, h))
byte_at-length (x ∷ xs) (suc i) h = byte_at-length xs i (omega (arith, h))
