-- ===== src/Kcsh/Number/Turn.antt =====
-- lab4/io.c: the loop that turns the digits around.
use syssoft_labs.Prelude.{
  ℕ, zero, suc, ◌+◌, ◌-◌, ◌/◌, ◌≤◌, ◌<◌, ◌≡◌, refl, ◌∙◌, sym, [], ◌∷◌, ◌++◌, length, set,
  length-append, ltb, leb, ◌==◌, ◌&&◌, ◌||◌, if◌then◌else◌, arith,
}
use syssoft_labs.Prelude.CString.{CString, byte_at}
use syssoft_labs.Kcsh.Number.{turn, turned}

abbrev pub reversed : CString → CString
reversed [] = []
reversed (c ∷ cs) = reversed cs ++ c ∷ []

length-set : (xs : CString) (i v : ℕ) → length (set xs i v) ≡ length xs
length-set [] i v = refl
length-set (x ∷ xs) zero v = refl
length-set (x ∷ xs) (suc i) v = omega (arith, length-set xs i v)

byte_at-set :
    (xs : CString) (i v k : ℕ)
    → i < length xs
    → byte_at (set xs i v) k ≡ (if k == i then v else byte_at xs k)
byte_at-set [] i v k h = absurd (omega (arith, h))
byte_at-set (x ∷ xs) zero v zero h = ground arith
byte_at-set (x ∷ xs) zero v (suc k) h = ground arith
byte_at-set (x ∷ xs) (suc i) v zero h = ground arith
byte_at-set (x ∷ xs) (suc i) v (suc k) h = ground (arith, byte_at-set xs i v k (omega (arith, h)))

abbrev exchanged : ℕ → ℕ → CString → CString
exchanged i k xs = set (set xs i (byte_at xs k)) k (byte_at xs i)

length-exchanged : (i k : ℕ) (xs : CString) → length (exchanged i k xs) ≡ length xs
length-exchanged i k xs =
    length-set (set xs i (byte_at xs k)) k (byte_at xs i) ∙ length-set xs i (byte_at xs k)

byte_at-exchanged :
    (i k : ℕ) (xs : CString) (m : ℕ)
    → i < length xs
    → k < length xs
    → byte_at (exchanged i k xs) m
      ≡ (if m == k then byte_at xs i else if m == i then byte_at xs k else byte_at xs m)
byte_at-exchanged i k xs m h l = ground (
  arith,
  byte_at-set (set xs i (byte_at xs k)) k (byte_at xs i) m
      (omega (arith, l, length-set xs i (byte_at xs k))),
  byte_at-set xs i (byte_at xs k) m h,
)

-- After `n` rounds from `j` on, the bytes at `j` to `j + n - 1` and those opposite are exchanged.
turn_lem :
    (n j : ℕ) (xs : CString) (k : ℕ)
    → j + n + j + n ≤ length xs
    → k < length xs
    → byte_at (turn n j xs) k ≡ (
        if (leb j k && ltb k (j + n)) || (ltb (length xs - j - n - 1) k && ltb k (length xs - j))
        then byte_at xs (length xs - k - 1)
        else byte_at xs k)
unfolding turn
turn_lem zero j xs k h l = ground (arith, h, l)
turn_lem (suc n) j xs k h l =
    let m = length xs - j - 1 in
    let ys = exchanged j m xs in
    let l' = length-exchanged j m xs in
    turn_lem n (j + 1) ys k (omega (arith, h, l')) (omega (arith, l, l'))
    ∙ ground (
      arith,
      h,
      l,
      l',
      byte_at-exchanged j m xs k (omega (arith, h)) (omega (arith, h)),
      byte_at-exchanged j m xs (length ys - k - 1) (omega (arith, h)) (omega (arith, h)),
    )

length-turn : (n j : ℕ) (xs : CString) → length (turn n j xs) ≡ length xs
unfolding turn
length-turn zero j xs = refl
length-turn (suc n) j xs = length-turn n (j + 1) _ ∙ length-exchanged j (length xs - j - 1) xs

pub byte_at-append :
    (xs ys : CString) (k : ℕ)
    → byte_at (xs ++ ys) k
      ≡ (if ltb k (length xs) then byte_at xs k else byte_at ys (k - length xs))
byte_at-append [] ys k = ground arith
byte_at-append (x ∷ xs) ys zero = ground arith
byte_at-append (x ∷ xs) ys (suc k) = ground (arith, byte_at-append xs ys k)

pub length-reversed : (xs : CString) → length (reversed xs) ≡ length xs
length-reversed [] = refl
length-reversed (x ∷ xs) = omega (arith, length-append (reversed xs) (x ∷ []), length-reversed xs)

byte_at-reversed :
    (xs : CString) (k : ℕ)
    → k < length xs
    → byte_at (reversed xs) k ≡ byte_at xs (length xs - k - 1)
byte_at-reversed [] k h = absurd (omega (arith, h))
byte_at-reversed (x ∷ xs) k h = ground (
  arith,
  h,
  byte_at-append (reversed xs) (x ∷ []) k,
  length-reversed xs,
  λ (q : k < length xs). byte_at-reversed xs k q,
)

same_bytes :
    (xs ys : CString)
    → length xs ≡ length ys
    → ((k : ℕ) → k < length xs → byte_at xs k ≡ byte_at ys k)
    → xs ≡ ys
same_bytes [] [] l h = refl
same_bytes [] (y ∷ ys) l h = absurd (omega (arith, l))
same_bytes (x ∷ xs) [] l h = absurd (omega (arith, l))
same_bytes (x ∷ xs) (y ∷ ys) l h = ground (
  arith,
  h 0 (omega arith),
  same_bytes xs ys (omega (arith, l)) (λ k q. h (suc k) (omega (arith, q))),
)

pub turned_lem : (xs : CString) → turned xs ≡ reversed xs
turned_lem xs =
    same_bytes (turned xs) (reversed xs)
      (length-turn (length xs / 2) 0 xs ∙ sym (length-reversed xs))
      λ k h.
        let l : k < length xs = omega (arith, h, length-turn (length xs / 2) 0 xs) in
        turn_lem (length xs / 2) 0 xs k (omega arith) l ∙ ground (arith, l, byte_at-reversed xs k l)
