-- ===== src/Kcsh/Number.antt =====
-- lab4/io.c: numbers in decimal: `sayi`, `sayul` and `errc_to_a`. A number below 0 is given as C
-- computes with it: `n / 10` rounds towards 0, and `n % 10` has the sign of `n`.
pub mod Turn
pub mod Decimal
mod Tests
use syssoft_labs.Prelude.{
  ℕ, zero, suc, ◌+◌, ◌-◌, ◌/◌, ◌%◌, Bool, true, false, List, [], ◌∷◌, length, set, ◌==◌,
  if◌then◌else◌,
}
use syssoft_labs.Prelude.CString.{CString, bytes, byte_at}
use syssoft_labs.Prelude.Int.{ℤ, pos, negsuc}
use syssoft_labs.Kcsh.Outcome.{Outcome, ok, fault, ◌>>=◌, ◌>>◌, try_alloc}

-- `'0' + (n % 10)`, where `d` is the digit of the magnitude
abbrev pub digit : (negative : Bool) → ℕ → ℕ
digit negative d = if negative then b'0' - d else b'0' + d

-- `for (; n; ++i, n /= 10) buf[i] = '0' + (n % 10); buf[i] = '\0';` with `room` bytes of the buffer
-- left
unfoldable pub fill : (negative : Bool) → (room n : ℕ) → Outcome CString
fill negative zero n = fault
fill negative (suc room) n =
    let rest = fill negative room (n / 10) in
    if n == 0 then ok [] else (rest >>= λ ds. ok (digit negative (n % 10) ∷ ds))

-- `for (j = 0; j < i / 2; ++j)`, with `rounds` to go
unfoldable pub turn : (rounds j : ℕ) → CString → CString
turn zero j buf = buf
turn (suc n) j buf =
    let k = length buf - j - 1 in turn n (j + 1) (set (set buf j (byte_at buf k)) k (byte_at buf j))

abbrev pub turned : CString → CString
turned buf = turn (length buf / 2) 0 buf

-- The string that is said.
unfoldable pub sayi : ℤ → Outcome CString
sayi (pos zero) = ok (bytes "0")
sayi (pos (suc n)) = fill false 33 (suc n) >>= λ ds. ok (turned ds)
sayi (negsuc n) = fill true 32 (suc n) >>= λ ds. ok (turned (b'0' ∷ ds))

unfoldable pub sayul : ℕ → Outcome CString
sayul zero = ok (bytes "0")
sayul (suc n) = fill false 65 (suc n)

unfoldable pub errc_to_a : (granted : Bool) → ℤ → Outcome CString
errc_to_a granted (pos zero) = do try_alloc granted; ok (bytes "0")
errc_to_a granted (pos (suc n)) = do try_alloc granted; ds ← fill false 9 (suc n); ok (turned ds)
errc_to_a granted (negsuc n) = do try_alloc granted; ds ← fill true 9 (suc n); ok (turned ds)
