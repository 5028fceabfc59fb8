-- ===== src/Kcsh/Number/Decimal.antt =====
-- lab4/io.c: what the decimal numbers mean.
use syssoft_labs.Prelude.{
  ℕ, zero, suc, ◌+◌, ◌-◌, ◌*◌, ◌/◌, ◌%◌, ◌^◌, ◌≤◌, ◌<◌, ◌≡◌, ◌≢◌, refl, ◌∙◌, ap, true, false, [],
  ◌∷◌, ◌++◌, All, All-append, arith, ℕ_discrete,
}
use syssoft_labs.Prelude.CString.{CString, bytes, byte_at}
use syssoft_labs.Prelude.Int.{pos}
use syssoft_labs.Kcsh.Outcome.{ok, ◌>>=◌}
use syssoft_labs.Kcsh.Number.{fill, turned, sayi, sayul, errc_to_a}
use syssoft_labs.Kcsh.Number.Turn.{reversed, turned_lem, byte_at-append, length-reversed}

-- the number that a string of digits stands for, the first digit the highest
abbrev read_on : ℕ → CString → ℕ
read_on n [] = n
read_on n (c ∷ cs) = read_on (10 * n + (c - b'0')) cs

abbrev pub decimal : CString → ℕ
decimal cs = read_on 0 cs

abbrev pub IsDigit : ℕ → Type 0
IsDigit c = (b'0' ≤ c) × (c ≤ b'9')

-- the number that digits stand for with the first digit the lowest
abbrev low : CString → ℕ
low [] = 0
low (c ∷ cs) = (c - b'0') + 10 * low cs

abbrev pow10 : ℕ → ℕ
pow10 zero = 1
pow10 (suc n) = 10 * pow10 n

-- the last digit is not zero
abbrev IsHigh : CString → Type 0
IsHigh [] = Unit
IsHigh (c ∷ []) = c ≢ b'0'
IsHigh (c ∷ d ∷ cs) = IsHigh (d ∷ cs)

IsHigh-cons : (c : ℕ) (cs : CString) → (cs ≡ [] → c ≢ b'0') → IsHigh cs → IsHigh (c ∷ cs)
IsHigh-cons c [] h k = h refl
IsHigh-cons c (d ∷ cs) h k = k

fill_lem :
    (room n : ℕ)
    → n < pow10 room
    → (ds : CString) × (fill false (suc room) n ≡ ok ds)
      × (low ds ≡ n)
      × All IsDigit ds
      × IsHigh ds
      × (n ≢ 0 → ds ≢ [])
unfolding fill
fill_lem zero n h =
    ([], ground (arith, h), omega (arith, h), tt, tt, λ q. absurd (q (omega (arith, h))))
fill_lem (suc room) n h = elim (ℕ_discrete n 0) [
  | yes z ↦ ([], ground (arith, z), omega (arith, z), tt, tt, λ q. absurd (q z))
  | no nz ↦
      let (ds, e, v, d, g, q) = fill_lem room (n / 10) (omega (arith, h)) in
      (
        (b'0' + n % 10) ∷ ds,
        ground (arith, nz, e),
        omega (arith, v),
        ((omega arith, omega arith), d),
        IsHigh-cons (b'0' + n % 10) ds (λ z. ground (arith, z, v, nz)) g,
        λ _. ground arith,
      )
]

read_on-append :
    (n : ℕ) (cs : CString) (c : ℕ) → read_on n (cs ++ c ∷ []) ≡ 10 * read_on n cs + (c - b'0')
read_on-append n [] c = refl
read_on-append n (d ∷ cs) c = read_on-append (10 * n + (d - b'0')) cs c

decimal-reversed : (ds : CString) → decimal (reversed ds) ≡ low ds
decimal-reversed [] = refl
decimal-reversed (c ∷ cs) = omega (arith, read_on-append 0 (reversed cs) c, decimal-reversed cs)

All-reversed : (ds : CString) → All IsDigit ds → All IsDigit (reversed ds)
All-reversed [] h = tt
All-reversed (c ∷ cs) h = All-append IsDigit (reversed cs) (c ∷ []) (All-reversed cs h.1) (h.0, tt)

reversed-IsHigh : (ds : CString) → ds ≢ [] → IsHigh ds → byte_at (reversed ds) 0 ≢ b'0'
reversed-IsHigh [] n h = absurd (n refl)
reversed-IsHigh (c ∷ []) n h = h
reversed-IsHigh (c ∷ d ∷ cs) n h = ground (
  arith,
  reversed-IsHigh (d ∷ cs) (ground arith) h,
  byte_at-append (reversed (d ∷ cs)) (c ∷ []) 0,
  length-reversed (d ∷ cs),
)

-- The decimal digits of a number, with no zero in front; the number 0 is one digit.
pub record IsNumeral (n : ℕ) (s : CString) : Type 0 where
  pub value : decimal s ≡ n
  pub digits : All IsDigit s
  pub first : n ≢ 0 → byte_at s 0 ≢ b'0'
  pub zero_digit : n ≡ 0 → s ≡ bytes "0"

turned-IsNumeral :
    (room n : ℕ)
    → n < pow10 room
    → n ≢ 0
    → (s : CString) × ((fill false (suc room) n >>= λ ds. ok (turned ds)) ≡ ok s) × IsNumeral n s
turned-IsNumeral room n h nz =
    let (ds, e, v, d, g, q) = fill_lem room n h in
    (
      reversed ds,
      ground (arith, e, turned_lem ds),
      record {
        value = decimal-reversed ds ∙ v;
        digits = All-reversed ds d;
        first = λ z. reversed-IsHigh ds (q z) g;
        zero_digit = λ z. absurd (nz z);
      },
    )

zero-IsNumeral : IsNumeral 0 (bytes "0")
zero-IsNumeral = record {
  value = refl;
  digits = ((omega arith, omega arith), tt);
  first = λ z. absurd (z refl);
  zero_digit = λ z. refl;
}

-- With memory granted, `errc_to_a` of a number below 10^8, so of every exit status, gives its
-- decimal digits, with no zero in front, and one digit for 0.
pub errc_to_a-IsNumeral :
    (n : ℕ) → n < 10 ^ 8 → (s : CString) × (errc_to_a true (pos n) ≡ ok s) × IsNumeral n s
unfolding errc_to_a
errc_to_a-IsNumeral zero h = (bytes "0", refl, zero-IsNumeral)
errc_to_a-IsNumeral (suc n) h = turned-IsNumeral 8 (suc n) h (omega arith)

-- More room than is needed changes nothing.
fill_room : (r r' n : ℕ) → n < pow10 r → n < pow10 r' → fill false (suc r) n ≡ fill false (suc r') n
unfolding fill
fill_room zero zero n h k = refl
fill_room zero (suc r') n h k = ground (arith, h)
fill_room (suc r) zero n h k = ground (arith, k)
fill_room (suc r) (suc r') n h k =
    ground (arith, fill_room r r' (n / 10) (omega (arith, h)) (omega (arith, k)))

-- `sayi` of an `int` that is not negative says its decimal digits, with no zero in front, and `0` for
-- 0; below 10^8 this is what `errc_to_a` gives, with memory granted.
pub sayi-errc_to_a :
    (n : ℕ)
    → n < 2 ^ 31
    → (s : CString) × (sayi (pos n) ≡ ok s)
      × IsNumeral n s
      × (n < 10 ^ 8 → errc_to_a true (pos n) ≡ ok s)
unfolding sayi errc_to_a
sayi-errc_to_a zero h = (bytes "0", refl, zero-IsNumeral, λ l. refl)
sayi-errc_to_a (suc n) h =
    let (s, e, d) = turned-IsNumeral 32 (suc n) (omega (arith, h)) (omega arith) in
    (
      s,
      e,
      d,
      λ l. ap (λ f. f >>= λ ds. ok (turned ds)) (fill_room 8 32 (suc n) l (omega (arith, h))) ∙ e,
    )

-- `sayul` says the decimal digits of a number in the reverse order, the lowest first.
pub sayul-IsNumeral :
    (n : ℕ) → n < 2 ^ 64 → (s : CString) × (sayul n ≡ ok s) × IsNumeral n (reversed s)
unfolding sayul
sayul-IsNumeral zero h = (bytes "0", refl, zero-IsNumeral)
sayul-IsNumeral (suc n) h =
    let (ds, e, v, d, g, q) = fill_lem 64 (suc n) (omega (arith, h)) in
    (
      ds,
      e,
      record {
        value = decimal-reversed ds ∙ v;
        digits = All-reversed ds d;
        first = λ z. reversed-IsHigh ds (q z) g;
        zero_digit = λ z. absurd (omega (arith, z));
      },
    )
