-- ===== src/Kcsh/Number/Tests.antt =====
-- Tests and examples of Kcsh.Number.
use syssoft_labs.Prelude.{◌<◌, ◌^◌, ◌≡◌, refl, true, arith}
use syssoft_labs.Prelude.CString.{CString, bytes}
use syssoft_labs.Prelude.Int.{pos, negsuc}
use syssoft_labs.Kcsh.Outcome.{ok, fault}
use syssoft_labs.Kcsh.Number.{fill, turn, sayi, sayul, errc_to_a}
use syssoft_labs.Kcsh.Number.Turn.{reversed}
use syssoft_labs.Kcsh.Number.Decimal.{
  IsNumeral, errc_to_a-IsNumeral, sayi-errc_to_a, sayul-IsNumeral,
}

status : errc_to_a true (pos 127) ≡ ok (bytes "127")
unfolding errc_to_a fill turn
status = refl

pid : sayi (pos 20_714) ≡ ok (bytes "20714")
unfolding sayi fill turn
pid = refl

-- A negative number is said with characters below '0', and a zero in the place of the lowest digit.
negative : sayi (negsuc 11) ≡ ok (bytes "/.0")
unfolding sayi fill turn
negative = refl

too_long : errc_to_a true (pos 100_000_000) ≡ fault
unfolding errc_to_a fill
too_long = refl

backwards : sayul 120 ≡ ok (bytes "021")
unfolding sayul fill
backwards = refl

errc_to_a-IsNumeral_instance : (s : CString) × (errc_to_a true (pos 127) ≡ ok s) × IsNumeral 127 s
errc_to_a-IsNumeral_instance = errc_to_a-IsNumeral 127 (omega arith)

sayi-errc_to_a_example :
    (s : CString) × (sayi (pos 20_714) ≡ ok s)
    × IsNumeral 20_714 s
    × (20_714 < 10 ^ 8 → errc_to_a true (pos 20_714) ≡ ok s)
sayi-errc_to_a_example = sayi-errc_to_a 20_714 (omega arith)

sayul_reverses : (s : CString) × (sayul 120 ≡ ok s) × IsNumeral 120 (reversed s)
sayul_reverses = sayul-IsNumeral 120 (omega arith)
