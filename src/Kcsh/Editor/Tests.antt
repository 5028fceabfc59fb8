-- ===== src/Kcsh/Editor/Tests.antt =====
-- Tests and examples of Kcsh.Editor.
use syssoft_labs.Prelude.{
  ℕ, zero, suc, ◌≡◌, refl, Bool, true, Option, some, List, [], ◌∷◌, ◌++◌, map, replicate, length,
  All, arith,
}
use syssoft_labs.Prelude.CString.{CString, bytes, same}
use syssoft_labs.Kcsh.Outcome.{Outcome, ok, exited, fault, out_of_fuel}
use syssoft_labs.Kcsh.Editor.{
  Editor, fresh, string_at, slice, shift_left, strshl, shift_right, strshr, backspace, left, right,
  insert, clean, enter,
}
use syssoft_labs.Kcsh.Editor.Complete.{
  last_index, basedir, choose, entries, skipped, complete, copy_string, tab,
}
use syssoft_labs.Kcsh.Editor.Loop.{edit, take_byte, press, arrow, get_line}
use syssoft_labs.Prelude.Io.{Read, got, end_of_file, failed}
use syssoft_labs.Kcsh.Editor.Text.{Key, char, rub_out, go_left, go_right}
use syssoft_labs.Kcsh.Editor.Session.{
  all_sent, sent, typed_text, cleaned, no_text, is_plain, get_line_lem,
}
use syssoft_labs.Kcsh.Editor.Overflow.{get_line_overflow}

abbrev always : ℕ → Bool
always k = true

-- a directory with two files
abbrev listing : ℕ → CString → Option (List CString)
listing k dir = some (bytes "." ∷ bytes "main" ∷ bytes ".." ∷ bytes "make" ∷ [])

abbrev start : Editor
start = fresh 0 []

abbrev line_of : Outcome (CString × Editor) → Outcome CString
line_of (ok r) = ok r.0
line_of (exited c) = exited c
line_of fault = fault
line_of out_of_fuel = out_of_fuel

abbrev line : List Read → Outcome CString
line reads = line_of (get_line always listing listing true (some (bytes "% ")) start reads)

abbrev keys : List Key
keys = char b'l' ∷ char b'x' ∷ char b's' ∷ go_left ∷ rub_out ∷ go_right ∷ char b'!' ∷ []

edits : line (all_sent keys) ≡ ok (bytes "ls!")
unfolding get_line edit take_byte press arrow left right insert backspace enter clean strshl
    shift_left string_at slice all_sent sent
edits = refl

inserts :
    line (got b'b' ∷ got 0x1b ∷ got 0x5b ∷ got 0x44 ∷ got b'a' ∷ got 0x0a ∷ []) ≡ ok (bytes "ab")
unfolding get_line edit take_byte press arrow left insert enter clean strshr shift_right string_at
    slice
inserts = refl

-- The name is completed behind the last space, up to the last slash.
completes : line (map got (bytes "vi x/m") ++ got 0x09 ∷ got 0x0a ∷ []) ≡ ok (bytes "vi x/main")
unfolding get_line edit take_byte press insert enter clean tab complete basedir last_index choose
    entries skipped copy_string same string_at slice
completes = refl

-- Without a space before it the first byte of the word is taken for the space.
completes_wrongly : line (map got (bytes "x/m") ++ got 0x09 ∷ got 0x0a ∷ []) ≡ ok (bytes "x/main")
unfolding get_line edit take_byte press insert enter clean tab complete basedir last_index choose
    entries skipped copy_string same string_at slice
completes_wrongly = refl

tab_at_start : line (got 0x09 ∷ []) ≡ fault
unfolding get_line edit take_byte press tab complete string_at slice
tab_at_start = refl

-- At the end of the input the last byte is taken again.
repeats : line (got b'a' ∷ end_of_file ∷ got 0x0a ∷ []) ≡ ok (bytes "aa")
unfolding get_line edit take_byte press insert enter clean string_at slice
repeats = refl

stops : line (failed ∷ []) ≡ exited 5
unfolding get_line edit
stops = refl

get_line_lem_example :
    (ed' : Editor) × (get_line always listing listing true (some (bytes "% ")) start (all_sent keys)
      ≡ ok (cleaned (typed_text keys no_text).text, ed'))
get_line_lem_example =
    get_line_lem always listing listing (bytes "% ") start keys
      (refl, (refl, (refl, (tt, (tt, (tt, (refl, tt))))))) (omega arith)

plain_a : (n : ℕ) → All (λ b. is_plain b ≡ true) (replicate n b'a')
plain_a zero = tt
plain_a (suc n) = (refl, plain_a n)

length-replicate : (n c : ℕ) → length (replicate n c) ≡ n
length-replicate zero c = refl
length-replicate (suc n) c = omega (arith, length-replicate n c)

get_line_overflow_example :
    get_line always listing listing true
      (some (bytes "% "))
      start
      (map got (replicate 1024 b'a') ++ got 0x0a ∷ [])
    ≡ fault
get_line_overflow_example =
    get_line_overflow always listing listing (bytes "% ") (replicate 1024 b'a') start (plain_a 1024)
      (omega (arith, length-replicate 1024 b'a'))
