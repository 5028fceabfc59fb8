-- ===== src/Kcsh/Editor.antt =====
-- lab4/io.c: the line that `get_line` edits, and the keys that change it. A write to the terminal is
-- taken to succeed, and `out` holds the bytes written.
pub mod Complete
pub mod Loop
pub mod Text
pub mod Memory
pub mod Keys
pub mod Session
pub mod Overflow
mod Tests
use syssoft_labs.Prelude.{
  ℕ, zero, suc, ◌+◌, ◌-◌, Bool, false, List, [], ◌∷◌, ◌++◌, length, ltb, ◌==◌, if◌then◌else◌,
  replicate,
}
use syssoft_labs.Prelude.CString.{CString, bytes}
use syssoft_labs.Prelude.Family.{update}
use syssoft_labs.Kcsh.Outcome.{Outcome, ok, fault, ◌>>=◌}

-- the block that `calloc(1, 1024)` returns
abbrev pub line_size : ℕ
line_size = 1024

-- `line`, `pos` and `length`, and the two static variables
pub record Editor : Type 0 where
  pub line : ℕ → ℕ
  pub pos : ℕ
  pub length : ℕ
  pub completion : Bool
  pub comp_pos : ℕ
  pub out : CString

abbrev pub fresh : (comp_pos : ℕ) → CString → Editor
fresh comp_pos out = record {
  line = λ _. 0;
  pos = 0;
  length = 0;
  completion = false;
  comp_pos = comp_pos;
  out = out;
}

abbrev pub say : CString → Editor → Editor
say message ed = record ed { out = ed.out ++ message }

-- `line[i] = c`
abbrev pub put_byte : ℕ → ℕ → (ℕ → ℕ) → Outcome (ℕ → ℕ)
put_byte i c line = if ltb i line_size then ok (update line i c) else fault

-- The string at `line + p`: `left` bytes of the block are behind `p`.
unfoldable pub string_at : (left p : ℕ) → (ℕ → ℕ) → Outcome CString
string_at zero p line = fault
string_at (suc left) p line =
    let rest = string_at left (p + 1) line in
    if line p == 0 then ok [] else (rest >>= λ cs. ok (line p ∷ cs))

abbrev pub string_from : ℕ → (ℕ → ℕ) → Outcome CString
string_from p line = string_at (line_size - p) p line

-- `line[p] ... line[p + count - 1]`
unfoldable pub slice : (count p : ℕ) → (ℕ → ℕ) → CString
slice zero p line = []
slice (suc n) p line = line p ∷ slice n (p + 1) line

-- the loop of `strshl` and the write behind it, with `str` at `p`
unfoldable pub shift_left : (left p step : ℕ) → (ℕ → ℕ) → Outcome (ℕ → ℕ)
shift_left zero p step line = fault
shift_left (suc left) p step line =
    let rest = shift_left left (p + 1) step (update line (p - step) (line p)) in
    if ltb p step then fault else if line p == 0 then ok (update line (p - step) 0) else rest

unfoldable pub strshl : (p step : ℕ) → (ℕ → ℕ) → Outcome (ℕ → ℕ)
strshl p step line = if step == 0 then ok line else shift_left (line_size - p) p step line

-- `for (i = len; i >= step; --i) str[i] = str[i-step];` with `rounds` to go
unfoldable pub shift_right : (rounds i p step : ℕ) → (ℕ → ℕ) → (ℕ → ℕ)
shift_right zero i p step line = line
shift_right (suc n) i p step line =
    shift_right n (i - 1) p step (update line (p + i) (line (p + i - step)))

unfoldable pub strshr : (p step : ℕ) → (ℕ → ℕ) → Outcome (ℕ → ℕ)
strshr p step line = if step == 0 then ok line else do
  str ← string_from p line
  let len = length str
  line' ← put_byte (p + len + 1) 0 line
  ok (shift_right (len + 1 - step) len p step line')

-- a message, and the line with a byte less before the cursor, or a byte more
abbrev pub shorter : CString → (ℕ → ℕ) → Editor → Editor
shorter message line ed = record (say message ed) {
  line = line;
  pos = ed.pos - 1;
  length = ed.length - 1;
}

abbrev pub longer : CString → (ℕ → ℕ) → Editor → Editor
longer message line ed = record (say message ed) {
  line = line;
  pos = ed.pos + 1;
  length = ed.length + 1;
}

-- what the case 0x7f says within the line
abbrev pub redraw : Editor → CString
redraw ed =
    (0x08 ∷ slice (ed.length - ed.pos) ed.pos ed.line)
    ++ (bytes "  " ++ replicate (ed.length + 2 - ed.pos) 0x08)

-- the case 0x7f
unfoldable pub backspace : Editor → Outcome Editor
backspace ed =
    if ed.pos == 0
    then ok ed
    else if ed.pos == ed.length
    then (do line ← put_byte (ed.pos - 1) 0 ed.line; ok (shorter (0x08 ∷ b' ' ∷ 0x08 ∷ []) line ed))
    else (do line ← strshl ed.pos 1 ed.line; ok (shorter (redraw ed) line ed))

-- the cases 0x43 and 0x44 of an arrow key
unfoldable pub right : Editor → Editor
right ed =
    if ed.pos == ed.length
    then ed
    else record (say (0x1b ∷ 0x5b ∷ 0x33 ∷ 0x7e ∷ ed.line ed.pos ∷ []) ed) { pos = ed.pos + 1 }

unfoldable pub left : Editor → Editor
left ed = if ed.pos == 0 then ed else record (say (0x08 ∷ []) ed) { pos = ed.pos - 1 }

-- the default case
unfoldable pub insert : ℕ → Editor → Outcome Editor
insert c ed =
    if ed.pos == ed.length
    then (do line ← put_byte ed.pos c ed.line; ok (longer (if c == 0 then [] else c ∷ []) line ed))
    else (do
      shifted ← strshr ed.pos 1 ed.line
      line ← put_byte ed.pos c shifted
      tail ← string_from ed.pos line
      ok (longer (tail ++ replicate (ed.length - ed.pos) 0x08) line ed))

-- the loop that cleans the line
unfoldable pub clean : (rounds i : ℕ) → (ℕ → ℕ) → (ℕ → ℕ)
clean zero i line = line
clean (suc n) i line = clean n (i + 1) (
    if line i == 0x0a
    then update line i b' '
    else if line i == 0x0d
    then update line i b' '
    else line)

-- the case 0x0a: the string that is returned
unfoldable pub enter : Editor → Outcome CString
enter ed = do line ← put_byte ed.length 0 ed.line; string_from 0 (clean ed.length 0 line)
