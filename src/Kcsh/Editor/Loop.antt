-- ===== src/Kcsh/Editor/Loop.antt =====
-- lab4/io.c: `get_line`. What `read` gives is a list; a line that is not finished when the list ends
-- waits for more. In lab4/kcsh.c `signal_handler` says "^C", and `goodnight` ends the process.
use syssoft_labs.Prelude.{
  ℕ, ◌+◌, ◌-◌, Bool, false, Option, none, some, List, [], ◌∷◌, ltb, ◌==◌, if◌then◌else◌, replicate,
}
use syssoft_labs.Prelude.CString.{CString, bytes}
use syssoft_labs.Prelude.Io.{Read, got, end_of_file, failed}
use syssoft_labs.Kcsh.Outcome.{
  Outcome, ok, fault, exited, out_of_fuel, ◌>>=◌, ◌>>◌, die, read_failed, try_alloc,
}
use syssoft_labs.Kcsh.Editor.{Editor, say, backspace, left, right, insert, enter}
use syssoft_labs.Kcsh.Editor.Complete.{tab}

-- The three places that call `read`: for a key, behind 0x1b, and behind 0x5b.
pub data Place : Type 0 where
  key escape bracket : Place

-- How one byte leaves `get_line`: at another `read`, or with the line.
pub data Next : Type 0 where
  next : Place → Editor → Next
  line_is : CString → Editor → Next

-- `c[0]` behind a call of `read`: a call that stores nothing leaves it as it was.
abbrev pub fetch : Place → Read → (c : ℕ) → Outcome ℕ
fetch place (got b) c = ok b
fetch place end_of_file c = ok c
fetch key failed c = die read_failed
fetch escape failed c = ok c
fetch bracket failed c = ok c

-- `if (completion)` in the case 0x1b
abbrev pub end_completion : Editor → Editor
end_completion ed =
    if ed.completion
    then (record (say (replicate (ed.comp_pos - ed.pos) 0x08) ed) {
      completion = false;
      comp_pos = if ltb ed.pos ed.comp_pos then ed.pos else ed.comp_pos;
    })
    else ed

module _ (granted : ℕ → Bool) (first second : ℕ → CString → Option (List CString)) where
  -- the `switch` on a key; `granted`, `first` and `second` are what the system answers in its round
  unfoldable pub press : (round c : ℕ) → Editor → Outcome Next
  press round c ed₀ =
      let ed = if c == 0x09 then ed₀ else record ed₀ { completion = false } in
      if c == 0x7f
      then (backspace ed >>= λ e. ok (next key e))
      else if c == 0x1b
      then ok (next escape (end_completion ed))
      else if c == 0x03
      then ok (next key (say (bytes "^C") ed))
      else if c == 0x04
      then exited 0
      else if c == 0x09
      then (tab (granted round) (first round) (second round) ed >>= λ e. ok (next key e))
      else if c == 0x0a
      then (enter ed >>= λ line. ok (line_is line (say (0x0a ∷ []) ed)))
      else (insert c ed >>= λ e. ok (next key e))

  unfoldable pub arrow : (c : ℕ) → Editor → Editor
  arrow c ed = if c == 0x43 then right ed else if c == 0x44 then left ed else ed

  -- what is done with `c[0]` behind a `read`
  unfoldable pub take_byte : Place → (round c : ℕ) → Editor → Outcome Next
  take_byte key round c ed = press round c ed
  take_byte escape round c ed = ok (next (if c == 0x5b then bracket else key) ed)
  take_byte bracket round c ed = ok (next key (arrow c ed))

  unfoldable pub edit : List Read → Place → (round c : ℕ) → Editor → Outcome (CString × Editor)
  edit [] place round c ed = out_of_fuel
  edit (r ∷ reads) place round c ed = do
    b ← fetch place r c
    n ← take_byte place round b ed
    elim n [
      | next place' ed' ↦ edit reads place' (round + 1) b ed'
      | line_is line ed' ↦ ok (line, ed')
    ]

  -- `prompt` is what `getenv` answers; without it an assertion of `say` fails. The statics
  -- `completion` and `comp_pos` are those of the last line.
  unfoldable pub get_line :
      (line_granted : Bool) (prompt : Option CString)
      → Editor
      → List Read
      → Outcome (CString × Editor)
  get_line line_granted prompt ed reads = do
    try_alloc line_granted
    elim prompt [
      | none ↦ fault
      | some p ↦ edit reads key 0 0 (say p (record ed { line = λ _. 0; pos = 0; length = 0 }))
    ]
