-- ===== src/Kcsh/Editor/Complete.antt =====
-- lab4/io.c: the completion of a file name. `first` and `second` are what the two calls of `opendir`
-- answer, with the names that `readdir` then gives in turn; `none` is a directory that cannot be
-- opened. Strings behind `malloc` are values here: the sizes of their blocks are not modelled.
use syssoft_labs.Prelude.{
  ℕ, zero, suc, ◌+◌, ◌-◌, ◌%◌, ◌^◌, Bool, Option, none, some, List, [], ◌∷◌, ◌++◌, ◌||◌, length,
  take, drop, ltb, ◌==◌, if◌then◌else◌, replicate,
}
use syssoft_labs.Prelude.CString.{CString, bytes, same, byte_at, until_nul}
use syssoft_labs.Kcsh.Outcome.{Outcome, ok, fault, ◌>>=◌, ◌>>◌, try_alloc}
use syssoft_labs.Kcsh.Editor.{Editor, line_size, say, string_from, slice}

-- `for (i = 0; i < len; ++i) if (mark == str[i]) last = i;`
unfoldable pub last_index : (mark : ℕ) → CString → (i last : ℕ) → ℕ
last_index mark [] i last = last
last_index mark (c ∷ cs) i last = last_index mark cs (i + 1) (if c == mark then i else last)

unfoldable pub basedir : (granted : Bool) → CString → Outcome (Option CString)
basedir granted path =
    let last_slash = last_index b'/' path 0 (length path) in
    if last_slash == length path
    then ok none
    else (do try_alloc granted; ok (some (take (last_slash + 1) path)))

-- The loop over the second listing: the name at which it stops, with `left` names to pass over.
unfoldable pub choose : (left : ℕ) → List CString → Option CString
choose left [] = none
choose left (name ∷ names) =
    let rest = choose left names in
    if same name (bytes ".") || same name (bytes "..")
    then rest
    else elim left [ zero ↦ some name | suc n ↦ choose n names ]

-- `f_cnt -= 2` is computed on a `size_t`.
unfoldable pub entries : List CString → ℕ
entries names = (length names + 2 ^ 64 - 2) % 2 ^ 64

unfoldable pub skipped : (skip_count f_cnt : ℕ) → ℕ
skipped skip_count f_cnt = if ltb f_cnt skip_count then skip_count % f_cnt else skip_count

-- `complete` on the string `*pprefix`. Without a byte in it, `prefix + last_space + 1` is behind its
-- NUL and outside of its block.
unfoldable pub complete :
    (granted : Bool) (first second : CString → Option (List CString))
    → CString
    → (skip_count : ℕ) → Outcome CString
complete granted first second [] skip_count = fault
complete granted first second (c ∷ cs) skip_count =
    let prefix = c ∷ cs in
    let last_space = last_index b' ' prefix 0 0 in
    basedir granted (drop (last_space + 1) prefix) >>= λ dir. elim dir [
      | none ↦ ok prefix
      | some bdir ↦ elim (first bdir) [
        | none ↦ ok prefix
        | some names ↦ if entries names == 0 then ok prefix else elim (second bdir) [
          | none ↦ ok prefix
          | some names' ↦ elim (choose (skipped skip_count (entries names)) names') [
            | none ↦ ok prefix
            | some name ↦ do try_alloc granted; ok (take (last_space + 1) prefix ++ (bdir ++ name))
          ]
        ]
      ]
    ]

-- `strcpy(line + p, str)`
unfoldable pub copy_string : CString → ℕ → (ℕ → ℕ) → Outcome (ℕ → ℕ)
copy_string str p line =
    if ltb (p + length str) line_size
    then ok (λ i.
      if ltb i p
      then line i
      else if ltb i (p + length str + 1)
      then byte_at str (i - p)
      else line i)
    else fault

-- the case 0x09
unfoldable pub tab :
    (granted : Bool) (first second : CString → Option (List CString)) → Editor → Outcome Editor
tab granted first second ed = do
  try_alloc granted
  postfix ← string_from ed.pos ed.line
  prefix ← complete granted first second (until_nul (slice ed.pos 0 ed.line)) ed.comp_pos
  line ← copy_string (prefix ++ postfix) 0 ed.line
  let cleared =
      replicate ed.pos 0x08 ++ (replicate (ed.length + 1) b' ' ++ replicate (ed.length + 1) 0x08)
  let back = replicate (length postfix) 0x08
  let said = say (cleared ++ ((prefix ++ postfix) ++ back)) ed
  ok (record said {
    line = line;
    length = length (prefix ++ postfix);
    pos = length prefix;
    comp_pos = ed.comp_pos + 1;
  })
