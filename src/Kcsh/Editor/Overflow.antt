-- ===== src/Kcsh/Editor/Overflow.antt =====
-- lab4/io.c, `get_line`: nothing bounds the line.
use syssoft_labs.Prelude.{
  ℕ, ◌+◌, ◌≤◌, ◌≡◌, refl, Bool, true, false, Option, some, List, [], ◌∷◌, ◌++◌, length, map, All,
  arith, dec_lt,
}
use syssoft_labs.Prelude.CString.{CString}
use syssoft_labs.Prelude.Family.{update}
use syssoft_labs.Kcsh.Outcome.{fault}
use syssoft_labs.Kcsh.Editor.{Editor, say, insert, enter, longer}
use syssoft_labs.Kcsh.Editor.Loop.{key, edit, take_byte, press, get_line}
use syssoft_labs.Prelude.Io.{got}
use syssoft_labs.Kcsh.Editor.Session.{is_plain}

module _ (granted : ℕ → Bool) (first second : ℕ → CString → Option (List CString)) where
  edit-full :
      (cs : CString) (round c : ℕ) (ed : Editor)
      → All (λ b. is_plain b ≡ true) cs
      → ed.pos ≡ ed.length
      → ed.length ≤ 1024
      → 1024 ≤ ed.length + length cs
      → edit granted first second (map got cs ++ got 0x0a ∷ []) key round c ed ≡ fault
  unfolding edit take_byte press insert enter
  edit-full [] round c ed p e l u = ground (arith, l, u)
  edit-full (b ∷ cs) round c ed p e l u = elim (dec_lt ed.length 1024) [
    | yes room ↦
        let ed' = longer (b ∷ []) (update ed.line ed.pos b) (record ed { completion = false }) in
        ground (
          arith,
          p.0,
          e,
          room,
          edit-full cs (round + 1) b ed' p.1 (ground (arith, e)) (omega (arith, room))
              (omega (arith, u)),
        )
    | no full ↦ ground (arith, p.0, e, l, full)
  ]

  -- 1024 characters or more, typed one after the other and ended by Return, write outside of the
  -- line.
  pub get_line_overflow :
      (prompt cs : CString) (ed : Editor)
      → All (λ b. is_plain b ≡ true) cs
      → 1024 ≤ length cs
      → get_line granted first second true (some prompt) ed (map got cs ++ got 0x0a ∷ []) ≡ fault
  unfolding get_line
  get_line_overflow prompt cs ed p u =
      edit-full cs 0 0 (say prompt (record ed { line = λ _. 0; pos = 0; length = 0 })) p refl
        (omega arith) (omega (arith, u))
