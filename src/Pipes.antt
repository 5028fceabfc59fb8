-- ===== src/Pipes.antt =====
-- lab5/pipes.c: the second byte of every two of a file goes into a pipe, which `wc` reads. The standard
-- streams of the child are left out, and that SIGPIPE ends the parent when the child has ended.
mod Tests
use syssoft_labs.Prelude.{
  ℕ, zero, suc, ◌+◌, ◌*◌, ◌≡◌, refl, Bool, true, false, Option, none, some, List, [], ◌∷◌, ◌==◌,
  if◌then◌else◌, get_elem?, arith,
}
use syssoft_labs.Prelude.CString.{CString}

-- What the system answers; `reads` and `writes` by the round of the loop.
pub record PipeAnswers : Type 0 where
  pub opens : Bool
  pub makes_pipe : Bool
  pub forks : Bool
  pub executes : Bool
  pub reads : ℕ → Bool
  pub writes : ℕ → Bool

-- The loop `while (2 == read(fd, buf, 2))` from a round on, over what is left of a regular file: what
-- the pipe takes.
unfoldable pub copy_bytes : PipeAnswers → (round : ℕ) → (file : CString) → CString
copy_bytes a round [] = []
copy_bytes a round (c ∷ []) = []
copy_bytes a round (c ∷ d ∷ file) =
    let later = copy_bytes a (round + 1) file in
    if a.reads round then (if a.writes round then d ∷ later else later) else []

-- The parent ends with a status; the child runs `wc` over the pipe, or ends with a status.
pub data Ending : Type 0 where
  exits_alone : ℕ → Ending
  both_end : (child : Option ℕ) → (piped : CString) → Ending

-- `args` are the arguments behind the name.
unfoldable pub count_words : PipeAnswers → (args : List CString) → (file : CString) → Ending
count_words a [] file = exits_alone 1
count_words a (name ∷ []) file =
    if a.opens
    then (if a.makes_pipe
        then (if a.forks
            then both_end (if a.executes then none else some 5) (copy_bytes a 0 file)
            else exits_alone 4)
        else exits_alone 3)
    else exits_alone 2
count_words a (name ∷ name' ∷ more) file = exits_alone 1

-- Where every read and write succeeds, the byte `i` of the pipe is the byte `2 * i + 1` of the file.
copy_bytes_lem :
    (a : PipeAnswers) (round : ℕ) (file : CString) (i : ℕ)
    → ((k : ℕ) → a.reads k ≡ true)
    → ((k : ℕ) → a.writes k ≡ true)
    → get_elem? (copy_bytes a round file) i ≡ get_elem? file (2 * i + 1)
unfolding copy_bytes
copy_bytes_lem a round [] i r w = refl
copy_bytes_lem a round (c ∷ []) i r w = ground arith
copy_bytes_lem a round (c ∷ d ∷ file) zero r w = ground (arith, r round, w round)
copy_bytes_lem a round (c ∷ d ∷ file) (suc i) r w =
    ground (arith, r round, w round, copy_bytes_lem a (round + 1) file i r w)
