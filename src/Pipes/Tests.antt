-- ===== src/Pipes/Tests.antt =====
-- Tests and examples of Pipes.
use syssoft_labs.Prelude.{◌≡◌, refl, true, none, [], ◌∷◌, ◌==◌, not}
use syssoft_labs.Prelude.CString.{bytes}
use syssoft_labs.Pipes.{PipeAnswers, copy_bytes, count_words, exits_alone, both_end}

abbrev all_succeed : PipeAnswers
all_succeed = record {
  opens = true;
  makes_pipe = true;
  forks = true;
  executes = true;
  reads = λ k. true;
  writes = λ k. true;
}

second_bytes :
    count_words all_succeed (bytes "text" ∷ []) (bytes "abcdefg") ≡ both_end none (bytes "bdf")
unfolding count_words copy_bytes
second_bytes = refl

-- A byte that the pipe does not take is lost.
loses_byte :
    count_words
      (record all_succeed { writes = λ k. not (k == 1) })
      (bytes "text" ∷ [])
      (bytes "abcdef")
    ≡ both_end none (bytes "bf")
unfolding count_words copy_bytes
loses_byte = refl

needs_name : count_words all_succeed [] [] ≡ exits_alone 1
unfolding count_words
needs_name = refl
