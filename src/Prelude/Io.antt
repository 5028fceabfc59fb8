-- ===== src/Prelude/Io.antt =====
-- What one call of `read` for one byte gives: the byte, 0 at the end of the input, or -1.
use Prim.Native.Nat.{ℕ}

pub data Read : Type 0 where
  got : ℕ → Read
  end_of_file failed : Read
