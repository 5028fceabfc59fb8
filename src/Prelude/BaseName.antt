-- ===== src/Prelude/BaseName.antt =====
-- The name of a program behind the last slash, as `main` of lab5/multithread.c and lab5/server.c finds it.
use mathlib.Core.Path.{◌≡◌, refl, ap, ◌∙◌}
use mathlib.Core.Logic.{◌≢◌}
use mathlib.Core.List.{[], ◌∷◌, ◌++◌}
use native.Mathlib.Omega.{arith}
use syssoft_labs.Prelude.Tests.{◌==◌, if◌then◌else◌}
use syssoft_labs.Prelude.Lists.{All}
use syssoft_labs.Prelude.CString.{CString}

-- `if (*bname == '/') bname++`. `bname` is the string from the last slash on.
unfoldable pub last_slash : CString → CString → CString
last_slash bname [] = bname
last_slash bname (c ∷ cs) = last_slash (if c == b'/' then c ∷ cs else bname) cs

unfoldable pub skip_slash : CString → CString
skip_slash [] = []
skip_slash (c ∷ cs) = if c == b'/' then cs else c ∷ cs

unfoldable pub base_name : CString → CString
unfolding last_slash skip_slash
base_name path = skip_slash (last_slash path path)

abbrev pub HasNoSlash : CString → Type 0
HasNoSlash = All (λ c. c ≢ b'/')

last_slash-HasNoSlash : (name bname : CString) → HasNoSlash name → last_slash bname name ≡ bname
unfolding last_slash
last_slash-HasNoSlash [] bname h = refl
last_slash-HasNoSlash (c ∷ cs) bname (n, h) = ground (arith, n, last_slash-HasNoSlash cs bname h)

last_slash-append :
    (dir name bname : CString)
    → HasNoSlash name
    → last_slash bname (dir ++ b'/' ∷ name) ≡ b'/' ∷ name
unfolding last_slash
last_slash-append [] name bname h = last_slash-HasNoSlash name (b'/' ∷ name) h
last_slash-append (c ∷ dir) name bname h =
    last_slash-append dir name (if c == b'/' then c ∷ dir ++ b'/' ∷ name else bname) h

pub base_name-append :
    (dir name : CString) → HasNoSlash name → base_name (dir ++ b'/' ∷ name) ≡ name
unfolding base_name skip_slash
base_name-append dir name h = ap skip_slash (last_slash-append dir name (dir ++ b'/' ∷ name) h)

pub base_name-HasNoSlash : (name : CString) → HasNoSlash name → base_name name ≡ name
unfolding base_name skip_slash last_slash
base_name-HasNoSlash [] h = refl
base_name-HasNoSlash (c ∷ cs) (n, h) =
    ap skip_slash (last_slash-HasNoSlash (c ∷ cs) (c ∷ cs) (n, h)) ∙ ground (arith, n)
