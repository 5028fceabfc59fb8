-- ===== src/Kcsh/Functions/Laws.antt =====
-- lab4/builtins_impl.c: what `set` does to the variables.
use syssoft_labs.Prelude.CString.{CString}
use syssoft_labs.Kcsh.Variable.{Variable}
