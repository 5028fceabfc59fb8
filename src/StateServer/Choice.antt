-- ===== src/StateServer/Choice.antt =====
-- lab5/server.c and lab5/client.c: which of the three servers or clients `main` starts, by the name of
-- the program and by its arguments.
pub mod Named
mod Tests
use syssoft_labs.Prelude.{
  ℕ, ◌≡◌, ◌≢◌, ◌↔◌, ◌⊎◌, inl, inr, refl, sym, ap, subst, ◌∙◌, Bool, true, false, Bool-cases, List,
  [], ◌∷◌, ◌++◌, All, ◌==◌, ==_iff, arith, if◌then◌else◌,
}
use syssoft_labs.Prelude.CString.{CString, bytes, same, same_iff, same_refl}
use syssoft_labs.Prelude.BaseName.{base_name}
use syssoft_labs.StateServer.{Mode, shm, msg, mmap}

-- `main` starts a server or a client, shows its usage, or reads a string at NULL.
pub data Choice : Type 0 where
  chosen : Mode → Choice
  usage null_string : Choice

unfoldable pub choose_by_word : CString → Choice
choose_by_word word =
    if same word (bytes "msg")
    then chosen msg
    else if same word (bytes "mmap")
    then chosen mmap
    else if same word (bytes "shm")
    then chosen shm
    else usage

unfoldable pub choose_by_name : CString → Choice
choose_by_name bname =
    if same bname (bytes "shmserver")
    then chosen shm
    else if same bname (bytes "msgserver")
    then chosen msg
    else if same bname (bytes "mmapserver")
    then chosen mmap
    else if same bname (bytes "server")
    then null_string
    else usage

-- `args` are the arguments behind the name; without one, the first case goes on into the second.
unfoldable pub choose_server : CString → (args : List CString) → Choice
choose_server argv0 [] = choose_by_name (base_name argv0)
choose_server argv0 (word ∷ []) =
    if same (base_name argv0) (bytes "server") then choose_by_word word else usage
choose_server argv0 (word ∷ word' ∷ more) = usage

unfoldable pub choose_client : (args : List CString) → Choice
choose_client [] = chosen shm
choose_client (word ∷ []) = choose_by_word word
choose_client (word ∷ word' ∷ more) = usage
