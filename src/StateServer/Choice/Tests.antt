-- ===== src/StateServer/Choice/Tests.antt =====
-- Tests and examples of StateServer.Choice.
use syssoft_labs.Prelude.{◌≡◌, refl, List, [], ◌∷◌, ◌++◌, map, arith}
use syssoft_labs.Prelude.CString.{CString, bytes, same}
use syssoft_labs.StateServer.{mmap, shm}
use syssoft_labs.StateServer.Choice.{
  chosen, usage, null_string, choose_by_word, choose_by_name, choose_server, choose_client,
}
use syssoft_labs.Prelude.BaseName.{base_name, HasNoSlash, last_slash, skip_slash}
use syssoft_labs.StateServer.Choice.Named.{Chooses, choose_server_lem}

abbrev directory : CString
directory = bytes "/usr/bin"

abbrev by_name : CString
by_name = bytes "server"

abbrev asks_queue : List CString
asks_queue = bytes "msg" ∷ []

by_name-HasNoSlash : HasNoSlash by_name
by_name-HasNoSlash = (
  ground arith,
  (ground arith, (ground arith, (ground arith, (ground arith, (ground arith, tt))))),
)

choose_server_lem_example :
    Chooses by_name by_name asks_queue × Chooses (directory ++ b'/' ∷ by_name) by_name asks_queue
choose_server_lem_example = choose_server_lem directory by_name asks_queue by_name-HasNoSlash

named_server : choose_server (bytes "/usr/bin/mmapserver") [] ≡ chosen mmap
unfolding choose_server choose_by_name base_name skip_slash last_slash same
named_server = refl

unnamed_server : choose_server (bytes "./server") [] ≡ null_string
unfolding choose_server choose_by_name base_name skip_slash last_slash same
unnamed_server = refl

client_words :
    map choose_client ([] ∷ (bytes "mmap" ∷ []) ∷ (bytes "all" ∷ []) ∷ [])
    ≡ chosen shm ∷ chosen mmap ∷ usage ∷ []
unfolding choose_client choose_by_word same
client_words = refl
