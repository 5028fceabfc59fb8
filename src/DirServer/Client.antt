-- ===== src/DirServer/Client.antt =====
-- lab6/client.c: what `main` sends over its connection, and what it shows of what comes back. A
-- write is taken to succeed.
use syssoft_labs.Prelude.{List, [], ◌∷◌, ◌++◌, ◌==◌, if◌then◌else◌}
use syssoft_labs.Prelude.CString.{CString, bytes}

-- `write(fd, "//close\n", sizeof("//close\n"))`: the NUL is counted in.
abbrev pub close_message : CString
close_message = bytes "//close" ++ 0x0a ∷ 0x00 ∷ []

-- the writes to `fd`, for the directories of the command line
unfoldable pub sent : List CString → CString
sent [] = close_message
sent (dir ∷ dirs) = dir ++ (0x0a ∷ sent dirs)

-- `while (0 < (read_len = read(fd, answer, 1)))`: the bytes shown, and those that are not read
unfoldable pub read_answer : CString → CString × CString
read_answer [] = ([], [])
read_answer (c ∷ stream) =
    let rest = read_answer stream in if c == 0x00 then (c ∷ [], stream) else (c ∷ rest.0, rest.1)

-- What is shown for each of the directories, in their order.
unfoldable pub shown : List CString → CString → List CString
shown [] stream = []
shown (dir ∷ dirs) stream = (read_answer stream).0 ∷ shown dirs (read_answer stream).1
