-- ===== src/StateServer/Client.antt =====
-- lab5/client.c: what a client shows of the state of the server.
use syssoft_labs.Prelude.{Bool, none, some, [], ◌∷◌, if◌then◌else◌}
use syssoft_labs.StateServer.{State, Objects, Mode, shm, msg, mmap, Step, going, ended}

-- The state that is printed, or the status of `_exit`; a message is taken out of the queue. `maps` is
-- what `shmat` or `mmap` answers.
abbrev pub client_shm : (maps : Bool) → Objects → Step (State × Objects)
client_shm maps o = elim o.segment [
  | none ↦ ended 3 o
  | some st ↦ if maps then going (st, o) else ended 4 o
]

abbrev pub client_mmap : (maps : Bool) → Objects → Step (State × Objects)
client_mmap maps o = elim o.shared [
  | none ↦ ended 3 o
  | some st ↦ if maps then going (st, o) else ended 4 o
]

abbrev pub client_msg : Objects → Step (State × Objects)
client_msg o = elim o.queue [
  | none ↦ ended 3 o
  | some ms ↦ elim ms [ [] ↦ ended 4 o | st ∷ rest ↦ going (st, record o { queue = some rest }) ]
]

unfoldable pub client : (maps : Bool) → Mode → Objects → Step (State × Objects)
client maps shm o = client_shm maps o
client maps msg o = client_msg o
client maps mmap o = client_mmap maps o
