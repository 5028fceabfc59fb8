-- ===== src/Multithread/Sync.antt =====
-- lab5/multithread.c: the choice of a synchronization and its operations. A semaphore, POSIX or
-- System V, is its counter; a call that blocks gives `none`.
use syssoft_labs.Prelude.BaseName.{base_name}
use syssoft_labs.Prelude.{ℕ, zero, suc, ◌+◌, Option, none, some, List, [], ◌∷◌, if◌then◌else◌}
use syssoft_labs.Prelude.CString.{CString, bytes, same}

pub data SyncType : Type 0 where
  sem ipc_sem unsynchronized : SyncType

-- `sem_init(&snc.sem, 0, 1)` and `SETVAL` with 1; without synchronization no counter is used.
unfoldable pub init_sync : SyncType → ℕ
init_sync sem = 1
init_sync ipc_sem = 1
init_sync unsynchronized = 0

-- `sem_wait`, and `semop` with -1: they block while the counter is 0.
unfoldable pub lock : SyncType → ℕ → Option ℕ
lock sem zero = none
lock sem (suc v) = some v
lock ipc_sem zero = none
lock ipc_sem (suc v) = some v
lock unsynchronized v = some v

-- `sem_post`, and `semop` with 1.
unfoldable pub unlock : SyncType → ℕ → ℕ
unlock sem v = v + 1
unlock ipc_sem v = v + 1
unlock unsynchronized v = v

-- The name of the program without the folders: `for (bname = v[0], i = 0; v[0][i]; ++i)`, and then
-- `sync_type` as `main` sets it from `argv`; `none` is the usage message and exit status -1.
pub sync_from_name : CString → Option SyncType
sync_from_name bname =
    if same bname (bytes "multithread4")
    then some sem
    else if same bname (bytes "multithread5")
    then some ipc_sem
    else none

pub sync_from_argument : CString → Option SyncType
sync_from_argument arg =
    if same arg (bytes "sem")
    then some sem
    else if same arg (bytes "ipc")
    then some ipc_sem
    else if same arg (bytes "none")
    then some unsynchronized
    else none

unfoldable pub choose_sync : (argv0 : CString) → (arguments : List CString) → Option SyncType
unfolding base_name sync_from_name sync_from_argument
choose_sync argv0 [] = sync_from_name (base_name argv0)
choose_sync argv0 (arg ∷ []) =
    if same (base_name argv0) (bytes "multithread")
    then sync_from_argument arg
    else sync_from_name (base_name argv0)
choose_sync argv0 (arg ∷ arg' ∷ args) = none
