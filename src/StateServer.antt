-- ===== src/StateServer.antt =====
-- lab5/server.c: a server that publishes its state once a second, as a segment of shared memory, as
-- messages or as a shared memory object. What the system answers is an argument; printing is left out.
pub mod Client
pub mod Clean
pub mod Shown
pub mod Clock
pub mod Socket
pub mod Signal
pub mod Choice
mod Tests
use syssoft_labs.Prelude.{
  ℕ, ◌-◌, Bool, true, false, Option, none, some, List, [], ◌∷◌, ◌++◌, ltb, leb, not, ◌+◌, ◌&&◌,
  ◌||◌, ◌==◌, if◌then◌else◌,
}

-- three numbers of type `double`, as their bits
abbrev pub Loads : Type 0
Loads = ℕ × ℕ × ℕ

-- `struct state`
pub record State : Type 0 where
  pub start_time : ℕ
  pub working_time : ℕ
  pub pid : ℕ
  pub uid : ℕ
  pub gid : ℕ
  pub loadavg : Loads

-- What stands at the key 2987 and at the name `S_FNAME`: a segment and a shared object hold one state,
-- and a queue the messages that were not received.
pub record Objects : Type 0 where
  pub segment : Option State
  pub queue : Option (List State)
  pub shared : Option State

-- new memory of the system
abbrev pub blank : State
blank = record { start_time = 0; working_time = 0; pid = 0; uid = 0; gid = 0; loadavg = (0, 0, 0) }

-- The static variables: whether `shmid`, `msgid` and `mapaddr` are set, beside `state`; and the objects.
pub record Server : Type 0 where
  pub state : State
  pub has_segment : Bool
  pub has_queue : Bool
  pub objects : Objects

pub data Mode : Type 0 where
  shm msg mmap : Mode

-- A step goes on with a value or ends by `_exit`.
pub data Step {ℓ} (A : Type ℓ) : Type ℓ where
  going : A → Step A
  ended : ℕ → Objects → Step A

infixl 5 ◌>>=◌
abbrev pub ◌>>=◌ {ℓ κ} : {A : Type ℓ} {B : Type κ} → Step A → (A → Step B) → Step B
going a >>= f = f a
ended code o >>= f = ended code o

-- `shmctl`, `msgctl` and `shm_unlink`
abbrev pub remove_segment : Server → Server
remove_segment s =
    if s.has_segment then record s { objects = record s.objects { segment = none } } else s

abbrev pub remove_queue : Server → Server
remove_queue s = if s.has_queue then record s { objects = record s.objects { queue = none } } else s

abbrev pub remove_shared : Server → Server
remove_shared s = record s { objects = record s.objects { shared = none } }

abbrev pub stop : {A : Type 0} → ℕ → Server → Step A
stop code s = ended code s.objects

-- How `usleep` ends, and what `time`, `getloadavg` and `msgsnd` answer in a round.
pub data Sleep : Type 0 where
  slept failed : Sleep
  signalled : ℕ → Sleep

pub record Event : Type 0 where
  pub sleep : Sleep
  pub time : Option ℕ
  pub load : Option Loads
  pub sends : Bool

-- `working_time` is not negative, so a clock that was set back is not after it.
pub update_state : Event → Server → Step (Bool × Server)
update_state e s = elim e.time [
  | none ↦ stop 1 (remove_queue (remove_segment s))
  | some now ↦
      if ltb s.state.working_time (now - s.state.start_time)
      then (elim e.load [
        | none ↦ stop 2 (remove_shared (remove_queue (remove_segment s)))
        | some l ↦ going (
          true,
          record s {
            state = record s.state { working_time = now - s.state.start_time; loadavg = l };
          },
        )
      ])
      else going (false, s)
]

-- SIGUSR1 prints the state, in the two others by way of `shm_sighandler`.
abbrev pub shm_sighandler : (signo : ℕ) → Server → Step Server
shm_sighandler signo s = if signo == 10 then going s else stop 0 (remove_segment s)

abbrev pub msg_sighandler : (signo : ℕ) → Server → Step Server
msg_sighandler signo s = if signo == 10 then going s else stop 0 (remove_queue s)

abbrev pub mmap_sighandler : (signo : ℕ) → Server → Step Server
mmap_sighandler signo s = if signo == 10 then going s else stop 0 (remove_shared s)

pub sighandler : Mode → (signo : ℕ) → Server → Step Server
sighandler shm signo s = shm_sighandler signo s
sighandler msg signo s = msg_sighandler signo s
sighandler mmap signo s = mmap_sighandler signo s

-- `_exit(5)`: `usleep` has failed.
pub no_sleep : Mode → Server → Server
no_sleep shm s = remove_segment s
no_sleep msg s = remove_queue s
no_sleep mmap s = remove_shared s

-- What a round does when the state has changed.
abbrev pub publish_shm : Server → Step Server
publish_shm s = going (record s { objects = record s.objects { segment = some s.state } })

abbrev pub publish_mmap : Server → Step Server
publish_mmap s = going (record s { objects = record s.objects { shared = some s.state } })

abbrev pub publish_msg : Event → Server → Step Server
publish_msg e s =
    if e.sends
    then going (record s {
      objects = record s.objects {
        queue = elim s.objects.queue [ none ↦ none | some ms ↦ some (ms ++ s.state ∷ []) ];
      };
    })
    else stop 6 (remove_queue s)

pub publish : Mode → Event → Server → Step Server
publish shm e s = publish_shm s
publish msg e s = publish_msg e s
publish mmap e s = publish_mmap s

-- The signals whose handler `for (i = 1; i < 30; signal(i++, ...))` sets: SIGKILL and SIGSTOP cannot
-- be caught.
abbrev pub is_caught : (signo : ℕ) → Bool
is_caught signo = leb 1 signo && ltb signo 30 && not (signo == 9) && not (signo == 19)

-- A signal without a handler: SIGSTOP stops the process for a while, 0 is none, and the others end it
-- where it stands, with the status that a shell shows.
abbrev pub uncaught : (signo : ℕ) → Server → Step Server
uncaught signo s = if signo == 0 || signo == 19 then going s else stop (128 + signo) s

-- The beginning of a round: `usleep`, and the signal that ended it.
pub asleep : Mode → Sleep → Server → Step Server
asleep mode slept s = going s
asleep mode failed s = stop 5 (no_sleep mode s)
asleep mode (signalled signo) s =
    if is_caught signo then sighandler mode signo s else uncaught signo s

abbrev pub publish_changes : Mode → Event → Bool × Server → Step Server
publish_changes mode e (changed, s) = if changed then publish mode e s else going s

-- The body of the loop.
pub server_round : Mode → Event → Server → Step Server
server_round mode e s = asleep mode e.sleep s >>= update_state e >>= publish_changes mode e

-- The loop, as long as there are events.
pub serve_events : Mode → List Event → Server → Step Server
serve_events mode [] s = going s
serve_events mode (e ∷ es) s = server_round mode e s >>= serve_events mode es

-- What the calls before the loop answer: the one that makes or opens the object, `ftruncate`, and the
-- one that maps it.
pub record Setup : Type 0 where
  pub opens : Bool
  pub truncates : Bool
  pub maps : Bool

-- `shmget`, `msgget` and `shm_open` keep what is there.
abbrev pub or_new : {A : Type 0} → A → Option A → Option A
or_new new none = some new
or_new new (some old) = some old

abbrev pub set_up_shm : Setup → State → Objects → Step Server
set_up_shm a st o =
    if a.opens
    then (let o' = record o { segment = or_new blank o.segment } in
        if a.maps
        then going (record { state = st; has_segment = true; has_queue = false; objects = o' })
        else ended 4 o')
    else ended 3 o

abbrev pub set_up_msg : Setup → State → Objects → Step Server
set_up_msg a st o =
    if a.opens
    then (going (record {
      state = st;
      has_segment = false;
      has_queue = true;
      objects = record o { queue = or_new [] o.queue };
    }))
    else ended 3 o

abbrev pub set_up_mmap : Setup → State → Objects → Step Server
set_up_mmap a st o =
    if a.opens
    then (let s : Server = record {
      state = st;
      has_segment = false;
      has_queue = false;
      objects = record o { shared = or_new blank o.shared };
    } in
        if a.truncates
        then (if a.maps then going s else stop 4 (remove_shared s))
        else stop 7 (remove_shared s))
    else ended 3 o

pub set_up : Mode → Setup → State → Objects → Step Server
set_up shm a st o = set_up_shm a st o
set_up msg a st o = set_up_msg a st o
set_up mmap a st o = set_up_mmap a st o
