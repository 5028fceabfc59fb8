-- ===== src/StateServer/Socket.antt =====
-- lab5/unixserver.c and lab5/unixclient.c: a server that answers each client by its state, over a socket in the file system.
-- Signals come while the server waits in `accept`; what the handler prints is left out.
pub mod Increasing
pub mod Answered
use syssoft_labs.Prelude.{
  ℕ, ◌-◌, ◌<◌, ◌≤◌, ◌≡◌, ◌≢◌, refl, sym, ◌∙◌, subst, ◌⊎◌, inl, inr, Option-cases, Bool, true, false,
  Option, none, some, List, [], ◌∷◌, ◌++◌, All, All-append, All-map, ltb, ◌==◌, arith,
  if◌then◌else◌,
}
use syssoft_labs.StateServer.{State}
use syssoft_labs.StateServer.Clock.{
  Tick, Waited, updated, still, stopped, update_clock, wait_update, IsLater, WhenUpdated,
  wait_update-IsLater,
}

-- `bound` tells whether the file of the socket is there.
pub record SocketServer : Type 0 where
  pub state : State
  pub bound : Bool
  pub sent : List State

-- What happens at `accept`: a client comes, or a signal.
pub data Arrival : Type 0 where
  client_comes : (accepted : Bool) → List Tick → (writes : Bool) → Arrival
  signal_comes : ℕ → Arrival

-- The server goes on, waits in `while (!update())` when the answers are used up, or ends.
pub data Served : Type 0 where
  goes_on : SocketServer → Served
  waits : SocketServer → Served
  exits : ℕ → SocketServer → Served

-- the handler of the signals: SIGUSR1 prints the state
unfoldable pub socket_sighandler : ℕ → SocketServer → Served
socket_sighandler signo s = if signo == 10 then goes_on s else exits 0 (record s { bound = false })

-- The body of the loop of `main`.
unfoldable pub answer_client : Arrival → SocketServer → Served
answer_client (signal_comes signo) s = socket_sighandler signo s
answer_client (client_comes accepted ticks writes) s =
    if accepted
    then (elim (wait_update ticks s.state) [
      | updated st rest ↦
          if writes
          then goes_on (record s { state = st; sent = s.sent ++ st ∷ [] })
          else exits 4 (record s { state = st })
      | still ↦ waits s
      | stopped code ↦ exits code s
    ])
    else exits 3 s

unfoldable pub answer_clients : List Arrival → SocketServer → Served
answer_clients [] s = goes_on s
answer_clients (a ∷ rest) s = elim (answer_client a s) [
  | goes_on s' ↦ answer_clients rest s'
  | waits s' ↦ waits s'
  | exits code s' ↦ exits code s'
]

-- The calls in front of the loop: `socket`, `unlink` of an old file, `bind` and `listen`.
pub record SocketSetup : Type 0 where
  pub socket : Bool
  pub unlinks : Bool
  pub binds : Bool
  pub listens : Bool

unfoldable pub set_up_socket : SocketSetup → State → (bound : Bool) → Served
set_up_socket a st bound =
    let s : Bool → SocketServer = λ b. record { state = st; bound = b; sent = [] } in
    if a.socket
    then (if a.unlinks
        then (if a.binds
            then (if a.listens then goes_on (s true) else exits 2 (s true))
            else exits 2 (s false))
        else exits 2 (s bound))
    else exits 2 (s bound)

-- lab5/unixclient.c: a client shows the state that it reads, ends with a status or waits for it.
pub data Visit : Type 0 where
  shows_state : State → Visit
  quits : ℕ → Visit

abbrev pub newest : List State → Option State
newest [] = none
newest (st ∷ []) = some st
newest (st ∷ st' ∷ sts) = newest (st' ∷ sts)

-- What `read` gives: a state, where all of its bytes come.
unfoldable pub answer_of : Served → Option State
answer_of (goes_on s) = newest s.sent
answer_of (waits s) = none
answer_of (exits code s) = none

unfoldable pub socket_client : (makes connects : Bool) → (reads : Option State) → Visit
socket_client makes connects reads =
    if makes
    then (if connects then (elim reads [ none ↦ quits 2 | some st ↦ shows_state st ]) else quits 1)
    else quits 1
