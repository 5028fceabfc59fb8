-- ===== src/StateServer/Tests.antt =====
-- Tests and examples of StateServer.
use syssoft_labs.Prelude.{
  ℕ, ◌≡◌, ◌≢◌, ◌++◌, refl, true, false, none, some, List, [], ◌∷◌, All, inl, inr, arith,
}
use syssoft_labs.StateServer.{
  ◌>>=◌, State, Objects, blank, Server, shm, msg, mmap, going, ended, slept, signalled, Event,
  update_state, asleep, publish, server_round, serve_events, Setup, set_up,
}
use syssoft_labs.StateServer.Client.{client}
use syssoft_labs.StateServer.Clock.{Tick, update_clock, wait_update, IsLater}
use syssoft_labs.StateServer.Socket.{
  SocketServer, Arrival, client_comes, signal_comes, goes_on, exits, socket_sighandler,
  answer_client, answer_clients, answer_of, socket_client, shows_state, quits, set_up_socket,
}
use syssoft_labs.StateServer.Socket.Increasing.{
  IsIncreasing, IsOf, InAll, answer_clients-IsIncreasing,
}
use syssoft_labs.StateServer.Socket.Answered.{MovesOn, answer_client-MovesOn}
use syssoft_labs.StateServer.Signal.{shows_uid, returned, handle_signal, interrupted, signal_round}
use syssoft_labs.StateServer.Shown.{IsSame, longest, serve_events-IsSeen}

abbrev no_objects : Objects
no_objects = record { segment = none; queue = none; shared = none }

abbrev granted : Setup
granted = record { opens = true; truncates = true; maps = true }

abbrev first : State
first = record {
  start_time = 100;
  working_time = 0;
  pid = 7;
  uid = 8;
  gid = 9;
  loadavg = (0, 0, 0);
}

abbrev at_time : ℕ → Event
at_time t = record { sleep = slept; time = some t; load = some (1, 2, t); sends = true }

abbrev killed : Event
killed = record { sleep = signalled 15; time = none; load = none; sends = false }

abbrev second : State
second = record first { working_time = 3; loadavg = (1, 2, 103) }

-- The clock is set back in the second round.
abbrev rounds : List Event
rounds = at_time 103 ∷ at_time 90 ∷ at_time 102 ∷ []

abbrev working : Server
working = record {
  state = second;
  has_segment = true;
  has_queue = false;
  objects = record no_objects { segment = some second };
}

serves : (set_up shm granted first no_objects >>= serve_events shm rounds) ≡ going working
unfolding set_up serve_events server_round asleep update_state publish
serves = refl

serve_events-IsSeen_example :
    (second.working_time ≡ longest 100 rounds)
    × IsSame first second
    × (second.working_time ≢ 0
        → client true shm (record no_objects { segment = some second })
          ≡ going (second, record no_objects { segment = some second }))
serve_events-IsSeen_example =
    serve_events-IsSeen shm granted first rounds no_objects working refl serves

-- The cases in which an object is left.
leaves_shared :
    (set_up mmap granted first no_objects
      >>= serve_events mmap (record (at_time 103) { time = none } ∷ []))
    ≡ ended 1 (record no_objects { shared = some blank })
unfolding set_up serve_events server_round asleep update_state
leaves_shared = refl

leaves_segment :
    (set_up shm (record granted { maps = false }) first no_objects >>= serve_events shm [])
    ≡ ended 4 (record no_objects { segment = some blank })
unfolding set_up serve_events
leaves_segment = refl

-- A client of the queue is given the oldest message.
shows_oldest :
    (set_up msg granted first no_objects
      >>= serve_events msg (at_time 103 ∷ at_time 105 ∷ [])
      >>= λ s. client true msg s.objects >>= λ r. going r.0.working_time)
    ≡ going 3
unfolding set_up serve_events server_round asleep update_state publish client
shows_oldest = refl

-- The server of the socket.
abbrev ticked : ℕ → Tick
ticked t = record { time = some t; load = some (1, 2, t) }

abbrev listening : SocketServer
listening = record { state = first; bound = true; sent = [] }

-- Two clients, a signal between them that prints, and one that ends the server.
abbrev arrivals : List Arrival
arrivals =
    client_comes true (ticked 100 ∷ ticked 103 ∷ []) true
    ∷ signal_comes 10
    ∷ client_comes true (ticked 103 ∷ ticked 104 ∷ []) true
    ∷ signal_comes 2
    ∷ []

abbrev third : State
third = record first { working_time = 4; loadavg = (1, 2, 104) }

serves_clients :
    answer_clients arrivals listening
    ≡ exits 0 (record { state = third; bound = false; sent = second ∷ third ∷ [] })
unfolding answer_clients answer_client socket_sighandler wait_update update_clock
serves_clients = refl

answer_clients-IsIncreasing_example :
    InAll (λ s. IsIncreasing s.sent × All (IsOf first) s.sent) (answer_clients arrivals listening)
answer_clients-IsIncreasing_example = answer_clients-IsIncreasing first true arrivals

moves_on : MovesOn first (ticked 100 ∷ ticked 103 ∷ [])
moves_on = (100, refl, inr (omega arith, (103, refl, inl (omega arith, λ e. ground (arith, e)))))

answer_client-MovesOn_example :
    (now : State) × (answer_client (client_comes true (ticked 100 ∷ ticked 103 ∷ []) true) listening
      ≡ goes_on (record listening { state = now; sent = [] ++ now ∷ [] }))
    × IsLater first now
    × (socket_client true true (
          answer_of
            (answer_client (client_comes true (ticked 100 ∷ ticked 103 ∷ []) true) listening))
        ≡ shows_state now)
answer_client-MovesOn_example =
    answer_client-MovesOn (ticked 100 ∷ ticked 103 ∷ []) listening moves_on

-- Where `accept` or `listen` fails, the file of the socket is left.
leaves_socket : answer_clients (client_comes false [] true ∷ []) listening ≡ exits 3 listening
unfolding answer_clients answer_client
leaves_socket = refl

leaves_file :
    set_up_socket
      (record { socket = true; unlinks = true; binds = true; listens = false })
      first
      false
    ≡ exits 2 listening
unfolding set_up_socket
leaves_file = refl

-- A client of a server that has ended.
shows_nothing :
    socket_client true true
      (answer_of (answer_client (client_comes true (ticked 103 ∷ []) false) listening))
    ≡ quits 2
unfolding socket_client answer_of answer_client wait_update update_clock
shows_nothing = refl

-- The server of signals.
shows_user :
    signal_round
      (interrupted 2 (ticked 100 ∷ ticked 103 ∷ []))
      (ticked 104)
      (record { state = first; printed = [] })
    ≡ returned (record { state = third; printed = shows_uid 8 ∷ [] })
unfolding signal_round handle_signal wait_update update_clock
shows_user = refl

-- SIGKILL leaves the segment.
leaves_killed :
    serve_events shm (record killed { sleep = signalled 9 } ∷ []) working
    ≡ ended 137 working.objects
unfolding serve_events server_round asleep
leaves_killed = refl
