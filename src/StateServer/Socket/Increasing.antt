-- ===== src/StateServer/Socket/Increasing.antt =====
-- The states that the server of lab5/unixserver.c sends.
use syssoft_labs.Prelude.{
  ◌<◌, ◌≤◌, ◌≡◌, refl, ◌∙◌, Bool, true, false, List, [], ◌∷◌, ◌++◌, All, All-append, All-map, ◌==◌,
  arith, if◌then◌else◌,
}
use syssoft_labs.StateServer.{State}
use syssoft_labs.StateServer.Clock.{
  Waited, updated, still, stopped, wait_update, IsLater, WhenUpdated, wait_update-IsLater,
}
use syssoft_labs.StateServer.Socket.{
  SocketServer, Arrival, client_comes, signal_comes, Served, goes_on, waits, exits,
  socket_sighandler, answer_client, answer_clients,
}

-- Each state is later than those before it.
abbrev pub IsIncreasing : List State → Type 0
IsIncreasing [] = Unit
IsIncreasing (st ∷ sts) = All (λ st'. st.working_time < st'.working_time) sts × IsIncreasing sts

IsIncreasing-append :
    (sts : List State) (st : State)
    → IsIncreasing sts
    → All (λ st'. st'.working_time < st.working_time) sts
    → IsIncreasing (sts ++ st ∷ [])
IsIncreasing-append [] st h l = (tt, tt)
IsIncreasing-append (x ∷ sts) st h l = (
  All-append (λ st'. x.working_time < st'.working_time) sts (st ∷ []) h.0 (l.0, tt),
  IsIncreasing-append sts st h.1 l.1,
)

-- What holds of a server that began with the state `st`.
abbrev pub IsOf : State → State → Type 0
IsOf st st' =
    (st'.start_time ≡ st.start_time) × (st'.pid ≡ st.pid) × (st'.uid ≡ st.uid) × (st'.gid ≡ st.gid)

abbrev IsSound : State → SocketServer → Type 0
IsSound st s =
    IsOf st s.state
    × IsIncreasing s.sent
    × All (λ st'. st'.working_time ≤ s.state.working_time) s.sent
    × All (IsOf st) s.sent

abbrev pub InAll : (SocketServer → Type 0) → Served → Type 0
InAll P (goes_on s) = P s
InAll P (waits s) = P s
InAll P (exits code s) = P s

later-sent :
    (st now : State) (s : SocketServer) (b : Bool)
    → IsSound st s
    → IsLater s.state now
    → IsSound st (record s { state = now; sent = s.sent ++ now ∷ [] })
later-sent st now s b (o, i, l, same) (w, e1, e2, e3, e4) =
    let mine : IsOf st now = (e1 ∙ o.0, e2 ∙ o.1, e3 ∙ o.2, e4 ∙ o.3) in
    (
      mine,
      IsIncreasing-append s.sent now i (
          All-map (λ st'. st'.working_time ≤ s.state.working_time)
            (λ st'. st'.working_time < now.working_time) s.sent (λ x h. omega (arith, h, w)) l),
      All-append (λ st'. st'.working_time ≤ now.working_time) s.sent (now ∷ [])
          (All-map (λ st'. st'.working_time ≤ s.state.working_time)
            (λ st'. st'.working_time ≤ now.working_time) s.sent (λ x h. omega (arith, h, w)) l)
          (omega arith, tt),
      All-append (IsOf st) s.sent (now ∷ []) same (mine, tt),
    )

later-state :
    (st now : State) (s : SocketServer)
    → IsSound st s
    → IsLater s.state now
    → IsSound st (record s { state = now })
later-state st now s (o, i, l, same) (w, e1, e2, e3, e4) = (
  (e1 ∙ o.0, e2 ∙ o.1, e3 ∙ o.2, e4 ∙ o.3),
  i,
  All-map (λ st'. st'.working_time ≤ s.state.working_time)
      (λ st'. st'.working_time ≤ now.working_time) s.sent (λ x h. omega (arith, h, w)) l,
  same,
)

-- The branches of `answer_client` behind `wait_update`.
waited_case :
    (st : State) (s : SocketServer) (writes : Bool) (w : Waited)
    → IsSound st s
    → WhenUpdated (IsLater s.state) w
    → InAll (IsSound st) (elim w [
      | updated now rest ↦
          if writes
          then goes_on (record s { state = now; sent = s.sent ++ now ∷ [] })
          else exits 4 (record s { state = now })
      | still ↦ waits s
      | stopped code ↦ exits code s
    ])
waited_case st s true (updated now rest) i h = later-sent st now s true i h
waited_case st s false (updated now rest) i h = later-state st now s i h
waited_case st s writes still i h = i
waited_case st s writes (stopped code) i h = i

if-InAll :
    (st : State) (b : Bool) (s s' : SocketServer)
    → IsSound st s
    → IsSound st s'
    → InAll (IsSound st) (if b then goes_on s else exits 0 s')
if-InAll st true s s' i j = i
if-InAll st false s s' i j = j

answer_client-IsSound :
    (st : State) (a : Arrival) (s : SocketServer)
    → IsSound st s
    → InAll (IsSound st) (answer_client a s)
unfolding answer_client socket_sighandler
answer_client-IsSound st (signal_comes signo) s i =
    if-InAll st (signo == 10) s (record s { bound = false }) i i
answer_client-IsSound st (client_comes true ticks writes) s i =
    waited_case st s writes (wait_update ticks s.state) i (wait_update-IsLater ticks s.state)
answer_client-IsSound st (client_comes false ticks writes) s i = i

served_case :
    (st : State) (rest : List Arrival) (r : Served)
    → InAll (IsSound st) r
    → ((s : SocketServer) → IsSound st s → InAll (IsSound st) (answer_clients rest s))
    → InAll (IsSound st) (elim r [
      | goes_on s' ↦ answer_clients rest s'
      | waits s' ↦ waits s'
      | exits code s' ↦ exits code s'
    ])
served_case st rest (goes_on s) i f = f s i
served_case st rest (waits s) i f = i
served_case st rest (exits code s) i f = i

answer_clients-IsSound :
    (st : State) (rest : List Arrival) (s : SocketServer)
    → IsSound st s
    → InAll (IsSound st) (answer_clients rest s)
unfolding answer_clients
answer_clients-IsSound st [] s i = i
answer_clients-IsSound st (a ∷ rest) s i =
    served_case st rest (answer_client a s) (answer_client-IsSound st a s i)
      (λ s' h. answer_clients-IsSound st rest s' h)

InAll-map :
    (st : State) (r : Served)
    → InAll (IsSound st) r
    → InAll (λ s. IsIncreasing s.sent × All (IsOf st) s.sent) r
InAll-map st (goes_on s) i = (i.1, i.3)
InAll-map st (waits s) i = (i.1, i.3)
InAll-map st (exits code s) i = (i.1, i.3)

-- What the clients are sent, in whatever order clients and signals come and however the server ends:
-- the states of one server, each of them of a later second than those before.
pub answer_clients-IsIncreasing :
    (st : State) (bound : Bool) (rest : List Arrival)
    → InAll
        (λ s. IsIncreasing s.sent × All (IsOf st) s.sent)
        (answer_clients rest (record { state = st; bound = bound; sent = [] }))
answer_clients-IsIncreasing st bound rest =
    InAll-map st (answer_clients rest (record { state = st; bound = bound; sent = [] })) (
      answer_clients-IsSound st rest (record { state = st; bound = bound; sent = [] })
        ((refl, refl, refl, refl), tt, tt, tt))
