-- ===== src/StateServer/Socket/Answered.antt =====
-- The answer to a client of lab5/unixserver.c, and what lab5/unixclient.c shows.
use syssoft_labs.Prelude.{
  ℕ, ◌-◌, ◌<◌, ◌≤◌, ◌≡◌, ◌≢◌, refl, subst, ◌⊎◌, inl, inr, Option-cases, true, false, none, some,
  List, [], ◌∷◌, ◌++◌, arith,
}
use syssoft_labs.StateServer.{State}
use syssoft_labs.StateServer.Clock.{
  Tick, updated, update_clock, wait_update, IsLater, WhenUpdated, wait_update-IsLater,
}
use syssoft_labs.StateServer.Socket.{
  SocketServer, client_comes, goes_on, answer_client, newest, answer_of, socket_client, shows_state,
}

-- The clock moves on: after readings that are not later, one is, and then the load is known.
abbrev pub MovesOn : State → List Tick → Type 0
MovesOn st [] = true ≡ false
MovesOn st (t ∷ ts) =
    (now : ℕ) × (t.time ≡ some now)
    × (((st.working_time < now - st.start_time) × (t.load ≢ none))
        ⊎ ((now - st.start_time ≤ st.working_time) × MovesOn st ts))

wait_update-MovesOn :
    (ts : List Tick) (st : State)
    → MovesOn st ts
    → (now : State) × (rest : List Tick) × (wait_update ts st ≡ updated now rest)
unfolding wait_update update_clock
wait_update-MovesOn [] st h = ground (arith, h)
wait_update-MovesOn (t ∷ ts) st (now, e, inl (later, loaded)) = elim (Option-cases t.load) [
  | inl n ↦ absurd (loaded n)
  | inr (l, e') ↦ (
    record st { working_time = now - st.start_time; loadavg = l },
    ts,
    ground (arith, e, e', later),
  )
]
wait_update-MovesOn (t ∷ ts) st (now, e, inr (not_later, rest)) =
    let (st', left, w) = wait_update-MovesOn ts st rest in
    (st', left, ground (arith, e, not_later, w))

newest-append : (sts : List State) (st : State) → newest (sts ++ st ∷ []) ≡ some st
newest-append [] st = refl
newest-append (x ∷ []) st = refl
newest-append (x ∷ y ∷ sts) st = newest-append (y ∷ sts) st

-- A client that is accepted is answered, as soon as the clock moves on, by a state that is later than
-- that of the server, and shows it.
pub answer_client-MovesOn :
    (ticks : List Tick) (s : SocketServer)
    → MovesOn s.state ticks
    → (now : State) × (answer_client (client_comes true ticks true) s
        ≡ goes_on (record s { state = now; sent = s.sent ++ now ∷ [] }))
      × IsLater s.state now
      × (socket_client true true (answer_of (answer_client (client_comes true ticks true) s))
          ≡ shows_state now)
unfolding answer_client answer_of socket_client
answer_client-MovesOn ticks s h =
    let (now, rest, e) = wait_update-MovesOn ticks s.state h in
    (
      now,
      ground (arith, e),
      subst (WhenUpdated (IsLater s.state)) e (wait_update-IsLater ticks s.state),
      ground (arith, e, newest-append s.sent now),
    )
