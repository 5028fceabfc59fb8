-- ===== src/StateServer/Shown.antt =====
-- lab5/server.c with lab5/client.c: what a client shows while the server works.
use syssoft_labs.Prelude.{
  ℕ, ◌-◌, ◌≡◌, ◌≢◌, refl, sym, ap, ◌∙◌, subst, inl, inr, Bool-cases, Bool, true, false, Option,
  none, some, List, [], ◌∷◌, ◌++◌, arith, ltb, if◌then◌else◌,
}
use syssoft_labs.StateServer.{
  State, Objects, Server, Mode, shm, msg, mmap, Step, going, ended, ◌>>=◌, Sleep, slept, failed,
  signalled, Event, update_state, sighandler, asleep, publish_changes, publish, server_round,
  serve_events, Setup, or_new, set_up,
}
use syssoft_labs.StateServer.Client.{client}
use syssoft_labs.StateServer.Clean.{Ends, bind-Ends}

abbrev pub larger : ℕ → ℕ → ℕ
larger a b = if ltb a b then b else a

-- The time since the start, by the clock of a round and by all the rounds.
abbrev pub elapsed : ℕ → Event → ℕ
elapsed start e = elim e.time [ none ↦ 0 | some now ↦ now - start ]

abbrev pub longest : ℕ → List Event → ℕ
longest start [] = 0
longest start (e ∷ es) = larger (elapsed start e) (longest start es)

-- The newest state that was published is that of the server; nothing is said before the first one.
abbrev pub IsShown : Mode → State → Objects → Type 0
IsShown shm st o = st.working_time ≢ 0 → o.segment ≡ some st
IsShown mmap st o = st.working_time ≢ 0 → o.shared ≡ some st
IsShown msg st o =
    (ms : List State) × (o.queue ≡ some ms)
    × (st.working_time ≢ 0 → (old : List State) × (ms ≡ old ++ st ∷ []))

abbrev pub IsSame : State → State → Type 0
IsSame a b = (a.start_time ≡ b.start_time) × (a.pid ≡ b.pid) × (a.uid ≡ b.uid) × (a.gid ≡ b.gid)

abbrev Never : ℕ → Objects → Type 0
Never code o = Unit

abbrev IsUpdated : Event → Server → Bool × Server → Type 0
IsUpdated e s r =
    (r.0 ≡ false → r.1.state ≡ s.state)
    × (r.1.state.working_time ≡ larger s.state.working_time (elapsed s.state.start_time e))
    × IsSame s.state r.1.state
    × (r.1.objects ≡ s.objects)

update_state-Updated : (e : Event) (s : Server) → Ends (IsUpdated e s) Never (update_state e s)
unfolding update_state
update_state-Updated e s = ground arith

-- What a round does to the state, and that it is shown then.
abbrev IsRound : Mode → Event → Server → Server → Type 0
IsRound mode e s s' =
    IsShown mode s'.state s'.objects
    × (s'.state.working_time ≡ larger s.state.working_time (elapsed s.state.start_time e))
    × IsSame s.state s'.state

publish_changes-Round :
    (mode : Mode) (e : Event) (s : Server) (r : Bool × Server)
    → IsShown mode s.state s.objects
    → IsUpdated e s r
    → Ends (IsRound mode e s) Never (publish_changes mode e r)
unfolding publish
publish_changes-Round shm e s (true, s') h u = ground (arith, u)
publish_changes-Round msg e s (true, s') h u = elim (Bool-cases e.sends) [
  | inl t ↦ rw t ((h.0 ++ s'.state ∷ [], ground (arith, h.1, u.3), λ _. (h.0, refl)), u.1, u.2)
  | inr f ↦ ground (arith, f)
]
publish_changes-Round mmap e s (true, s') h u = ground (arith, u)
publish_changes-Round mode e s (false, s') h u = (
  subst (λ o. IsShown mode s'.state o) (sym u.3)
      (subst (λ st. IsShown mode st s.objects) (sym (u.0 refl)) h),
  u.1,
  u.2,
)

asleep-Same : (mode : Mode) (sl : Sleep) (s : Server) → Ends (λ s'. s ≡ s') Never (asleep mode sl s)
unfolding asleep sighandler
asleep-Same mode slept s = refl
asleep-Same mode failed s = tt
asleep-Same shm (signalled signo) s = ground arith
asleep-Same msg (signalled signo) s = ground arith
asleep-Same mmap (signalled signo) s = ground arith

server_round-Round :
    (mode : Mode) (e : Event) (s : Server)
    → IsShown mode s.state s.objects
    → Ends (IsRound mode e s) Never (server_round mode e s)
unfolding server_round
server_round-Round mode e s h =
    bind-Ends (IsUpdated e s) (IsRound mode e s) Never (asleep mode e.sleep s >>= update_state e)
      (publish_changes mode e)
      (bind-Ends (λ s'. s ≡ s') (IsUpdated e s) Never (asleep mode e.sleep s) (update_state e)
        (asleep-Same mode e.sleep s)
        λ s' h'.
          subst (λ t. Ends (IsUpdated e s) Never (update_state e t)) h' (update_state-Updated e s))
      λ r u. publish_changes-Round mode e s r h u

-- The same for all the rounds.
abbrev IsFrom : Mode → List Event → State → Server → Type 0
IsFrom mode es st s' =
    IsShown mode s'.state s'.objects
    × (s'.state.working_time ≡ larger st.working_time (longest st.start_time es))
    × IsSame st s'.state

abbrev IsServed : Mode → List Event → Server → Server → Type 0
IsServed mode es s s' = IsFrom mode es s.state s'

larger_assoc : (a b c : ℕ) → larger (larger a b) c ≡ larger a (larger b c)
larger_assoc a b c = ground arith

larger_zero : (a : ℕ) → larger 0 a ≡ a
larger_zero a = ground arith

Ends-then :
    (mode : Mode) (e : Event) (es : List Event) (s s' : Server) (r : Step Server)
    → IsRound mode e s s'
    → Ends (IsServed mode es s') Never r
    → Ends (IsServed mode (e ∷ es) s) Never r
Ends-then mode e es s s' (going t) h i = (
  i.0,
  i.1
      ∙ ap (λ n. larger s'.state.working_time (longest n es)) (sym h.2.0)
      ∙ ap (λ w. larger w (longest s.state.start_time es)) h.1
      ∙ larger_assoc s.state.working_time (elapsed s.state.start_time e)
          (longest s.state.start_time es),
  ground (arith, h.2, i.2),
)
Ends-then mode e es s s' (ended code o) h i = tt

serve_events-Served :
    (mode : Mode) (es : List Event) (s : Server)
    → IsShown mode s.state s.objects
    → Ends (IsServed mode es s) Never (serve_events mode es s)
unfolding serve_events
serve_events-Served mode [] s h = (h, ground arith, (refl, refl, refl, refl))
serve_events-Served mode (e ∷ es) s h =
    bind-Ends (IsRound mode e s) (IsServed mode (e ∷ es) s) Never (server_round mode e s)
      (serve_events mode es) (server_round-Round mode e s h)
      λ s' r.
        Ends-then mode e es s s' (serve_events mode es s') r (serve_events-Served mode es s' r.0)

-- the messages that were in the queue before
abbrev kept : Option (List State) → List State
kept none = []
kept (some ms) = ms

kept_lem : (q : Option (List State)) → or_new [] q ≡ some (kept q)
kept_lem none = refl
kept_lem (some ms) = refl

set_up-Shown :
    (mode : Mode) (a : Setup) (st : State) (before : Objects)
    → st.working_time ≡ 0
    → Ends (λ s. IsShown mode s.state s.objects × (s.state ≡ st)) Never (set_up mode a st before)
unfolding set_up
set_up-Shown shm a st before z = ground (arith, z)
set_up-Shown mmap a st before z = ground (arith, z)
set_up-Shown msg a st before z = elim (Bool-cases a.opens) [
  | inr f ↦ ground (arith, f)
  | inl t ↦ rw t ((kept before.queue, kept_lem before.queue, λ n. absurd (n z)), refl)
]

-- What a client shows while the server works, once it has published: in the modes of the segment and
-- of the shared object the state of the server; in the mode of the queue this is the last message.
abbrev pub IsSeen : Mode → State → Objects → Type 0
IsSeen shm st o = client true shm o ≡ going (st, o)
IsSeen mmap st o = client true mmap o ≡ going (st, o)
IsSeen msg st o = (old : List State) × (o.queue ≡ some (old ++ st ∷ []))

IsShown-IsSeen :
    (mode : Mode) (st : State) (o : Objects)
    → IsShown mode st o
    → st.working_time ≢ 0
    → IsSeen mode st o
unfolding client
IsShown-IsSeen shm st o h n = ground (arith, h n)
IsShown-IsSeen mmap st o h n = ground (arith, h n)
IsShown-IsSeen msg st o h n = ((h.2 n).0, h.1 ∙ ap some (h.2 n).1)

-- A server that has started at working time 0 and still works has the longest time since its start
-- that the clock has shown it, and its own start time, process, user and group. From the first second
-- on this state is what a client shows, in the modes of the segment and of the shared object, where
-- it can map it; in the mode of the queue it is the last message, if no message is taken
-- meanwhile.
pub serve_events-IsSeen :
    (mode : Mode) (a : Setup) (st : State) (es : List Event) (before : Objects) (s : Server)
    → st.working_time ≡ 0
    → (set_up mode a st before >>= serve_events mode es) ≡ going s
    → (s.state.working_time ≡ longest st.start_time es)
      × IsSame st s.state
      × (s.state.working_time ≢ 0 → IsSeen mode s.state s.objects)
serve_events-IsSeen mode a st es before s z e =
    let served = subst (Ends (IsFrom mode es st) Never) e (
      bind-Ends (λ t. IsShown mode t.state t.objects × (t.state ≡ st)) (IsFrom mode es st) Never
        (set_up mode a st before) (serve_events mode es) (set_up-Shown mode a st before z)
        λ t h.
          subst (λ o. Ends (IsFrom mode es o) Never (serve_events mode es t)) h.1
            (serve_events-Served mode es t h.0)) in
    (
      served.1
          ∙ ap (λ w. larger w (longest st.start_time es)) z
          ∙ larger_zero (longest st.start_time es),
      served.2,
      IsShown-IsSeen mode s.state s.objects served.0,
    )
