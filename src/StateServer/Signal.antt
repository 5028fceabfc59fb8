-- ===== src/StateServer/Signal.antt =====
-- lab5/signalserver.c: a server that answers five signals by what it prints. They
-- come while it sleeps.
use syssoft_labs.Prelude.{ℕ, ◌≡◌, refl, List, [], ◌∷◌, ◌++◌, ◌==◌, if◌then◌else◌}
use syssoft_labs.StateServer.{State, Loads}
use syssoft_labs.StateServer.Clock.{
  Tick, newer, same_state, failed_with, update_clock, Waited, updated, still, stopped, wait_update,
  IsLater, WhenUpdated, wait_update-IsLater,
}

-- A line that is printed.
pub data Printed : Type 0 where
  shows_pid shows_uid shows_gid shows_time : ℕ → Printed
  shows_loads : Loads → Printed

pub record SignalServer : Type 0 where
  pub state : State
  pub printed : List Printed

pub data Handled : Type 0 where
  returned : SignalServer → Handled
  waiting : Handled
  died : ℕ → Handled

-- the `switch` of `sighandler`: SIGHUP, SIGINT, SIGUSR1, SIGUSR2 and SIGTERM
abbrev pub print_for : ℕ → State → List Printed
print_for signo st =
    if signo == 1
    then shows_pid st.pid ∷ []
    else if signo == 2
    then shows_uid st.uid ∷ []
    else if signo == 15
    then shows_gid st.gid ∷ []
    else if signo == 10
    then shows_time st.working_time ∷ []
    else if signo == 12
    then shows_loads st.loadavg ∷ []
    else []

-- The handler, with what the system answers to its calls of `update`.
unfoldable pub handle_signal : ℕ → List Tick → SignalServer → Handled
handle_signal signo ticks s = elim (wait_update ticks s.state) [
  | updated st rest ↦ returned (record { state = st; printed = s.printed ++ print_for signo st })
  | still ↦ waiting
  | stopped code ↦ died code
]

-- How `usleep` ends in a round of `main`: by itself, by a signal, or by a failure.
pub data Nap : Type 0 where
  over failed_nap : Nap
  interrupted : ℕ → List Tick → Nap

-- `(void) update()` behind `usleep`
abbrev pub update_after : Tick → SignalServer → Handled
update_after t s = elim (update_clock t s.state) [
  | newer st ↦ returned (record s { state = st })
  | same_state ↦ returned s
  | failed_with code ↦ died code
]

unfoldable pub signal_round : Nap → Tick → SignalServer → Handled
signal_round over t s = update_after t s
signal_round failed_nap t s = died 3
signal_round (interrupted signo ticks) t s = elim (handle_signal signo ticks s) [
  | returned s' ↦ update_after t s'
  | waiting ↦ waiting
  | died code ↦ died code
]

abbrev pub WhenReturned : (SignalServer → Type 0) → Handled → Type 0
WhenReturned P (returned s) = P s
WhenReturned P waiting = Unit
WhenReturned P (died code) = Unit

handled_case :
    (signo : ℕ) (s : SignalServer) (w : Waited)
    → WhenUpdated (IsLater s.state) w
    → WhenReturned
        (λ s'. IsLater s.state s'.state × (s'.printed ≡ s.printed ++ print_for signo s'.state))
        (elim w [
          | updated st rest ↦
              returned (record { state = st; printed = s.printed ++ print_for signo st })
          | still ↦ waiting
          | stopped code ↦ died code
        ])
handled_case signo s (updated st rest) h = (h, refl)
handled_case signo s still h = tt
handled_case signo s (stopped code) h = tt

-- When the handler of a signal returns, a second or more has passed since the state before, and it has
-- printed what the signal asks for, of the new state.
pub handle_signal-IsLater :
    (signo : ℕ) (ticks : List Tick) (s : SignalServer)
    → WhenReturned
        (λ s'. IsLater s.state s'.state × (s'.printed ≡ s.printed ++ print_for signo s'.state))
        (handle_signal signo ticks s)
unfolding handle_signal
handle_signal-IsLater signo ticks s =
    handled_case signo s (wait_update ticks s.state) (wait_update-IsLater ticks s.state)
