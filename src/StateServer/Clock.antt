-- ===== src/StateServer/Clock.antt =====
-- lab5/unixserver.c and lab5/signalserver.c: `update`, which is the same in both and removes nothing
-- when it fails, and the loop that waits for it. `working_time` is not negative, so a clock that was
-- set back is not after it.
use syssoft_labs.Prelude.{
  ℕ, ◌-◌, ◌<◌, ◌≡◌, Option, none, some, List, [], ◌∷◌, ltb, arith, if◌then◌else◌,
}
use syssoft_labs.StateServer.{State, Loads}

-- What `time` and `getloadavg` answer.
pub record Tick : Type 0 where
  pub time : Option ℕ
  pub load : Option Loads

-- `update` has changed the state, or has not, or ends the process with a status.
pub data Ticked : Type 0 where
  newer : State → Ticked
  same_state : Ticked
  failed_with : ℕ → Ticked

unfoldable pub update_clock : Tick → State → Ticked
update_clock t st = elim t.time [
  | none ↦ failed_with 1
  | some now ↦
      if ltb st.working_time (now - st.start_time)
      then (elim t.load [
        | none ↦ failed_with 2
        | some l ↦ newer (record st { working_time = now - st.start_time; loadavg = l })
      ])
      else same_state
]

-- `while (!update());` for as many calls as there are answers; what is left of the answers.
pub data Waited : Type 0 where
  updated : State → List Tick → Waited
  still : Waited
  stopped : ℕ → Waited

unfoldable pub wait_update : List Tick → State → Waited
wait_update [] st = still
wait_update (t ∷ ts) st = elim (update_clock t st) [
  | newer st' ↦ updated st' ts
  | same_state ↦ wait_update ts st
  | failed_with code ↦ stopped code
]

-- The second state is the first one, later.
abbrev pub IsLater : State → State → Type 0
IsLater st st' =
    (st.working_time < st'.working_time)
    × (st'.start_time ≡ st.start_time)
    × (st'.pid ≡ st.pid)
    × (st'.uid ≡ st.uid)
    × (st'.gid ≡ st.gid)

abbrev WhenNewer : (State → Type 0) → Ticked → Type 0
WhenNewer P (newer st) = P st
WhenNewer P same_state = Unit
WhenNewer P (failed_with code) = Unit

abbrev pub WhenUpdated : (State → Type 0) → Waited → Type 0
WhenUpdated P (updated st ts) = P st
WhenUpdated P still = Unit
WhenUpdated P (stopped code) = Unit

update_clock-IsLater : (t : Tick) (st : State) → WhenNewer (IsLater st) (update_clock t st)
unfolding update_clock
update_clock-IsLater t st = ground arith

ticked_case :
    (P : State → Type 0) (r : Ticked) (ts : List Tick) (w : Waited)
    → WhenNewer P r
    → WhenUpdated P w
    → WhenUpdated P
        (elim r [ newer st' ↦ updated st' ts | same_state ↦ w | failed_with code ↦ stopped code ])
ticked_case P (newer st) ts w h k = h
ticked_case P same_state ts w h k = k
ticked_case P (failed_with code) ts w h k = tt

pub wait_update-IsLater :
    (ts : List Tick) (st : State) → WhenUpdated (IsLater st) (wait_update ts st)
unfolding wait_update
wait_update-IsLater [] st = tt
wait_update-IsLater (t ∷ ts) st =
    ticked_case (IsLater st) (update_clock t st) ts (wait_update ts st) (update_clock-IsLater t st)
      (wait_update-IsLater ts st)
