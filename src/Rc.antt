-- ===== src/Rc.antt =====
-- The run control state machine: src/rc/RCFSM.h, src/rc/RCFSM.cpp, and its types in
-- src/utils/FzTypedef.h.
mod Diagram
pub mod Laws
mod Tests
use fz_daq.Prelude.{
  ℕ, zero, suc, ◌-◌, List, [], ◌∷◌, get_elem?, Option, none, some, ltb, if◌then◌else◌, ◌==◌,
}

pub data RcCommand : Type 0 where
  configure start stop reset : RcCommand

pub data RcState : Type 0 where
  idle ready running paused : RcState

pub data RcTransition : Type 0 where
  rc_error rc_ok : RcTransition

pub record RcFsm : Type 0 where
  pub curstate : RcState
  pub lasterr : RcTransition

abbrev rccommand_num : ℕ
rccommand_num = 4

-- The conversion of an enumerator to `int`.
abbrev command_id : RcCommand → ℕ
command_id configure = 0
command_id start = 1
command_id stop = 2
command_id reset = 3

abbrev state_id : RcState → ℕ
state_id idle = 0
state_id ready = 1
state_id running = 2
state_id paused = 3

rc_ttable : List (List ℕ)
rc_ttable =
    (1 ∷ 0 ∷ 0 ∷ 7 ∷ []) ∷ (0 ∷ 3 ∷ 0 ∷ 8 ∷ []) ∷ (0 ∷ 0 ∷ 5 ∷ 0 ∷ []) ∷ (2 ∷ 4 ∷ 6 ∷ 9 ∷ []) ∷ []

-- A read of the table; the indexes of an enumerator are always inside it.
abbrev entry : Option (List ℕ) → ℕ → ℕ
entry none s = 0
entry (some row) s = elim (get_elem? row s) [ none ↦ 0 | some t ↦ t ]

table_entry : ℕ → ℕ → ℕ
unfolding rc_ttable
table_entry c s = entry (get_elem? rc_ttable c) s

-- The constructor's machine.
unfoldable pub init : RcFsm
init = record { curstate = idle; lasterr = rc_ok }

unfoldable pub try_process : RcFsm → RcCommand → RcTransition
unfolding table_entry
try_process m c =
    if ltb (rccommand_num - 1) (command_id c)
    then rc_error
    else if table_entry (command_id c) (state_id m.curstate) == 0
    then rc_error
    else rc_ok

-- The `switch` on the transition's number: the new state and the outcome.
switch : ℕ → RcState → RcState × RcTransition
switch t s =
    if t == 0
    then (s, rc_error)
    else if t == 1
    then (ready, rc_ok)
    else if t == 2
    then (idle, rc_ok)
    else if t == 3
    then (running, rc_ok)
    else if t == 4
    then (idle, rc_ok)
    else if t == 5
    then (paused, rc_ok)
    else if t == 6
    then (idle, rc_ok)
    else if t == 7
    then (ready, rc_ok)
    else if t == 8
    then (running, rc_ok)
    else if t == 9
    then (idle, rc_ok)
    else (s, rc_ok)

-- The machine after the call, and the value returned.
unfoldable pub process : RcFsm → RcCommand → RcFsm × RcTransition
unfolding table_entry switch
process m c =
    if ltb (rccommand_num - 1) (command_id c)
    then (record m { lasterr = rc_error }, rc_error)
    else let (s, e) = switch (table_entry (command_id c) (state_id m.curstate)) m.curstate in
      (record { curstate = s; lasterr = e }, e)

-- A batch of commands, as the console and the run control socket send them one after another.
pub run : RcFsm → List RcCommand → RcFsm
run m [] = m
run m (c ∷ cs) = run (process m c).0 cs
