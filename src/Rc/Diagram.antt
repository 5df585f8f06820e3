-- ===== src/Rc/Diagram.antt =====
-- The diagram of run control, the list of transitions in the comment of src/rc/RCFSM.h, as a
-- relation between a state, a command and the next state.
use fz_daq.Rc.{RcCommand, RcState, configure, start, stop, reset, idle, ready, running, paused}

pub data Edge : RcState → RcCommand → RcState → Type 0 where
  idle_configure : Edge idle configure ready
  idle_reset : Edge idle reset idle
  ready_start : Edge ready start running
  ready_reset : Edge ready reset idle
  running_stop : Edge running stop paused
  running_reset : Edge running reset idle
  paused_configure : Edge paused configure ready
  paused_start : Edge paused start running
  paused_reset : Edge paused reset idle
