-- ===== src/Rc/Laws.antt =====
-- What run control promises, stated against its diagram.
use fz_daq.Prelude.{List, [], ◌∷◌, ◌++◌, ◌≡◌, ◌≢◌, refl, ◌↔◌, arith}
use fz_daq.Rc.{
  RcCommand, RcState, RcFsm, configure, reset, idle, rc_error, rc_ok, process, try_process, run,
}
use fz_daq.Rc.Diagram.{
  Edge, idle_configure, idle_reset, ready_start, ready_reset, running_stop, running_reset,
  paused_configure, paused_start, paused_reset,
}

ruleset edges = (
  idle_configure, idle_reset, ready_start, ready_reset, running_stop, running_reset,
  paused_configure, paused_start, paused_reset,
)

-- The answer of `process` to a command, by the state alone.
abbrev pub Answers : RcFsm → RcCommand → RcState → Type 0
Answers m c t = process m c ≡ (record { curstate = t; lasterr = rc_ok }, rc_ok)

Edge-Answers :
    (s : RcState) (c : RcCommand) (t : RcState) (m : RcFsm)
    → m.curstate ≡ s
    → Edge s c t
    → Answers m c t
unfolding process
Edge-Answers s c t m e idle_configure = rw e
Edge-Answers s c t m e idle_reset = rw e
Edge-Answers s c t m e ready_start = rw e
Edge-Answers s c t m e ready_reset = rw e
Edge-Answers s c t m e running_stop = rw e
Edge-Answers s c t m e running_reset = rw e
Edge-Answers s c t m e paused_configure = rw e
Edge-Answers s c t m e paused_start = rw e
Edge-Answers s c t m e paused_reset = rw e

Answers-Edge :
    (s : RcState) (c : RcCommand) (t : RcState) (m : RcFsm)
    → m.curstate ≡ s
    → Answers m c t
    → Edge s c t
unfolding process
Answers-Edge s c t m e h = grind (arith, edges)

-- `process` accepts a command, and moves to a state, exactly when the diagram has that edge from
-- the current state.
pub process-Edge : (m : RcFsm) (c : RcCommand) (t : RcState) → Answers m c t ↔ Edge m.curstate c t
process-Edge m c t = (Answers-Edge m.curstate c t m refl, Edge-Answers m.curstate c t m refl)

-- A refused command leaves the state alone, and the outcome that is returned is the one that is
-- recorded, for every command.
pub process_refused :
    (m : RcFsm) (c : RcCommand)
    → ((process m c).1 ≡ rc_error → (process m c).0.curstate ≡ m.curstate)
      × ((process m c).0.lasterr ≡ (process m c).1)
unfolding process
process_refused m c = ground arith

-- `try_process` foretells the outcome of `process`.
pub try_process-process : (m : RcFsm) (c : RcCommand) → try_process m c ≡ (process m c).1
unfolding process try_process
try_process-process m c = ground arith

abbrev pub Without : RcCommand → List RcCommand → Type 0
Without c [] = Unit {0}
Without c (d ∷ ds) = (d ≢ c) × Without c ds

step_idle :
    (m : RcFsm) (c : RcCommand)
    → m.curstate ≡ idle
    → c ≢ configure
    → (process m c).0.curstate ≡ idle
unfolding process
step_idle m c e h = ground arith

stays_idle :
    (m : RcFsm) (cs : List RcCommand)
    → m.curstate ≡ idle
    → Without configure cs
    → (run m cs).curstate ≡ idle
unfolding run
stays_idle m [] e h = e
stays_idle m (c ∷ cs) e h = stays_idle (process m c).0 cs (step_idle m c e h.0) h.1

process-reset : (m : RcFsm) → (process m reset).0.curstate ≡ idle
unfolding process
process-reset m = ground arith

run-append : (m : RcFsm) (ps bs : List RcCommand) → run m (ps ++ bs) ≡ run (run m ps) bs
unfolding run
run-append m [] bs = refl
run-append m (a ∷ ps) bs = run-append (process m a).0 ps bs

-- Whatever was commanded before, after a reset the machine is idle until the next `configure`:
-- in particular it is not running.
pub reset_needs_configure :
    (m : RcFsm) (ps bs : List RcCommand)
    → Without configure bs
    → (run m (ps ++ reset ∷ bs)).curstate ≡ idle
unfolding run
reset_needs_configure m ps bs h =
    rw (run-append m ps (reset ∷ bs))
      (stays_idle (process (run m ps) reset).0 bs (process-reset (run m ps)) h)
