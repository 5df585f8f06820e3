-- ===== src/Rc/Tests.antt =====
-- Runs of the run control machine, and its theorems at concrete inputs.
use fz_daq.Prelude.{[], ◌∷◌, ◌++◌, ◌≡◌, refl, ◌↔◌}
use fz_daq.Rc.{
  configure, start, stop, reset, idle, running, paused, rc_error, init, process, run, RcFsm,
}
use fz_daq.Rc.Diagram.{Edge}
use fz_daq.Rc.Laws.{Answers, process-Edge, reset_needs_configure}

started : (run init (configure ∷ start ∷ [])).curstate ≡ running
unfolding run init process
started = refl

abbrev halted : RcFsm
halted = record { curstate = paused; lasterr = rc_error }

process-Edge_example : Answers halted start running ↔ Edge paused start running
process-Edge_example = process-Edge halted start running

reset_needs_configure_example :
    (run halted ((start ∷ stop ∷ []) ++ reset ∷ start ∷ stop ∷ [])).curstate ≡ idle
reset_needs_configure_example =
    reset_needs_configure halted (start ∷ stop ∷ []) (start ∷ stop ∷ []) (λ e. cc, (λ e. cc, tt))
