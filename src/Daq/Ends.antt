-- ===== src/Daq/Ends.antt =====
-- The loop of the console to its end, and what follows it: src/main/FzDAQ-mt.cpp.
use fz_daq.Prelude.{
  ℕ, ◌≡◌, ◌≢◌, refl, sym, ap, ◌∙◌, inl, inr, List, [], ◌∷◌, Bool, true, false, ◌&&◌, ◌||◌, String,
  same, Result, ok, err, ◌>>=◌, Gives, Gives-bind, Returns, Returns-bind, Returns-any, if_both,
  Bool-cases,
}
use fz_daq.Rc.{
  RcFsm, RcCommand, RcState, idle, ready, running, paused, configure, start, stop, reset,
}
use fz_daq.Rc
use fz_daq.Node.{rc_state, rc_process}
use fz_daq.Node.InStep.{rc_state_local}
use fz_daq.Daq.{
  Command, help, status, store, nostore, stats, rec, quit, unknown, control, Console, Turn, Shown,
  control_by, command_of, do_command, keep_line, is_unknown_command, run_command, run_line, leave,
  run_lines, stays, record_by, store_by, show_stats,
}
use fz_daq.Daq.Kept.{rc_process-Kept}
use fz_daq.Daq.Commands.{Fits, After, process-Fits}
use fz_daq.Daq.Lines.{run_line-After, asked}

-- Neither the profile's flags nor the mode change.
abbrev Steady : Console → Turn → Type 0
Steady c t = (t.console.iscompute ≡ c.iscompute) × (t.console.nm.rcmode ≡ c.nm.rcmode)

process-Steady :
    (now : ℕ) (x : RcCommand) (c : Console) → (rc_process now x c.nm).0.rcmode ≡ c.nm.rcmode
process-Steady now x c = (rc_process-Kept now x c.nm).0.mode

control_by-Steady :
    (now : ℕ) (x : RcCommand) (c : Console)
    → ((control_by now x c).0.iscompute ≡ c.iscompute)
      × ((control_by now x c).0.nm.rcmode ≡ c.nm.rcmode)
unfolding control_by
control_by-Steady now start c = (
  refl,
  (rc_process-Kept now start (rc_process now configure c.nm).0).0.mode
      ∙ process-Steady now configure c,
)
control_by-Steady now reset c = (refl, process-Steady now reset c)
control_by-Steady now configure c = (refl, process-Steady now configure c)
control_by-Steady now stop c = (refl, process-Steady now stop c)

store_by-Steady :
    (val : Bool) (c : Console) (shown : List Shown)
    → Returns (Steady c) (store_by val c >>= λ d. stays d shown)
unfolding store_by
store_by-Steady val c shown = elim (Bool-cases c.isstorage) [
  | inl e ↦ rw e (refl, refl)
  | inr e ↦ rw e tt
]

record_by-Steady :
    (val : Bool) (c : Console) (shown : List Shown)
    → Returns (Steady c) (record_by val c >>= λ d. stays (record d { rec = val }) shown)
unfolding record_by
record_by-Steady val c shown =
    if_both
      (λ (r : Result Console). Returns (Steady c) (r >>= λ d. stays (record d { rec = val }) shown))
      c.iscompute _ _ (λ _. (refl, refl)) λ _. tt

do_command-Steady : (now : ℕ) (x : Command) (c : Console) → Returns (Steady c) (do_command now x c)
unfolding do_command
do_command-Steady now help c = (refl, refl)
do_command-Steady now status c = (refl, refl)
do_command-Steady now (control x) c = control_by-Steady now x c
do_command-Steady now store c = store_by-Steady true c _
do_command-Steady now nostore c = store_by-Steady false c _
do_command-Steady now stats c =
    Returns-bind (λ _. Unit {0}) (Steady c) (show_stats c) _ (Returns-any (show_stats c))
      λ shown _. (refl, refl)
do_command-Steady now rec c =
    if_both (Returns (Steady c)) c.rec _ _ (λ _. record_by-Steady false c _)
      λ _. record_by-Steady true c _
do_command-Steady now quit c = (refl, refl)
do_command-Steady now unknown c = (refl, refl)

run_command-Steady :
    (now : ℕ) (again : Bool) (line : String) (x : Command) (c : Console)
    → Returns (Steady c) (run_command now again line x c)
unfolding run_command keep_line
run_command-Steady now again line x c =
    if_both (Returns (Steady c)) (again && is_unknown_command x) _ _ (λ _. (refl, refl))
      λ _.
        Returns-bind (Steady c) (Steady c) (do_command now x c) _ (do_command-Steady now x c)
          λ t e. if_both (Steady c) (t.left || is_unknown_command x) _ _ (λ _. e) λ _. e

run_line-Steady : (now : ℕ) (line : String) (c : Console) → Returns (Steady c) (run_line now line c)
unfolding run_line
run_line-Steady now line c =
    if_both (Returns (Steady c)) (same line "") _ _ (λ _. (refl, refl))
      λ _.
        if_both (Returns (Steady c)) (same line "r") _ _
          (λ _. run_command-Steady now true c.lastcmd (command_of c.lastcmd c) c)
          λ _. run_command-Steady now false line (command_of line c) c

After-Steady :
    (x : Command) (c : Console) (r : Result Turn)
    → c.iscompute ≡ true
    → After x c r
    → Returns (Steady c) r
    → Gives (λ t. Fits t.console × Steady c t) r
After-Steady x c (ok t) h a s = (a.0, s)
After-Steady x c (err e) h a s = cc

stop_always : (m : RcFsm) → (Rc.process m stop).0.curstate ≢ running
unfolding Rc.process
stop_always m =
    elim m.curstate as (λ s. (Rc.process (record m { curstate = s }) stop).0.curstate ≢ running) [
      | idle ↦ λ e. cc
      | ready ↦ λ e. cc
      | running ↦ λ e. cc
      | paused ↦ λ e. cc
    ]

-- What the program is left as: its threads in step and, in local mode, not running.
abbrev pub Ended : Console → Type 0
Ended c = Fits c × (c.nm.rcmode ≡ "local" → rc_state c.nm ≢ running)

leave-Ended : (now : ℕ) (c : Console) → Fits c → Ended (leave now c)
unfolding leave
leave-Ended now c f =
    let m = (rc_process now stop c.nm).0 in
    (
      process-Fits now stop c f,
      λ l e. stop_always c.nm.rc_fsm (
          ap (λ (g : RcFsm). g.curstate) (sym (rc_process-Kept now stop c.nm).1)
          ∙ sym (rc_state_local m l)
          ∙ e),
    )

-- A program with a reader, whatever is typed and until the loop is left or the input ends: it comes
-- to its end without a fault, with every thread of its profile in the state that the node reports,
-- and in local mode not running.
pub run_lines-Ended :
    (end : ℕ) (ls : List (ℕ × String)) (c : Console)
    → Fits c
    → c.iscompute ≡ true
    → Gives (λ r. Ended r.0) (run_lines end ls c)
unfolding run_lines
run_lines-Ended end [] c f h = leave-Ended end c f
run_lines-Ended end ((now, line) ∷ ls) c f h =
    Gives-bind (λ t. Fits t.console × Steady c t) (λ r. Ended r.0) (run_line now line c) _
      (After-Steady (asked line c) c (run_line now line c) h (run_line-After now line c f)
        (run_line-Steady now line c))
      λ t (g, s).
        if_both (Gives (λ (r : Console × List Shown). Ended r.0)) t.left _ _
          (λ _. leave-Ended now t.console g)
          λ _.
            Gives-bind (λ r. Ended r.0) (λ r. Ended r.0) (run_lines end ls t.console) _
              (run_lines-Ended end ls t.console g (s.0 ∙ h)) λ r e. e
