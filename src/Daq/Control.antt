-- ===== src/Daq/Control.antt =====
-- The run control from the console: `configure`, `start`, `stop` and `reset` of src/main/FzDAQ-mt.cpp.
use fz_daq.Prelude.{
  ℕ, ◌≡◌, refl, ap, ◌∙◌, ◌⊎◌, inl, inr, [], ◌∷◌, Bool, true, false, ◌&&◌, ◌||◌, not, String, same,
  if◌then◌else◌, Result, ◌>>=◌, Gives, Returns, Returns-bind, Returns-any, if_both, Bool-cases,
}
use fz_daq.Rc.{
  RcFsm, RcCommand, RcState, idle, ready, paused, running, configure, start, stop, reset, rc_ok,
}
use fz_daq.Rc
use fz_daq.Node.{NodeManager, is_local, is_ok, rc_state, rc_process}
use fz_daq.Node.InStep.{InStep, rc_state_local, is_local-true, is_local-false}
use fz_daq.Daq.{
  Command, rec, stats, Console, Turn, succeeded, failed, says, control_by, command_of, do_command,
  keep_line, is_unknown_command, run_command, run_line, stays, record_by, show_stats,
}
use fz_daq.Daq.Commands.{Fits, process-Fits}
use fz_daq.Daq.Kept.{rc_process-Kept}
use fz_daq.Daq.Lines.{command_of-all, asked}

rc_process-lasterr :
    (now : ℕ) (x : RcCommand) (m : NodeManager)
    → (rc_process now x m).1 ≡ (Rc.process m.rc_fsm x).0.lasterr
unfolding rc_process
rc_process-lasterr now x m = refl

abbrev pub was_running : RcState → Bool
was_running running = true
was_running _ = false

-- Configured and started, whatever the state.
start_always :
    (m : RcFsm)
    → ((Rc.process (Rc.process m configure).0 start).0.curstate ≡ running)
      × (is_ok (Rc.process (Rc.process m configure).0 start).0.lasterr
          ≡ not (was_running m.curstate))
unfolding Rc.process
start_always m =
    elim m.curstate
      as (λ s.
        ((Rc.process (Rc.process (record m { curstate = s }) configure).0 start).0.curstate
          ≡ running)
        × (is_ok (Rc.process (Rc.process (record m { curstate = s }) configure).0 start).0.lasterr
            ≡ not (was_running s))) [
              | idle ↦ (refl, refl)
              | ready ↦ (refl, refl)
              | running ↦ (refl, refl)
              | paused ↦ (refl, refl)
            ]

-- What is typed is a command of the run control, in local mode.
control_by-start :
    (now : ℕ) (c : Console)
    → Fits c
    → c.nm.rcmode ≡ "local"
    → (rc_state (control_by now start c).0.nm ≡ running)
      × ((control_by now start c).1
          ≡ (if was_running (rc_state c.nm) then failed start else succeeded start))
unfolding control_by says
control_by-start now c f l =
    let m = (rc_process now configure c.nm).0 in
    let n = (rc_process now start m).0 in
    let (k, a) = rc_process-Kept now configure c.nm in
    let (j, b) = rc_process-Kept now start m in
    let fsm : n.rc_fsm ≡ (Rc.process (Rc.process c.nm.rc_fsm configure).0 start).0 =
      b ∙ ap (λ g. (Rc.process g start).0) a in
    let (goes, says_so) = start_always c.nm.rc_fsm in
    (
      rc_state_local n (j.mode ∙ k.mode ∙ l) ∙ ap (λ (g : RcFsm). g.curstate) fsm ∙ goes,
      ap (λ e. says (is_ok e) start)
            (rc_process-lasterr now start m ∙ ap (λ g. (Rc.process g start).0.lasterr) a)
          ∙ ap (λ e. says e start) says_so
          ∙ rw (rc_state_local c.nm l) (elim (Bool-cases (was_running c.nm.rc_fsm.curstate)) [
            | inl e ↦ rw e refl
            | inr e ↦ rw e refl
          ]),
    )

-- The line `start`, in local mode and in whatever state the node is: the loop goes on, every thread
-- of the node's profile is running and the node reports it, and the program says that it failed
-- exactly when the node was running before.
pub start_line :
    (now : ℕ) (c : Console)
    → Fits c
    → c.nm.rcmode ≡ "local"
    → Gives
        (λ t.
          InStep t.console.nm
          × (rc_state t.console.nm ≡ running)
          × (t.left ≡ false)
          × (t.shown
              ≡ (if was_running (rc_state c.nm) then failed start else succeeded start) ∷ []))
        (run_line now "start" c)
unfolding run_line command_of run_command do_command keep_line
start_line now c f l =
    let m =
      process-Fits now start (record c { nm = (rc_process now configure c.nm).0 })
        (process-Fits now configure c f) in
    let (a, b) = control_by-start now c f l in
    rw (is_local-true c.nm l) (m.step, a, refl, ap (λ s. s ∷ []) b)

-- The node is as it was, but for the flag of the reader's recording if the command is `rec`.
abbrev pub Untouched : Command → Console → Console → Type 0
Untouched x c d = ((x ≡ rec) × (d.nm ≡ record c.nm { recording = d.nm.recording })) ⊎ (d.nm ≡ c.nm)

abbrev Calm : Command → Console → Result Turn → Type 0
Calm x c = Returns (λ t. Untouched x c t.console)

stats-Calm : (c : Console) → Calm stats c (show_stats c >>= λ shown. stays c shown)
stats-Calm c =
    Returns-bind (λ _. Unit {0}) (λ t. Untouched stats c t.console) (show_stats c) _
      (Returns-any (show_stats c)) λ shown _. (inr refl)

rec-Calm : (now : ℕ) (c : Console) → Calm rec c (do_command now rec c)
unfolding do_command record_by
rec-Calm now c = elim (Bool-cases c.rec) [
  | inl e ↦
      rw e (elim (Bool-cases c.iscompute) [ inl f ↦ rw f (inl (refl, refl)) | inr f ↦ rw f tt ])
  | inr e ↦
      rw e (elim (Bool-cases c.iscompute) [ inl f ↦ rw f (inl (refl, refl)) | inr f ↦ rw f tt ])
]

not_local : {A : Type 0} (m : NodeManager) → m.rcmode ≡ "remote" → is_local m ≡ true → A
not_local m r h = let e = is_local-false m r in cc

do_command-Calm :
    (now : ℕ) (line : String) (c : Console)
    → c.nm.rcmode ≡ "remote"
    → Calm (command_of line c) c (do_command now (command_of line c) c)
unfolding do_command
do_command-Calm now line c r =
    command_of-all (λ x. Calm x c (do_command now x c)) line c (inr refl) (inr refl)
      (λ x h. not_local c.nm r h) (λ h _. not_local c.nm r h) (λ h _. not_local c.nm r h)
      (stats-Calm c) (rec-Calm now c) (inr refl) (inr refl)

run_command-Calm :
    (now : ℕ) (again : Bool) (line : String) (x : Command) (c : Console)
    → Calm x c (do_command now x c)
    → Calm x c (run_command now again line x c)
unfolding run_command keep_line
run_command-Calm now again line x c h =
    if_both (Calm x c) (again && is_unknown_command x) _ _ (λ _. (inr refl))
      λ _.
        Returns-bind (λ t. Untouched x c t.console) (λ t. Untouched x c t.console)
          (do_command now x c) _ h
          λ t e.
            if_both (λ (u : Turn). Untouched x c u.console) (t.left || is_unknown_command x) _ _
              (λ _. e) λ _. e

-- In remote mode no line that is typed or repeated changes the node manager: not its run control,
-- not the states of its reader, parsers and writer, and not whether the writer stores; except that
-- `rec`, which the program takes in either mode, sets whether the reader records, and nothing else.
pub remote_line :
    (now : ℕ) (line : String) (c : Console)
    → c.nm.rcmode ≡ "remote"
    → Returns (λ t. Untouched (asked line c) c t.console) (run_line now line c)
unfolding run_line
remote_line now line c r = elim (Bool-cases (same line "")) [
  | inl e ↦ rw e (inr refl)
  | inr e ↦ rw e (elim (Bool-cases (same line "r")) [
    | inl d ↦ rw d (
        run_command-Calm now true c.lastcmd (command_of c.lastcmd c) c
          (do_command-Calm now c.lastcmd c r))
    | inr d ↦
        rw d (run_command-Calm now false line (command_of line c) c (do_command-Calm now line c r))
  ])
]
