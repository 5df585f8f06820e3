-- ===== src/Node/Reach.antt =====
-- The life of a node: what can happen to the node manager of src/nodemanager/FzNodeManager.cpp and
-- to its writer, in any order.
use fz_daq.Prelude.{
  Bool, ℕ, zero, suc, ◌≡◌, refl, sym, ap, ◌∙◌, ◌⊎◌, inl, List, Option, none, some, String, same,
  if◌then◌else◌, arith, if_both, eq_iff, replicate,
}
use fz_daq.Rc.{RcCommand, RcState, idle}
use fz_daq.Rc
use fz_daq.Rcs.{Request}
use fz_daq.Writer.{Writer, take_message}
use fz_daq.Writer.Life.{take_message-Alike}
use fz_daq.Node.{
  NodeManager, handle_request, rc_process, perfdata_round, new_node, configured_mode, rc_state,
}
use fz_daq.Node.Report.{NodeReport, Reading}
use fz_daq.Node.InStep.{InStep, InStep-keep, AllIn, handle_request-InStep, rc_process-InStep}

-- One thing happens to a node: a message arrives, a command of its own run control, a second of its
-- report passes, or its writer gets a message.
pub data Step (m : NodeManager) : NodeManager → Type 0 where
  request : (now : ℕ) (q : Option Request) → Step m (handle_request now q m).0
  command : (now : ℕ) (c : RcCommand) → Step m (rc_process now c m).0
  sampled : (t0 t1 : Reading) → Step m (perfdata_round t0 t1 m)
  stored :
      (now : ℕ) (x : List ℕ) (bytes events : ℕ)
      → Step m (record m { writer = (take_message now x (m.writer, bytes, events)).0 })

-- Any number of them.
pub data Reach (n : NodeManager) : NodeManager → Type 0 where
  here : Reach n n
  after : {m t : NodeManager} → Reach n m → Step m t → Reach n t

replicate-AllIn : (n : ℕ) → AllIn idle (replicate n idle)
replicate-AllIn zero = tt
replicate-AllIn (suc n) = (refl, replicate-AllIn n)

configured_mode-known :
    (mode : Option String) → (configured_mode mode ≡ "local") ⊎ (configured_mode mode ≡ "remote")
unfolding configured_mode
configured_mode-known none = inl refl
configured_mode-known (some mode) = ground (arith, eq_iff mode "local", eq_iff mode "remote")

pub new_node-InStep :
    (mode : Option String) (host prof : String) (r : NodeReport) (n : ℕ) (unset : RcState)
    (b : Bool) (w : Writer)
    → w.rcstate ≡ idle
    → InStep (new_node mode host prof r n unset b w)
unfolding new_node rc_state Rc.init
new_node-InStep mode host prof r n unset b w h =
    let m = new_node mode host prof r n unset b w in
    let e : rc_state m ≡ idle =
      if_both (λ (s : RcState). s ≡ idle) (same (configured_mode mode) "remote")
        (if same (configured_mode mode) "remote" then idle else unset) idle
        (λ f. ap (λ b. if b then idle else unset) f) λ _. refl in
    record {
      mode = configured_mode-known mode;
      reading = λ _. sym e;
      parsing = λ _. rw e (replicate-AllIn n);
      writing = λ _. h ∙ sym e;
    }

pub step-InStep : {m t : NodeManager} → InStep m → Step m t → InStep t
unfolding perfdata_round rc_state
step-InStep {m} i (request now q) = handle_request-InStep now q m i
step-InStep {m} i (command now c) = rc_process-InStep now c m i
step-InStep {m} i (sampled t0 t1) = InStep-keep m _ i refl refl refl refl refl refl
step-InStep {m} i (stored now x bytes events) =
    InStep-keep m _ i refl refl refl refl (take_message-Alike now x m.writer bytes events).0 refl

-- From the node that the constructor makes, whatever the configuration says, with a writer that is
-- idle, and whatever messages, commands, reports and events come in whatever order: every thread
-- that the node's profile runs is in the state that the node reports.
pub reachable-InStep :
    (mode : Option String) (host prof : String) (r : NodeReport) (n : ℕ) (unset : RcState)
    (b : Bool) (w : Writer) {m : NodeManager}
    → w.rcstate ≡ idle
    → Reach (new_node mode host prof r n unset b w) m
    → InStep m
reachable-InStep mode host prof r n unset b w h here =
    new_node-InStep mode host prof r n unset b w h
reachable-InStep mode host prof r n unset b w h (after p s) =
    step-InStep (reachable-InStep mode host prof r n unset b w h p) s
