-- ===== src/Controller/Nodes.antt =====
-- The controller and the nodes: what the messages that src/controller/rcs.cpp pushes do at the node
-- managers of src/nodemanager/FzNodeManager.cpp.
use fz_daq.Prelude.{ℕ, ◌<◌, ◌≡◌, refl, ap, ◌∙◌, List, [], ◌∷◌, map, some, String, length}
use fz_daq.Rc.{RcCommand, RcState, idle, ready, running, paused, rc_ok}
use fz_daq.Rc
use fz_daq.Rcs.{Request, write}
use fz_daq.Node
use fz_daq.Node.{NodeManager, NodeReply, rc_state, state_of_value, label, enter_state}
use fz_daq.Node.InStep.{InStep, enter_state-InStep}
use fz_daq.Node.Answers.{Status, Status-taken}
use fz_daq.Node.Report.{NodeReport}
use fz_daq.Controller.{
  Controller, Outside, IsFaithful, lower_label, push_broadcast, status_request, event_of_value,
  handle_request,
}
use fz_daq.Controller.Events.{IsEvent, event_accepted}

pub state_of_lower_label : (s : RcState) → state_of_value (lower_label s) ≡ some s
unfolding state_of_value
state_of_lower_label idle = refl
state_of_lower_label ready = refl
state_of_lower_label running = refl
state_of_lower_label paused = refl

-- The hosts that the reports name.
abbrev pub hosts : List (String × NodeReport) → List String
hosts [] = []
hosts ((k, r) ∷ m) = r.hostname ∷ hosts m

-- A message that brings every node manager in remote mode that receives it, whatever it was doing,
-- to a state, with all threads of its profile.
abbrev pub Brings : {W : Type 0} → Outside W → RcState → W → Type 0
Brings o s bytes =
    (now : ℕ) (m : NodeManager)
    → m.rcmode ≡ "remote"
    → let t = (Node.handle_request now (o.parse_request bytes) m).0 in InStep t × (rc_state t ≡ s)

abbrev pub AllBring : {W : Type 0} → Outside W → RcState → List (String × W) → Type 0
AllBring o s [] = Unit {0}
AllBring o s ((h, bytes) ∷ ps) = Brings o s bytes × AllBring o s ps

pub status_request-Brings :
    {W : Type 0} (o : Outside W) (s : RcState) (q : Request)
    → IsFaithful o
    → IsEvent q
    → Brings o s (o.request_bytes (status_request o s q))
status_request-Brings o s q f e now m r =
    let p = status_request o s q in
    let w : Status write p = record {
      to_node = refl;
      run_control = e.run_control;
      operated = e.written;
      named = refl;
    } in
    let taken =
      Status-taken now p m s r w (ap state_of_value (f.lower s) ∙ state_of_lower_label s) in
    rw (f.parse-bytes p) (rw taken (enter_state-InStep now s m r))

pub push_broadcast-AllBring :
    {W : Type 0} (o : Outside W) (s : RcState) (bytes : W) (m : List (String × NodeReport))
    → Brings o s bytes
    → AllBring o s (push_broadcast bytes m) × (map (λ p. p.0) (push_broadcast bytes m) ≡ hosts m)
unfolding push_broadcast
push_broadcast-AllBring o s bytes [] b = (tt, refl)
push_broadcast-AllBring o s bytes ((k, r) ∷ m) b =
    let ih = push_broadcast-AllBring o s bytes m b in ((b, ih.0), ap (λ hs. r.hostname ∷ hs) ih.1)

-- With faithful encodings: an event that the controller's machine accepts is pushed to the host of
-- every node that it knows, and every message pushed brings each node manager in remote mode that
-- receives it, with all its threads, to the state that the controller is then in.
pub event_reaches_nodes :
    {W : Type 0} (o : Outside W) (q : Request) (c : Controller) (e : RcCommand)
    → IsFaithful o
    → IsEvent q
    → 0 < length c.node_map.nodes
    → event_of_value q.value ≡ some e
    → (Rc.process c.rc_fsm e).1 ≡ rc_ok
    → let (d, pushes, reply) = handle_request o (some q) c in
      (d.rc_fsm ≡ (Rc.process c.rc_fsm e).0)
      × (map (λ p. p.0) pushes ≡ hosts c.node_map.nodes)
      × AllBring o d.rc_fsm.curstate pushes
event_reaches_nodes o q c e f h n v a =
    let s = (Rc.process c.rc_fsm e).0.curstate in
    let all =
      push_broadcast-AllBring o s (o.request_bytes (status_request o s q)) c.node_map.nodes
        (status_request-Brings o s q f h) in
    rw (event_accepted o q c e h n v a) (refl, all.1, all.0)
