-- ===== src/Cli/Control.antt =====
-- The controller's command line over the controller's own service: src/controller/cli.cpp and
-- src/controller/rcs.cpp.
use fz_daq.Prelude.{
  ◌<◌, ◌≡◌, refl, sym, ◌⊎◌, inl, inr, List, [], ◌∷◌, ◌++◌, map, some, String, length,
}
use fz_daq.Rc.{
  RcFsm, RcState, RcCommand, idle, ready, running, paused, configure, start, rc_ok, rc_error,
}
use fz_daq.Rc
use fz_daq.Rcs.{Response}
use fz_daq.Node.Report.{NodeReport}
use fz_daq.Controller.{
  Controller, Outside, IsFaithful, Reply, response, node_set, push_broadcast, status_request,
  event_of_value, handle_request,
}
use fz_daq.Controller.Events.{IsEvent, event_accepted, event_refused}
use fz_daq.Controller.Nodes.{hosts, AllBring, push_broadcast-AllBring, status_request-Brings}
use mathlib.Core.List.{append-nil}
use fz_daq.Cli.{
  Service, Said, succeeded, refused, prepare_rcwrite, send_rc_event, then_start, send_start,
}

abbrev pub parsed_as : {W : Type 0} → (Reply W → Response) → Reply W → Response
parsed_as other (response r) = r
parsed_as other x = other x

abbrev pub reports_of : {W : Type 0} → Reply W → List NodeReport
reports_of (node_set rs) = rs
reports_of _ = []

-- The controller on the same host, which is reached and answers in time: its state, and the messages
-- that it has pushed. A response is parsed as itself, and other replies as `other` says.
abbrev pub controller_service :
    {W : Type 0}
    → Outside W
    → (Reply W → Response)
    → Service (Controller × List (String × W)) (Reply W)
controller_service o other = record {
  ask = λ q s. let r = handle_request o (some q) s.0 in ((r.0, s.1 ++ r.1), some r.2);
  to_rcsres = parsed_as other;
  to_report = reports_of;
}

prepare_rcwrite-IsEvent : (host value : String) → IsEvent (prepare_rcwrite host value)
unfolding prepare_rcwrite
prepare_rcwrite-IsEvent host value = record {
  to_controller = refl;
  run_control = refl;
  written = refl;
  named = refl;
}

configures :
    (m : RcFsm)
    → (m.curstate ≡ idle) ⊎ (m.curstate ≡ paused)
    → ((Rc.process m configure).1 ≡ rc_ok) × ((Rc.process m configure).0.curstate ≡ ready)
unfolding Rc.process
configures m (inl e) = rw e (refl, refl)
configures m (inr e) = rw e (refl, refl)

starts :
    (m : RcFsm)
    → m.curstate ≡ ready
    → ((Rc.process m start).1 ≡ rc_ok) × ((Rc.process m start).0.curstate ≡ running)
unfolding Rc.process
starts m e = rw e (refl, refl)

-- A message that is pushed to every node for a new state.
abbrev pub pushed_for :
    {W : Type 0} → Outside W → String → String → RcState → Controller → List (String × W)
pushed_for o host value s c =
    push_broadcast (o.request_bytes (status_request o s (prepare_rcwrite host value)))
      c.node_map.nodes

send_start-accepted :
    {W : Type 0} (o : Outside W) (other : Reply W → Response) (host : String) (c : Controller)
    (out : List (String × W))
    → 0 < length c.node_map.nodes
    → (c.rc_fsm.curstate ≡ idle) ⊎ (c.rc_fsm.curstate ≡ paused)
    → let m = (Rc.process c.rc_fsm configure).0 in
      let n = (Rc.process m start).0 in
      send_start (controller_service o other) host (c, out) ≡ (
        (
          record c { rc_fsm = n },
          (out ++ pushed_for o host "configure" m.curstate c)
              ++ pushed_for o host "start" n.curstate c,
        ),
        succeeded "start" ∷ [],
      )
unfolding send_start then_start send_rc_event event_of_value
send_start-accepted o other host c out h s =
    let m = (Rc.process c.rc_fsm configure).0 in
    let (a, b) = configures c.rc_fsm s in
    let first =
      event_accepted o (prepare_rcwrite host "configure") c configure
        (prepare_rcwrite-IsEvent host "configure") h refl a in
    let second =
      event_accepted o (prepare_rcwrite host "start") (record c { rc_fsm = m }) start
        (prepare_rcwrite-IsEvent host "start") h refl (starts m b).0 in
    rw first (rw second refl)

-- The messages of an event bring every node manager in remote mode that receives them to the state.
pushed_for-Brings :
    {W : Type 0} (o : Outside W) (host value : String) (s : RcState) (c : Controller)
    → IsFaithful o
    → AllBring o s (pushed_for o host value s c)
      × (map (λ p. p.0) (pushed_for o host value s c) ≡ hosts c.node_map.nodes)
pushed_for-Brings o host value s c f =
    push_broadcast-AllBring o s (o.request_bytes (status_request o s (prepare_rcwrite host value)))
      c.node_map.nodes
      (status_request-Brings o s (prepare_rcwrite host value) f
        (prepare_rcwrite-IsEvent host value))

-- What `start` comes to: the controller is running and has said so to every node, after it has made
-- them ready.
abbrev pub Started :
    {W : Type 0}
    → Outside W
    → Controller
    → List (String × W)
    → (Controller × List (String × W)) × List Said
    → Type 0
Started {W} o c out ((d, sent), said) =
    (d.rc_fsm.curstate ≡ running)
    × (said ≡ succeeded "start" ∷ [])
    × ((first : List (String × W)) × (second : List (String × W)) × (sent
          ≡ (out ++ first) ++ second)
        × AllBring o ready first
        × AllBring o running second
        × (map (λ p. p.0) first ≡ hosts c.node_map.nodes)
        × (map (λ p. p.0) second ≡ hosts c.node_map.nodes))

by_state :
    {W : Type 0} {s t : RcState} (o : Outside W) (ps : List (String × W))
    → s ≡ t
    → AllBring o s ps
    → AllBring o t ps
by_state o ps e h = rw (sym e) h

Started-eq :
    {W : Type 0} (o : Outside W) (c : Controller) (out : List (String × W))
    {x y : (Controller × List (String × W)) × List Said}
    → x ≡ y
    → Started o c out y
    → Started o c out x
Started-eq o c out e h = rw e h

no_configure :
    (m : RcFsm)
    → (m.curstate ≡ ready) ⊎ (m.curstate ≡ running)
    → (Rc.process m configure).1 ≡ rc_error
unfolding Rc.process
no_configure m (inl e) = rw e refl
no_configure m (inr e) = rw e refl

-- The line `start` at a controller that is idle or paused and knows a node, with faithful encodings:
-- the controller is running afterwards and says that the start succeeded, and it has pushed to the
-- host of every node first a message that brings each node manager in remote mode that receives it to
-- READY, and then one that brings it to RUNNING, with all its threads.
pub send_start-Started :
    {W : Type 0} (o : Outside W) (other : Reply W → Response) (host : String) (c : Controller)
    (out : List (String × W))
    → IsFaithful o
    → 0 < length c.node_map.nodes
    → (c.rc_fsm.curstate ≡ idle) ⊎ (c.rc_fsm.curstate ≡ paused)
    → Started o c out (send_start (controller_service o other) host (c, out))
send_start-Started o other host c out f h s =
    let m = (Rc.process c.rc_fsm configure).0 in
    let n = (Rc.process m start).0 in
    let r = (configures c.rc_fsm s).1 in
    let g = (starts m r).1 in
    let (a, b) = pushed_for-Brings o host "configure" m.curstate c f in
    let (d, e) = pushed_for-Brings o host "start" n.curstate c f in
    let first = pushed_for o host "configure" m.curstate c in
    let second = pushed_for o host "start" n.curstate c in
    let result : Started o c out
        ((record c { rc_fsm = n }, (out ++ first) ++ second), succeeded "start" ∷ []) =
      (g, refl, (first, second, refl, by_state o first r a, by_state o second g d, b, e)) in
    Started-eq o c out (send_start-accepted o other host c out h s) result

-- The line `start` at a controller that is ready or running and knows a node: `configure` is refused
-- there, so `start` is not sent, nothing is pushed, the error is shown, and the controller keeps its
-- state and its nodes: only the outcome that its machine notes is now an error.
pub send_start-refused :
    {W : Type 0} (o : Outside W) (other : Reply W → Response) (host : String) (c : Controller)
    (out : List (String × W))
    → 0 < length c.node_map.nodes
    → (c.rc_fsm.curstate ≡ ready) ⊎ (c.rc_fsm.curstate ≡ running)
    → send_start (controller_service o other) host (c, out) ≡ (
      (record c { rc_fsm = record c.rc_fsm { lasterr = rc_error } }, out),
      refused "wrong requested RC transition" ∷ [],
    )
unfolding send_start then_start event_of_value
send_start-refused o other host c out h s =
    let e =
      event_refused o (prepare_rcwrite host "configure") c configure
        (prepare_rcwrite-IsEvent host "configure") h refl (no_configure c.rc_fsm s) in
    rw e (rw (append-nil out) refl)
