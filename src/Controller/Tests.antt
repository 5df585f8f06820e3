-- ===== src/Controller/Tests.antt =====
-- The controller with concrete nodes and messages, and its theorems at them.
use fz_daq.Prelude.{
  ◌≡◌, refl, [], ◌∷◌, map, false, none, some, String, arith, Gives, same, if◌then◌else◌,
}
use fz_daq.Rc.{
  RcCommand, RcState, RcFsm, configure, start, idle, ready, running, paused, rc_ok, rc_error,
  process,
}
use fz_daq.Rc
use fz_daq.Rcs.{Request, write, rc, cnt}
use fz_daq.Node.{label}
use fz_daq.Node.Report.{NodeReport}
use fz_daq.Controller.{Controller, Outside, IsFaithful, lower_label, event_of_value, handle_request}
use fz_daq.Controller.Map.{NodeMap, map_insert, map_clean, has, find}
use fz_daq.Controller.Sync.{Sync, Kept, Inserted, live, map_clean-Kept, map_insert-Inserted}
use fz_daq.Controller.Events.{IsEvent}
use fz_daq.Controller.Nodes.{AllBring, event_reaches_nodes}

abbrev report_of : String → NodeReport
report_of host = record {
  hostname = host;
  profile = "all";
  status = "IDLE";
  parser_num = 0;
  consumer_ip = "";
  reader = none;
  parsers = [];
  fsms = [];
  writer = none;
}

abbrev two_nodes : NodeMap
two_nodes = record {
  nodes = ("fazia1", report_of "fazia1") ∷ ("fazia2", report_of "fazia2") ∷ [];
  deque = ("fazia2", 100) ∷ ("fazia1", 95) ∷ [];
}

abbrev control : Controller
control = record { node_map = two_nodes; rc_fsm = record { curstate = idle; lasterr = rc_ok } }

-- Messages are the requests themselves, and no node replies.
abbrev plain : Outside Request
plain = record {
  request_bytes = λ q. q;
  parse_request = λ q. some q;
  is_empty = λ q. false;
  to_lower = λ s.
      if same s "IDLE"
      then "idle"
      else if same s "READY"
      then "ready"
      else if same s "RUNNING"
      then "running"
      else if same s "PAUSED"
      then "paused"
      else s;
  exchange = λ h q. none;
}

lower_labels : (s : RcState) → plain.to_lower (label s) ≡ lower_label s
lower_labels idle = refl
lower_labels ready = refl
lower_labels running = refl
lower_labels paused = refl

plain-IsFaithful : IsFaithful plain
plain-IsFaithful = record { parse-bytes = λ q. refl; lower = lower_labels }

abbrev event : String → Request
event v = record {
  channel = rc;
  operation = write;
  module_of = cnt;
  hostname = "";
  variable = "event";
  value = v;
}

event-IsEvent : (v : String) → IsEvent (event v)
event-IsEvent v = record { to_controller = refl; run_control = refl; written = refl; named = refl }

value_configure : event_of_value "configure" ≡ some configure
unfolding event_of_value
value_configure = refl

value_start : event_of_value "start" ≡ some start
unfolding event_of_value
value_start = refl

value_pause : event_of_value "pause" ≡ none
unfolding event_of_value
value_pause = refl

configure_ok : (Rc.process control.rc_fsm configure).1 ≡ rc_ok
unfolding process
configure_ok = refl

start_refused : (Rc.process control.rc_fsm start).1 ≡ rc_error
unfolding process
start_refused = refl

event_reaches_nodes_example :
    let (d, pushes, reply) = handle_request plain (some (event "configure")) control in
    (d.rc_fsm ≡ (Rc.process control.rc_fsm configure).0)
    × (map (λ p. p.0) pushes ≡ "fazia1" ∷ "fazia2" ∷ [])
    × AllBring plain d.rc_fsm.curstate pushes
event_reaches_nodes_example =
    event_reaches_nodes plain (event "configure") control configure plain-IsFaithful
      (event-IsEvent "configure") (omega arith) value_configure configure_ok

two_nodes-agree : (k : String) → has k two_nodes.nodes ≡ has k two_nodes.deque
unfolding has
two_nodes-agree k = ground arith

two_nodes-Sync : Sync two_nodes
unfolding has
two_nodes-Sync = record { once = (refl, (refl, tt)); agree = two_nodes-agree }

fazia2-Kept : Kept "fazia2" 108 (some (report_of "fazia2")) two_nodes
unfolding live find
fazia2-Kept = record { sync = two_nodes-Sync; alive = refl; report = refl }

map_clean-Kept_example :
    Gives (Kept "fazia2" 108 (some (report_of "fazia2"))) (map_clean 257 108 two_nodes)
map_clean-Kept_example =
    map_clean-Kept "fazia2" (some (report_of "fazia2")) 108 two_nodes (omega arith) fazia2-Kept

map_insert-Inserted_example :
    Gives
      (Inserted "fazia3" (report_of "fazia3") 101 two_nodes)
      (map_insert 256 101 "fazia3" (report_of "fazia3") two_nodes)
map_insert-Inserted_example =
    map_insert-Inserted 256 "fazia3" (report_of "fazia3") 101 two_nodes (omega arith) (omega arith)
      two_nodes-Sync
