-- ===== src/Node/Tests.antt =====
-- Nodes at concrete requests, and the node manager's theorems at them.
use fz_daq.Prelude.{◌≡◌, refl, [], ◌∷◌, true, false, none, some}
use fz_daq.Rc.{configure, idle, ready, rc_ok}
use fz_daq.Rcs.{Request, read, write, rc, nm}
use fz_daq.Writer.{RunTag, take_message, Writer}
use fz_daq.Node.{new_node, NodeManager, handle_request, rc_process, write_rc, state_of_value}
use fz_daq.Node.Report.{NodeReport}
use fz_daq.Node.InStep.{InStep}
use fz_daq.Node.Reach.{here, after, request, command, stored, reachable-InStep}
use fz_daq.Node.Answers.{Status, IsError, handle_request-IsError}

-- A tag of which nothing is asked.
abbrev unread : RunTag
unread = record { run_name = λ n. "run"; number_in = λ name. none }

abbrev quiet_writer : Writer
quiet_writer = record {
  runtag = unread;
  event_file_size = 100;
  event_dir_size = 1000;
  esize = 0;
  dsize = 0;
  fileid = 1;
  dirid = 2;
  dirstr = "run000001";
  firstrun = false;
  start_newdir = true;
  storing = true;
  rcstate = idle;
  report = record { in_bytes = 0; out_bytes = 0; in_events = 0; out_events = 0 };
  dirs = "run000001" ∷ [];
  files = [];
  spied = [];
}

abbrev first_report : NodeReport
first_report = record {
  hostname = "";
  profile = "";
  status = "";
  parser_num = 0;
  consumer_ip = "";
  reader = none;
  parsers = [];
  fsms = [];
  writer = none;
}

abbrev remote_node : NodeManager
remote_node = record {
  hostname = "fazia1";
  profile = "all";
  rcmode = "remote";
  rc_fsm = record { curstate = idle; lasterr = rc_ok };
  state = idle;
  reader = idle;
  recording = false;
  parsers = idle ∷ idle ∷ [];
  writer = quiet_writer;
  nodereport = first_report;
  report_init = false;
  pushed = [];
}

abbrev local_node : NodeManager
local_node = record remote_node { rcmode = "local" }

abbrev to_ready : Request
to_ready = record {
  channel = rc;
  operation = write;
  module_of = nm;
  hostname = "";
  variable = "status";
  value = "ready";
}

abbrev ask_status : Request
ask_status = record to_ready { operation = read; value = "" }

to_ready-Status : Status write to_ready
to_ready-Status = record { to_node = refl; run_control = refl; operated = refl; named = refl }

ask_status-Status : Status read ask_status
ask_status-Status = record { to_node = refl; run_control = refl; operated = refl; named = refl }

-- A request, a command and an event of a node in remote mode.
abbrev started : NodeManager
started = new_node (some "remote") "fazia1" "all" first_report 2 idle false quiet_writer

abbrev asked : NodeManager
asked = (handle_request 5 (some to_ready) started).0

abbrev commanded : NodeManager
commanded = (rc_process 6 configure asked).0

reachable-InStep_example :
    InStep (record commanded { writer = (take_message 7 (1 ∷ []) (commanded.writer, 0, 0)).0 })
reachable-InStep_example =
    reachable-InStep (some "remote") "fazia1" "all" first_report 2 idle false quiet_writer refl (
      after (after (after here (request 5 (some to_ready))) (command 6 configure))
        (stored 7 (1 ∷ []) 0 0))

value_ready : state_of_value "ready" ≡ some ready
unfolding state_of_value
value_ready = refl

denied-IsError : IsError (handle_request 5 (some to_ready) local_node).1
unfolding handle_request write_rc
denied-IsError = λ e. cc

handle_request-IsError_example : (handle_request 5 (some to_ready) local_node).0 ≡ local_node
handle_request-IsError_example = handle_request-IsError 5 (some to_ready) local_node denied-IsError
