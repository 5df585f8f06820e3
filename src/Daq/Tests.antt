-- ===== src/Daq/Tests.antt =====
-- Programs with concrete nodes and lines, and the theorems at them.
use fz_daq.Prelude.{
  ℕ, ◌*◌, ◌<◌, ◌≡◌, inl, refl, List, [], ◌∷◌, true, false, none, some, String, ok, err, dangling,
  arith, same, Gives, Returns, if◌then◌else◌,
}
use fz_daq.Rc.{start, idle, running, rc_ok}
use fz_daq.Writer.{RunTag, Writer, set_eventfilesize, set_eventdirsize, set_store}
use fz_daq.Node.{NodeManager, rc_state, new_node, handle_request}
use fz_daq.Node.Report.{NodeReport}
use fz_daq.Node.InStep.{InStep}
use fz_daq.Utils.{urlparse, devtoip, find_host, next_host}
use fz_daq.Daq.{
  Console, Turn, succeeded, failed, run_line, run_lines, command_of, run_command, do_command,
  keep_line, record_by, store_by, writes_on_disk,
}
use fz_daq.Daq.Commands.{Fits, After}
use fz_daq.Daq.Lines.{asked, run_line-After}
use fz_daq.Daq.Control.{was_running, Untouched, start_line, remote_line}
use fz_daq.Daq.Ends.{Ended, run_lines-Ended}
use fz_daq.Daq.Session.{Session, begun, typed, asked_by, program-Fits, begin_sizes}
use fz_daq.Daq.Setup.{
  Cfg, Options, read, System, Plan, StoragePlan, go, plan_of, begin, sized, set_sizes, choose_role,
  role_of, plan_chosen, event_format, format_of, with_format, plan_parts, plan_compute,
  plan_storage, with_device,
}
use fz_daq.Daq.Setup.Plans.{Goes, Planned, plan_of-Planned}

-- A tag of which nothing is asked.
abbrev unread : RunTag
unread = record { run_name = λ n. "run"; number_in = λ name. none }

abbrev quiet_writer : Writer
quiet_writer = record {
  runtag = unread;
  event_file_size = 100;
  event_dir_size = 1000;
  esize = 0;
  dsize = 0;
  fileid = 1;
  dirid = 2;
  dirstr = "run000001";
  firstrun = false;
  start_newdir = true;
  storing = true;
  rcstate = idle;
  report = record { in_bytes = 0; out_bytes = 0; in_events = 0; out_events = 0 };
  dirs = "run000001" ∷ [];
  files = [];
  spied = [];
}

abbrev first_report : NodeReport
first_report = record {
  hostname = "";
  profile = "";
  status = "";
  parser_num = 0;
  consumer_ip = "";
  reader = none;
  parsers = [];
  fsms = [];
  writer = none;
}

abbrev local_node : NodeManager
local_node = record {
  hostname = "fazia1";
  profile = "all";
  rcmode = "local";
  rc_fsm = record { curstate = idle; lasterr = rc_ok };
  state = idle;
  reader = idle;
  recording = false;
  parsers = idle ∷ idle ∷ [];
  writer = quiet_writer;
  nodereport = first_report;
  report_init = false;
  pushed = [];
}

abbrev console : Console
console = record {
  profile = "all";
  iscompute = true;
  isstorage = true;
  nthreads = 2;
  nm = local_node;
  rec = false;
  lastcmd = "";
}

console-Fits : Fits console
unfolding rc_state
console-Fits = record {
  step = record {
    mode = inl refl;
    reading = λ _. refl;
    parsing = λ _. (refl, (refl, tt));
    writing = λ _. refl;
  };
  profile = refl;
  compute = refl;
  storage = refl;
  parsers = λ e. cc;
  fsms = λ e. cc;
}

-- A program that only stores.
abbrev storing : Console
storing = record console {
  profile = "storage";
  iscompute = false;
  nm = record local_node { profile = "storage"; parsers = [] };
  lastcmd = "rec";
}

storing-Fits : Fits storing
unfolding rc_state
storing-Fits = record {
  step = record { mode = inl refl; reading = λ e. cc; parsing = λ e. cc; writing = λ _. refl };
  profile = refl;
  compute = refl;
  storage = refl;
  parsers = λ e. cc;
  fsms = λ e. cc;
}

-- `rec` uses the pointer to a reader that the profile has not.
rec_dangling : run_line 5 "rec" storing ≡ err dangling
unfolding run_line command_of run_command do_command record_by
rec_dangling = refl

run_line-After_example : After (asked "r" storing) storing (run_line 5 "r" storing)
run_line-After_example = run_line-After 5 "r" storing storing-Fits

start_line_example :
    Gives
      (λ t.
        InStep t.console.nm
        × (rc_state t.console.nm ≡ running)
        × (t.left ≡ false)
        × (t.shown
            ≡ (if was_running (rc_state console.nm) then failed start else succeeded start) ∷ []))
      (run_line 7 "start" console)
start_line_example = start_line 7 console console-Fits refl

abbrev remote : Console
remote = record console { nm = record local_node { rcmode = "remote" } }

remote_line_example :
    Returns (λ t. Untouched (asked "start" remote) remote t.console) (run_line 7 "start" remote)
remote_line_example = remote_line 7 "start" remote refl

abbrev lines : List (ℕ × String)
lines = (1, "start") ∷ (2, "r") ∷ (3, "stats") ∷ (4, "rec") ∷ (5, "what") ∷ (6, "quit") ∷ []

run_lines-Ended_example : Gives (λ r. Ended r.0) (run_lines 9 lines console)
run_lines-Ended_example = run_lines-Ended 9 lines console console-Fits refl

-- A configuration, a machine with one interface, and the options.
abbrev cfg : Cfg
cfg = record {
  text = λ path.
      if same path "fzdaq.global.evformat"
      then some "tag"
      else if same path "fzdaq.fzwriter.subdir"
      then some "/data"
      else none;
  number = λ path. if same path "fzdaq.fzwriter.runid" then some 12 else none;
}

abbrev machine : System
machine = record {
  sscanf = λ url. some ("eth0", 50000);
  interfaces =
      some
        (record { name = "eth0"; has_address = true; is_inet = true; host = some "10.0.0.2" } ∷ []);
  unset = "?";
}

abbrev options : Options
options = record { cfg = some (read cfg); profile = some "all" }

abbrev storage_plan : StoragePlan
storage_plan = record { subdir = "/data"; runtag = "run"; runid = 12; esize = 10; dsize = 100 }

abbrev plan : Plan
plan = record {
  role = record { profile = "all"; iscompute = true; isstorage = true };
  evformat = 1;
  compute = some (record { netdev = "eth0"; devip = "10.0.0.2"; port = 50000; nthreads = 1 });
  storage = some storage_plan;
}

planned : plan_of machine options ≡ ok (go plan)
unfolding plan_of choose_role role_of plan_chosen event_format format_of with_format plan_parts
    plan_compute plan_storage with_device urlparse devtoip find_host next_host
planned = refl

plan_of-Planned_example : Returns (Goes (Planned options)) (plan_of machine options)
plan_of-Planned_example = plan_of-Planned machine options

begin_sizes_example :
    Goes
      (λ c.
        (c.nm.writer.event_file_size ≡ 10 * 1000000)
        × (c.nm.writer.event_dir_size ≡ 100 * 1000000)
        × (c.nm.writer.event_file_size < c.nm.writer.event_dir_size))
      (begin none "fazia1" first_report 0 idle false quiet_writer plan)
begin_sizes_example =
    begin_sizes none "fazia1" first_report 0 idle false quiet_writer plan storage_plan refl
      (omega arith)

-- What the program starts as.
abbrev starting : Console
starting = record {
  profile = "all";
  iscompute = true;
  isstorage = true;
  nthreads = 1;
  nm =
      new_node none "fazia1" "all" first_report 1 idle false
        (set_eventdirsize 100000000 (set_eventfilesize 10000000 quiet_writer));
  rec = false;
  lastcmd = "";
}

starts : begin none "fazia1" first_report 0 idle false quiet_writer plan ≡ go starting
unfolding begin sized set_sizes
starts = refl

-- The line `nostore`, and a message that asks for nothing.
abbrev nostored : Turn
nostored = record {
  console = record starting {
    nm = record starting.nm { writer = set_store false starting.nm.writer };
    lastcmd = "nostore";
  };
  shown = writes_on_disk ∷ [];
  left = false;
}

nostore_typed : run_line 2 "nostore" starting ≡ ok nostored
unfolding run_line command_of run_command do_command keep_line store_by new_node
nostore_typed = refl

abbrev answered : Console
answered = record nostored.console { nm = (handle_request 3 none nostored.console.nm).0 }

session : Session starting answered
session = asked_by 3 none (typed 2 "nostore" nostored begun nostore_typed)

program-Fits_example : Fits answered
program-Fits_example =
    program-Fits machine options plan none "fazia1" first_report 0 idle false quiet_writer starting
      answered planned refl starts session

-- At 4295 million bytes the product passes 32 bits: a file of 32704 bytes.
sizes_wrap :
    set_sizes (record storage_plan { esize = 4295; dsize = 5000 }) quiet_writer
    ≡ go (record quiet_writer { event_file_size = 32704; event_dir_size = 705032704 })
unfolding set_sizes set_eventfilesize set_eventdirsize
sizes_wrap = refl
