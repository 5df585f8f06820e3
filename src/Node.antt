-- ===== src/Node.antt =====
-- The node manager: class FzNodeManager of src/nodemanager/FzNodeManager.cpp, over the threads that
-- it drives.
pub mod Report
pub mod InStep
pub mod Reach
pub mod Answers
mod Rates
mod Tests
use fz_daq.Prelude.{
  ℕ, ◌≡◌, List, [], ◌∷◌, ◌++◌, map, Bool, true, false, ◌&&◌, ◌||◌, not, Option, none, some, String,
  same, if◌then◌else◌, length, replicate,
}
use fz_daq.Rc.{
  RcCommand, RcState, RcTransition, RcFsm, configure, start, stop, reset, idle, ready, running,
  paused, rc_error, rc_ok,
}
use fz_daq.Rc
use fz_daq.Rcs.{
  Channel, Operation, Module, Request, Response, ErrorCode, rc, setup, read, write, rd, psr, wr, nm,
  cnt, rcs_ok, rcs_err, rcs_deny, answer,
}
use fz_daq.Writer.{Writer, set_rcstate, set_store}
use fz_daq.Node.Report.{
  NodeReport, Reading, reader_traffic, parsers_traffic, fsms_traffic, writer_traffic,
}

-- The members, with the state that each thread is in: `reader` and `parsers` are the states of the
-- reader and of the parsers, `recording` is the reader's flag `rec`, and `writer` is the whole writer.
-- `pushed` holds the reports sent to the
-- controller, in order.
pub record NodeManager : Type 0 where
  pub hostname : String
  pub profile : String
  pub rcmode : String
  pub rc_fsm : RcFsm
  pub state : RcState
  pub reader : RcState
  pub recording : Bool
  pub parsers : List RcState
  pub writer : Writer
  pub nodereport : NodeReport
  pub report_init : Bool
  pub pushed : List NodeReport

abbrev pub is_local : NodeManager → Bool
is_local m = same m.rcmode "local"

abbrev pub is_remote : NodeManager → Bool
is_remote m = same m.rcmode "remote"

-- (profile == "compute") || (profile == "all")
abbrev pub computes : NodeManager → Bool
computes m = same m.profile "compute" || same m.profile "all"

abbrev pub stores : NodeManager → Bool
stores m = same m.profile "storage" || same m.profile "all"

-- What the constructor does with the mode that the configuration has, if it has one.
unfoldable pub configured_mode : Option String → String
configured_mode none = "local"
configured_mode (some mode) =
    if not (same mode "local") && not (same mode "remote") then "local" else mode

-- The node that the constructor makes of threads that are new, with the writer that it is given;
-- `unset` is what the state holds in local mode, in which it is not set, and `recording`
-- the reader's flag, which its constructor does not set.
unfoldable pub new_node :
    Option String → String → String → NodeReport → ℕ → RcState → Bool → Writer → NodeManager
unfolding configured_mode
new_node mode host prof empty_report nparsers unset recording w =
    let rcmode = configured_mode mode in
    record {
      hostname = host;
      profile = prof;
      rcmode = rcmode;
      rc_fsm = Rc.init;
      state = if same rcmode "remote" then idle else unset;
      reader = idle;
      recording = recording;
      parsers = replicate nparsers idle;
      writer = w;
      nodereport = empty_report;
      report_init = false;
      pushed = [];
    }

unfoldable pub rc_state : NodeManager → RcState
rc_state m = if is_remote m then m.state else m.rc_fsm.curstate

abbrev pub set_threads : RcState → NodeManager → NodeManager
set_threads s m = record m { reader = s; parsers = map (λ _. s) m.parsers }

-- `now` is the time at which the writer would open a file.
unfoldable pub rc_state_do : ℕ → RcState → NodeManager → NodeManager
rc_state_do now s m =
    let t = if computes m then set_threads s m else m in
    if stores m then record t { writer = set_rcstate now s t.writer } else t

unfoldable pub rc_event_do : ℕ → NodeManager → NodeManager
rc_event_do now m =
    let s = m.rc_fsm.curstate in
    let t = if computes m && is_local m then set_threads s m else m in
    if stores m && is_local m then record t { writer = set_rcstate now s t.writer } else t

abbrev pub is_reset : RcCommand → Bool
is_reset reset = true
is_reset _ = false

abbrev pub is_ok : RcTransition → Bool
is_ok rc_ok = true
is_ok rc_error = false

abbrev pub same_state : RcState → RcState → Bool
same_state idle idle = true
same_state ready ready = true
same_state running running = true
same_state paused paused = true
same_state _ _ = false

unfoldable pub rc_process : ℕ → RcCommand → NodeManager → NodeManager × RcTransition
unfolding rc_event_do
rc_process now c m =
    let (fsm, trans_err) = Rc.process m.rc_fsm c in
    let t = record m { rc_fsm = fsm } in
    let moved = not (same_state fsm.curstate m.rc_fsm.curstate) in
    (if is_reset c || (is_ok trans_err && moved) then rc_event_do now t else t, fsm.lasterr)

-- `state_labels`
abbrev pub label : RcState → String
label idle = "IDLE"
label ready = "READY"
label running = "RUNNING"
label paused = "PAUSED"

-- The value of a request to change the state.
unfoldable pub state_of_value : String → Option RcState
state_of_value v =
    if same v "idle"
    then some idle
    else if same v "ready"
    then some ready
    else if same v "running"
    then some running
    else if same v "paused"
    then some paused
    else none

-- A reply is a response, or for the performance data the report itself.
pub data NodeReply : Type 0 where
  response : Response → NodeReply
  perfdata : NodeReport → NodeReply

abbrev bad_format : Response
bad_format = answer rcs_err "request format error"

abbrev not_found : Response
not_found = answer rcs_err "variable not found"

abbrev granted : Response
granted = answer rcs_ok "OK"

unfoldable pub read_rc : Request → NodeManager → NodeReply
unfolding rc_state
read_rc q m =
    if same q.variable "status"
    then response (record granted { value = label (rc_state m) })
    else if same q.variable "mode"
    then response (record granted { value = m.rcmode })
    else if same q.variable "perfdata"
    then perfdata m.nodereport
    else response not_found

-- `state = …; rc_state_do(state);`
abbrev pub enter_state : ℕ → RcState → NodeManager → NodeManager
enter_state now s m = rc_state_do now s (record m { state = s })

unfoldable pub write_rc : ℕ → Request → NodeManager → NodeManager × NodeReply
unfolding rc_state_do state_of_value
write_rc now q m =
    if not (is_remote m)
    then (m, response (answer rcs_deny "FzDAQ Run Control set to local mode"))
    else if not (same q.variable "status")
    then (m, response not_found)
    else elim (state_of_value q.value) [
      | none ↦ (m, response (answer rcs_err "status value not correct"))
      | some s ↦ (enter_state now s m, response granted)
    ]

unfoldable pub write_setup : Request → NodeManager → NodeManager × NodeReply
write_setup q m =
    if not (stores m)
    then (m, response bad_format)
    else if same q.variable "store"
    then (record m { writer = set_store true m.writer }, response granted)
    else if same q.variable "nostore"
    then (record m { writer = set_store false m.writer }, response granted)
    else (m, response bad_format)

abbrev pub by_channel : ℕ → Channel → Operation → Request → NodeManager → NodeManager × NodeReply
by_channel now rc read q m = (m, read_rc q m)
by_channel now rc write q m = write_rc now q m
by_channel now setup read q m = (m, response bad_format)
by_channel now setup write q m = write_setup q m

abbrev pub is_nm : Module → Bool
is_nm nm = true
is_nm _ = false

-- The request is what ParseFromArray makes of the message, if it accepts it.
unfoldable pub handle_request : ℕ → Option Request → NodeManager → NodeManager × NodeReply
unfolding read_rc write_rc write_setup
handle_request now none m = (m, response (answer rcs_err "request deserialization error"))
handle_request now (some q) m =
    if not (is_nm q.module_of)
    then (m, response (answer rcs_err "module destination error"))
    else by_channel now q.channel q.operation q m

-- The fields of every report, those of a node that computes, and those of one that stores.
abbrev pub begin_report : NodeManager → NodeReport
begin_report m = record m.nodereport {
  hostname = m.hostname;
  profile = m.profile;
  status = label (rc_state m);
  parser_num = length m.parsers;
}

unfoldable pub compute_report : Reading → Reading → NodeReport → NodeReport
unfolding reader_traffic parsers_traffic fsms_traffic
compute_report t0 t1 r = record r {
  consumer_ip = t1.consumer_ip;
  reader = some (reader_traffic t1.reader t0.reader);
  parsers = parsers_traffic t1.parsers t0.parsers;
  fsms = fsms_traffic t1.parsers t0.parsers;
}

unfoldable pub storage_report : Bool → Reading → Reading → NodeReport → NodeReport
unfolding writer_traffic
storage_report storing t0 t1 r = record r {
  writer = some (writer_traffic storing t1.writer t0.writer);
}

-- One round of `process_perfdata`, with the readings before and after its second of sleep; the
-- status is read before it.
unfoldable pub perfdata_round : Reading → Reading → NodeManager → NodeManager
unfolding rc_state compute_report storage_report
perfdata_round t0 t1 m =
    let r0 = begin_report m in
    let r1 = if computes m then compute_report t0 t1 r0 else r0 in
    let r2 = if stores m then storage_report m.writer.storing t0 t1 r1 else r1 in
    record m { nodereport = r2; pushed = m.pushed ++ r2 ∷ []; report_init = true }
