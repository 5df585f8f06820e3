-- ===== src/Controller.antt =====
-- The controller: class FzController of src/controller/, its run control service of
-- src/controller/rcs.cpp over the nodes that it knows.
pub mod Map
mod Loops
mod Entries
pub mod Sync
mod Times
pub mod Events
pub mod Nodes
mod Tests
use fz_daq.Prelude.{
  ℕ, ◌≡◌, List, [], ◌∷◌, map, Bool, true, false, not, Option, none, some, String, same,
  if◌then◌else◌, ltb, length,
}
use fz_daq.Rc.{
  RcCommand, RcState, RcTransition, RcFsm, configure, start, stop, reset, idle, ready, running,
  paused, rc_error, rc_ok,
}
use fz_daq.Rc
use fz_daq.Rcs.{
  Channel, Operation, Module, Request, Response, RcsNode, rc, setup, read, write, rd, psr, wr, nm,
  cnt, rcs_ok, rcs_err, answer,
}
use fz_daq.Node.{label}
use fz_daq.Node.Report.{NodeReport}
use fz_daq.Controller.Map.{NodeMap}

pub record Controller : Type 0 where
  pub node_map : NodeMap
  pub rc_fsm : RcFsm

-- What the service uses of other code: the protobuf encoding of requests, boost's to_lower, and a
-- request over the network and its reply, if both pass within the timeouts. `W` is the type of
-- messages.
pub record Outside (W : Type 0) : Type 0 where
  pub request_bytes : Request → W
  pub parse_request : W → Option Request
  pub is_empty : W → Bool
  pub to_lower : String → String
  pub exchange : String → W → Option W

-- The names of the states in small letters.
abbrev pub lower_label : RcState → String
lower_label idle = "idle"
lower_label ready = "ready"
lower_label running = "running"
lower_label paused = "paused"

-- A request that is encoded is parsed as itself, and to_lower turns the labels into small letters.
pub record IsFaithful {W : Type 0} (o : Outside W) : Type 0 where
  pub parse-bytes : (q : Request) → o.parse_request (o.request_bytes q) ≡ some q
  pub lower : (s : RcState) → o.to_lower (label s) ≡ lower_label s

-- A reply is a response, for the performance data a Report::NodeSet, or what a node replied.
pub data Reply (W : Type 0) : Type 0 where
  response : Response → Reply W
  node_set : List NodeReport → Reply W
  routed : W → Reply W

-- The controller after a request, the messages pushed to hosts, in order, and the reply.
abbrev pub Handled : Type 0 → Type 0
Handled W = Controller × List (String × W) × Reply W

abbrev pub refuse : {W : Type 0} → String → Controller → Handled W
refuse reason c = (c, [], response (answer rcs_err reason))

unfoldable pub node_status : List (String × NodeReport) → List RcsNode
node_status [] = []
node_status ((k, r) ∷ m) =
    record { hostname = r.hostname; profile = r.profile; status = r.status } ∷ node_status m

unfoldable pub reports : List (String × NodeReport) → List NodeReport
reports [] = []
reports ((k, r) ∷ m) = r ∷ reports m

unfoldable pub read_rc : {W : Type 0} → Request → Controller → Handled W
unfolding node_status reports
read_rc q c =
    if same q.variable "status"
    then (c, [], response (record (answer rcs_ok "OK") { value = label c.rc_fsm.curstate }))
    else if same q.variable "nodestatus"
    then (c, [], response (record (answer rcs_ok "OK") { nodes = node_status c.node_map.nodes }))
    else if same q.variable "perfdata"
    then (c, [], node_set (reports c.node_map.nodes))
    else refuse "variable not found" c

unfoldable pub event_of_value : String → Option RcCommand
event_of_value v =
    if same v "reset"
    then some reset
    else if same v "configure"
    then some configure
    else if same v "start"
    then some start
    else if same v "stop"
    then some stop
    else none

-- The machine's outcome: a value that names no event leaves RCOK, with which `rct` begins.
abbrev pub try_event : Option RcCommand → RcFsm → RcFsm × RcTransition
try_event none r = (r, rc_ok)
try_event (some e) r = Rc.process r e

-- The message is pushed to the host that each report names.
unfoldable pub push_broadcast : {W : Type 0} → W → List (String × NodeReport) → List (String × W)
push_broadcast bytes [] = []
push_broadcast bytes ((k, r) ∷ m) = (r.hostname, bytes) ∷ push_broadcast bytes m

abbrev pub status_request : {W : Type 0} → Outside W → RcState → Request → Request
status_request o s q = record q {
  module_of = nm;
  variable = "status";
  value = o.to_lower (label s);
}

abbrev pub is_error : RcTransition → Bool
is_error rc_error = true
is_error rc_ok = false

unfoldable pub write_rc : {W : Type 0} → Outside W → Request → Controller → Handled W
unfolding event_of_value push_broadcast
write_rc o q c =
    if not (same q.variable "event")
    then refuse "variable not found" c
    else if not (ltb 0 (length c.node_map.nodes))
    then refuse "no DAQ node available" c
    else (let (fsm, rct) = try_event (event_of_value q.value) c.rc_fsm in
        let d = record c { rc_fsm = fsm } in
        let bytes = o.request_bytes (status_request o fsm.curstate q) in
        if is_error rct then refuse "wrong requested RC transition" d else (
          d,
          push_broadcast bytes c.node_map.nodes,
          response (answer rcs_ok "RC transition ok"),
        ))

abbrev pub to_self :
    {W : Type 0} → Outside W → Channel → Operation → Request → Controller → Handled W
to_self o rc read q c = read_rc q c
to_self o rc write q c = write_rc o q c
to_self o setup op q c = refuse "request format error" c

-- The reply, if there is one and it is not empty.
unfoldable pub send_unicast : {W : Type 0} → Outside W → String → W → Option W
send_unicast o host bytes = elim (o.exchange host bytes) [
  | none ↦ none
  | some reply ↦ if o.is_empty reply then none else some reply
]

unfoldable pub route : {W : Type 0} → Outside W → Request → Controller → Handled W
unfolding send_unicast
route o q c =
    if same q.hostname ""
    then refuse "destination hostname not present" c
    else elim (send_unicast o q.hostname (o.request_bytes q)) [
      | some reply ↦ (c, [], routed reply)
      | none ↦ refuse "destination hostname not available" c
    ]

abbrev pub by_module : {W : Type 0} → Outside W → Module → Request → Controller → Handled W
by_module o cnt q c = to_self o q.channel q.operation q c
by_module o nm q c = route o q c
by_module o _ q c = refuse "request format error" c

-- The request is what ParseFromArray makes of the message, if it accepts it; it then has a module,
-- which is a required field.
unfoldable pub handle_request : {W : Type 0} → Outside W → Option Request → Controller → Handled W
unfolding read_rc write_rc route
handle_request o none c = refuse "request deserialization error" c
handle_request o (some q) c = by_module o q.module_of q c
