-- ===== src/Cli.antt =====
-- The command line of the controller: `process_cli` of src/controller/cli.cpp, over the service that
-- answers its requests.
pub mod Table
mod Control
mod Tests
use fz_daq.Prelude.{
  ℕ, List, [], ◌∷◌, ◌++◌, Bool, true, false, not, Option, none, some, String, same, if◌then◌else◌,
  Result, ok, err, ◌>>=◌,
}
use fz_daq.Rcs.{
  Request, Response, RcsNode, ErrorCode, rc, setup, read, write, nm, cnt, rcs_ok, rcs_err, rcs_deny,
  answer,
}
use fz_daq.Node.Report.{NodeReport}
use fz_daq.Cli.Table.{Printed, print_status_table}

-- What answers on the host's run control port: `S` is its state and `W` the type of messages; a
-- request that is sent with `send_unicast`, and what the reply is parsed as.
pub record Service (S W : Type 0) : Type 0 where
  pub ask : Request → S → S × Option W
  pub to_rcsres : W → Response
  pub to_report : W → List NodeReport

-- What is written to the terminal.
pub data Said : Type 0 where
  usage : Said
  succeeded : String → Said
  refused : String → Said
  send_failed : String → Said
  controller_status : String → Said
  node_status : String → String → String → Bool → Said
  table : List Printed → Said
  command_not_found : Said

-- The requests and replies are cleared after each line, and are kept here only within one.
pub record Cli (S : Type 0) : Type 0 where
  pub hostname : String
  pub lastcmd : String
  pub service : S

abbrev pub is_code_ok : ErrorCode → Bool
is_code_ok rcs_ok = true
is_code_ok _ = false

unfoldable pub prepare_rcwrite : String → String → Request
prepare_rcwrite host value = record {
  channel = rc;
  operation = write;
  module_of = cnt;
  hostname = host;
  variable = "event";
  value = value;
}

unfoldable pub rc_read : String → String → Request
rc_read host variable = record {
  channel = rc;
  operation = read;
  module_of = cnt;
  hostname = host;
  variable = variable;
  value = "";
}

unfoldable pub setup_write : String → String → Request
setup_write host variable = record {
  channel = setup;
  operation = write;
  module_of = nm;
  hostname = host;
  variable = variable;
  value = "";
}

module _ {S W : Type 0} (o : Service S W) where
  -- What is said of a reply, or of none.
  abbrev pub said_of : String → Option W → List Said
  said_of value none = send_failed value ∷ []
  said_of value (some w) =
      if is_code_ok (o.to_rcsres w).errorcode
      then succeeded value ∷ []
      else refused (o.to_rcsres w).reason ∷ []

  unfoldable pub send_rc_event : String → String → S → S × List Said
  unfolding prepare_rcwrite
  send_rc_event host value s =
      let (t, reply) = o.ask (prepare_rcwrite host value) s in (t, said_of value reply)

  -- What follows the reply to `configure`.
  unfoldable pub then_start : String → S × Option W → S × List Said
  unfolding send_rc_event
  then_start host (s, none) = (s, send_failed "configure" ∷ [])
  then_start host (s, some w) =
      if is_code_ok (o.to_rcsres w).errorcode
      then send_rc_event host "start" s
      else (s, refused (o.to_rcsres w).reason ∷ [])

  unfoldable pub send_start : String → S → S × List Said
  unfolding then_start prepare_rcwrite
  send_start host s = then_start host (o.ask (prepare_rcwrite host "configure") s)

  -- A node that is not in the controller's state is marked.
  abbrev pub list_nodes : String → List RcsNode → List Said
  list_nodes daqstatus [] = []
  list_nodes daqstatus (n ∷ ns) =
      node_status n.hostname n.profile n.status (not (same n.status daqstatus))
      ∷ list_nodes daqstatus ns

  -- `daqstatus`, which is empty without a reply of the controller, and what is said of it.
  unfoldable pub read_status : Option W → String × List Said
  read_status none = ("", send_failed "reset" ∷ [])
  read_status (some w) =
      let res = o.to_rcsres w in
      if is_code_ok res.errorcode
      then (res.value, controller_status res.value ∷ [])
      else ("", refused res.reason ∷ [])

  unfoldable pub read_nodes : String → Option W → List Said
  read_nodes daqstatus none = send_failed "status" ∷ []
  read_nodes daqstatus (some w) =
      let res = o.to_rcsres w in
      if is_code_ok res.errorcode then list_nodes daqstatus res.nodes else refused res.reason ∷ []

  unfoldable pub send_status : String → S → S × List Said
  unfolding rc_read read_status read_nodes
  send_status host s =
      let (t, first) = o.ask (rc_read host "status") s in
      let (daqstatus, said) = read_status first in
      let (u, second) = o.ask (rc_read host "nodestatus") t in
      (u, said ++ read_nodes daqstatus second)

  abbrev pub table_of : S × Option W → Result (S × List Said)
  table_of (s, none) = ok (s, send_failed "stats" ∷ [])
  table_of (s, some w) = print_status_table (o.to_report w) >>= λ lines. ok (s, table lines ∷ [])

  unfoldable pub send_stats : String → S → Result (S × List Said)
  unfolding rc_read
  send_stats host s = table_of (o.ask (rc_read host "perfdata") s)

  -- The reply is not parsed: `res` is still clear, and a clear response has the code OK.
  abbrev pub said_of_setup : String → Option W → List Said
  said_of_setup variable none = send_failed "SETUP" ∷ []
  said_of_setup variable (some w) = succeeded variable ∷ []

  unfoldable pub send_setup : String → String → S → S × List Said
  unfolding setup_write
  send_setup host variable s =
      let (t, reply) = o.ask (setup_write host variable) s in (t, said_of_setup variable reply)

  -- The tests of a line, and what it does; `none` if it is no command, or `quit`.
  unfoldable pub do_line : String → String → S → Option (Result (S × List Said))
  unfolding send_rc_event send_start send_status send_stats send_setup
  do_line host line s =
      if same line "help"
      then some (ok (s, usage ∷ []))
      else if same line "configure"
      then some (ok (send_rc_event host "configure" s))
      else if same line "start"
      then some (ok (send_start host s))
      else if same line "stop"
      then some (ok (send_rc_event host "stop" s))
      else if same line "reset"
      then some (ok (send_rc_event host "reset" s))
      else if same line "status"
      then some (ok (send_status host s))
      else if same line "stats"
      then some (send_stats host s)
      else if same line "store"
      then some (ok (send_setup host "store" s))
      else if same line "nostore"
      then some (ok (send_setup host "nostore" s))
      else none

  -- The end of a line that is accepted: the prompt's state and what was written.
  abbrev pub accept : String → Cli S → Result (S × List Said) → Result (Cli S × List Said)
  accept line c r = r >>= λ (s, said). ok (record c { lastcmd = line; service = s }, said)

  abbrev pub typed : String → Cli S → Option (Result (S × List Said)) → Result (Cli S × List Said)
  typed line c (some r) = accept line c r
  typed line c none = ok (c, command_not_found ∷ [])

  abbrev pub typed_again :
      String → Cli S → Option (Result (S × List Said)) → Result (Cli S × List Said)
  typed_again line c (some r) = accept line c r
  typed_again line c none = ok (c, [])

  -- A line that is not `quit`, which leaves the loop.
  unfoldable pub process_line : String → Cli S → Result (Cli S × List Said)
  unfolding do_line
  process_line line c =
      if same line ""
      then ok (c, [])
      else if same line "r"
      then typed_again c.lastcmd c (do_line c.hostname c.lastcmd c.service)
      else typed line c (do_line c.hostname line c.service)

  -- The lines that are read, until `quit` or the input's end.
  unfoldable pub process_cli : List String → Cli S → Result (Cli S × List Said)
  unfolding process_line
  process_cli [] c = ok (c, [])
  process_cli (line ∷ lines) c =
      let rest = process_line line c >>= λ r. process_cli lines r.0 >>= λ q. ok (q.0, r.1 ++ q.1) in
      if same line "quit" then ok (c, []) else rest
