-- ===== src/Cli/Tests.antt =====
-- The controller's command line with two nodes, and the theorems at it.
use fz_daq.Prelude.{◌≡◌, refl, [], ◌∷◌, false, none, some, same, arith, inl, if◌then◌else◌, String}
use fz_daq.Rc.{rc_error, RcState, idle, ready, running, paused, rc_ok}
use fz_daq.Rcs.{Request, Response, answer, rcs_ok, rcs_err}
use fz_daq.Node.{label}
use fz_daq.Node.Report.{NodeReport}
use fz_daq.Controller.{
  Controller, Outside, IsFaithful, Reply, response, lower_label, handle_request, route,
  send_unicast,
}
use fz_daq.Cli.{send_start, send_setup, succeeded, refused, setup_write}
use fz_daq.Cli.Control.{controller_service, Started, send_start-Started, send_start-refused}

abbrev report_of : String → NodeReport
report_of host = record {
  hostname = host;
  profile = "all";
  status = "IDLE";
  parser_num = 0;
  consumer_ip = "";
  reader = none;
  parsers = [];
  fsms = [];
  writer = none;
}

abbrev control : Controller
control = record {
  node_map = record {
    nodes = ("fazia1", report_of "fazia1") ∷ ("fazia2", report_of "fazia2") ∷ [];
    deque = ("fazia2", 100) ∷ ("fazia1", 95) ∷ [];
  };
  rc_fsm = record { curstate = idle; lasterr = rc_ok };
}

-- Messages are the requests themselves, and no node replies.
abbrev plain : Outside Request
plain = record {
  request_bytes = λ q. q;
  parse_request = λ q. some q;
  is_empty = λ q. false;
  to_lower = λ s.
      if same s "IDLE"
      then "idle"
      else if same s "READY"
      then "ready"
      else if same s "RUNNING"
      then "running"
      else if same s "PAUSED"
      then "paused"
      else s;
  exchange = λ h q. none;
}

lowered : (s : RcState) → plain.to_lower (label s) ≡ lower_label s
lowered idle = refl
lowered ready = refl
lowered running = refl
lowered paused = refl

plain-IsFaithful : IsFaithful plain
plain-IsFaithful = record { parse-bytes = λ q. refl; lower = lowered }

abbrev other : Reply Request → Response
other r = answer rcs_ok ""

send_start-Started_example :
    Started plain control [] (send_start (controller_service plain other) "fazia0" (control, []))
send_start-Started_example =
    send_start-Started plain other "fazia0" control [] plain-IsFaithful (omega arith) (inl refl)

abbrev configured : Controller
configured = record control { rc_fsm = record { curstate = ready; lasterr = rc_ok } }

send_start-refused_example :
    send_start (controller_service plain other) "fazia0" (configured, []) ≡ (
      (record configured { rc_fsm = record configured.rc_fsm { lasterr = rc_error } }, []),
      refused "wrong requested RC transition" ∷ [],
    )
send_start-refused_example =
    send_start-refused plain other "fazia0" configured [] (omega arith) (inl refl)

-- No node manager replies: the controller answers `store` with an error, and its command line says
-- that it was done.
store_unheard :
    ((handle_request plain (some (setup_write "fazia0" "store")) control).2
      ≡ response (answer rcs_err "destination hostname not available"))
    × (send_setup (controller_service plain other) "fazia0" "store" (control, [])
        ≡ ((control, []), succeeded "store" ∷ []))
unfolding send_setup setup_write handle_request route send_unicast
store_unheard = (refl, refl)
