-- ===== src/Weblog/Tests.antt =====
-- A web log of two nodes, and the theorems at it.
use fz_daq.Prelude.{ℕ, ◌≡◌, refl, List, [], ◌∷◌, none, some, arith, Gives}
use fz_daq.Node.Report.{NodeReport, Traffic, FsmTraffic}
use fz_daq.Weblog.{Post, number, new_post, send_post, weblog_round, writer_fields}
use fz_daq.Weblog.Lines.{Row}
use fz_daq.Weblog.Runs.{post_rows, Posted, post_rows-Posted}
use fz_daq.Weblog.Rounds.{Round, writer_rows, weblog_round-Round}

abbrev empty_post : Post
empty_post = record {
  max_php = 12;
  user = "fazia";
  category = "";
  pairs_per_line = 0;
  line_number = 0;
  post_pairs = 0;
  form = [];
  posted = [];
}

abbrev traffic : Traffic
traffic = record {
  in_bytes = 10;
  in_bytes_bw = 1;
  out_bytes = 20;
  out_bytes_bw = 2;
  in_events = 3;
  in_events_bw = 1;
  out_events = 4;
  out_events_bw = 1;
}

abbrev machine : FsmTraffic
machine = record {
  traffic = traffic;
  state_invalid = 1;
  events_empty = 2;
  events_good = 3;
  events_bad = 4;
}

abbrev node1 : NodeReport
node1 = record {
  hostname = "fazia1";
  profile = "compute";
  status = "RUNNING";
  parser_num = 1;
  consumer_ip = "";
  reader = some traffic;
  parsers = traffic ∷ [];
  fsms = machine ∷ [];
  writer = none;
}

abbrev node2 : NodeReport
node2 = record node1 {
  hostname = "fazia2";
  profile = "storage";
  parser_num = 0;
  reader = none;
  writer = some traffic;
}

-- With the node that stores behind the one that computes its row is posted twice, and in the other
-- order not at all.
rows_doubled :
    (writer_rows (node1 ∷ node2 ∷ []) node2
      ≡ writer_fields "fazia2" traffic ∷ writer_fields "fazia2" traffic ∷ [])
    × (writer_rows (node2 ∷ node1 ∷ []) node1 ≡ [])
rows_doubled = (refl, refl)

abbrev short : ℕ → Row
short n = ("a", number n) ∷ ("b", number 0) ∷ []

abbrev six : List Row
six = short 1 ∷ short 2 ∷ short 3 ∷ short 4 ∷ short 5 ∷ short 6 ∷ []

post_rows-Posted_example :
    Posted "daq_reader" six empty_post
      (send_post (post_rows "daq_reader" six (new_post empty_post)))
post_rows-Posted_example =
    post_rows-Posted 2 "daq_reader" six empty_post (omega arith) (omega arith)
      (refl, (refl, (refl, (refl, (refl, (refl, tt))))))

weblog_round-Round_example :
    Gives
      (Round (node1 ∷ node2 ∷ []) node1 empty_post)
      (weblog_round (node1 ∷ node2 ∷ []) (node1, empty_post))
weblog_round-Round_example =
    weblog_round-Round (node1 ∷ node2 ∷ []) node1 empty_post (omega arith, (omega arith, tt))
      (omega arith) refl
