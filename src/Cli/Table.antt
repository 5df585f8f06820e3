-- ===== src/Cli/Table.antt =====
-- The table of statistics of the controller's command line: `print_status_table` of
-- src/controller/cli.cpp.
use fz_daq.Prelude.{
  ℕ, ◌+◌, ◌%◌, List, [], ◌∷◌, ◌++◌, ◌||◌, Option, none, some, String, same, if◌then◌else◌, Result,
  ok, err, ◌>>=◌, bad_index,
}
use fz_daq.Node.Report.{NodeReport, Traffic, FsmTraffic}

-- The numbers of a line, under IN and under OUT.
pub record Columns : Type 0 where
  pub in_events : ℕ
  pub in_rate : ℕ
  pub in_size : ℕ
  pub in_bw : ℕ
  pub out_events : ℕ
  pub out_rate : ℕ
  pub out_size : ℕ
  pub out_bw : ℕ

-- What is printed of a node: its name, profile and status above the header, lines of its threads,
-- and the numbers of its empty, good and bad events.
pub data Printed : Type 0 where
  host : String → String → String → Printed
  reader_line parser_line fsm_line writer_line : Columns → Printed
  event_statistics : ℕ → ℕ → ℕ → Printed

unfoldable pub print_reader_status : Traffic → Printed
print_reader_status r = reader_line (record {
  in_events = r.in_events;
  in_rate = r.in_events_bw;
  in_size = r.in_bytes;
  in_bw = r.in_bytes_bw;
  out_events = r.out_events;
  out_rate = r.out_events_bw;
  out_size = r.out_bytes;
  out_bw = r.out_bytes_bw;
})

unfoldable pub print_parser_status : Traffic → Printed
print_parser_status r = parser_line (record {
  in_events = r.in_events;
  in_rate = r.in_events_bw;
  in_size = r.in_bytes;
  in_bw = r.in_bytes_bw;
  out_events = r.out_events;
  out_rate = r.in_events_bw;
  out_size = r.in_bytes;
  out_bw = r.in_bytes_bw;
})

unfoldable pub print_fsm_status : Traffic → Printed
print_fsm_status r = fsm_line (record {
  in_events = r.in_events;
  in_rate = r.in_events_bw;
  in_size = r.in_bytes;
  in_bw = r.in_bytes_bw;
  out_events = r.out_events;
  out_rate = r.in_events_bw;
  out_size = r.in_bytes;
  out_bw = r.in_bytes_bw;
})

unfoldable pub print_writer_status : Traffic → Printed
print_writer_status r = writer_line (record {
  in_events = r.in_events;
  in_rate = r.in_events_bw;
  in_size = r.in_bytes;
  in_bw = r.in_bytes_bw;
  out_events = r.out_events;
  out_rate = r.in_events_bw;
  out_size = r.in_bytes;
  out_bw = r.in_bytes_bw;
})

-- The accessor of a part that is not set gives one of zeros.
abbrev pub or_zeros : Option Traffic → Traffic
or_zeros none = record {
  in_bytes = 0;
  in_bytes_bw = 0;
  out_bytes = 0;
  out_bytes_bw = 0;
  in_events = 0;
  in_events_bw = 0;
  out_events = 0;
  out_events_bw = 0;
}
or_zeros (some t) = t

-- The numbers of events (uint64).
pub record Events : Type 0 where
  pub ev_empty : ℕ
  pub ev_good : ℕ
  pub ev_bad : ℕ

abbrev u64 : ℕ → ℕ
u64 n = n % 18446744073709551616

abbrev pub count_events : Events → FsmTraffic → Events
count_events e f = record {
  ev_empty = u64 (e.ev_empty + f.events_empty);
  ev_good = u64 (e.ev_good + f.events_good);
  ev_bad = u64 (e.ev_bad + f.events_bad);
}

-- The loop over the parsers and the machines of the same number, up to `parser_size`.
unfoldable pub print_parsers :
    List Traffic → List FsmTraffic → Events → Result (List Printed × Events)
unfolding print_parser_status print_fsm_status
print_parsers [] fs e = ok ([], e)
print_parsers (p ∷ ps) [] e = err bad_index
print_parsers (p ∷ ps) (f ∷ fs) e = print_parsers ps fs (count_events e f) >>= λ r.
    ok (print_parser_status p ∷ print_fsm_status f.traffic ∷ r.0, r.1)

abbrev pub print_host : NodeReport → Printed
print_host n = host n.hostname n.profile n.status

unfoldable pub print_compute : NodeReport → Result (List Printed)
unfolding print_parsers print_reader_status
print_compute n =
    if same n.profile "compute" || same n.profile "all"
    then (print_parsers n.parsers n.fsms (record { ev_empty = 0; ev_good = 0; ev_bad = 0 }) >>= λ r.
        ok (
          print_host n ∷ print_reader_status (or_zeros n.reader) ∷ r.0
          ++ event_statistics r.1.ev_empty r.1.ev_good r.1.ev_bad ∷ []))
    else ok []

unfoldable pub print_storage : NodeReport → List Printed
unfolding print_writer_status
print_storage n =
    if same n.profile "all"
    then print_writer_status (or_zeros n.writer) ∷ []
    else if same n.profile "storage"
    then print_host n ∷ print_writer_status (or_zeros n.writer) ∷ []
    else []

unfoldable pub print_computes : List NodeReport → Result (List Printed)
unfolding print_compute
print_computes [] = ok []
print_computes (n ∷ ns) =
    print_compute n >>= λ lines. print_computes ns >>= λ rest. ok (lines ++ rest)

unfoldable pub print_storages : List NodeReport → List Printed
unfolding print_storage
print_storages [] = []
print_storages (n ∷ ns) = print_storage n ++ print_storages ns

-- The two loops.
unfoldable pub print_status_table : List NodeReport → Result (List Printed)
unfolding print_computes print_storages
print_status_table r = print_computes r >>= λ lines. ok (lines ++ print_storages r)
