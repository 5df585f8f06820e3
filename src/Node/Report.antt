-- ===== src/Node/Report.antt =====
-- The report of a node: messages of src/proto/FzNodeReport.proto, and how `process_perfdata` of
-- src/nodemanager/FzNodeManager.cpp fills them from two readings of the counters.
use fz_daq.Prelude.{ℕ, ◌+◌, ◌-◌, ◌%◌, Bool, List, [], ◌∷◌, Option, String, if◌then◌else◌}
use fz_daq.Fsm.State.{FsmReport}
use fz_daq.Reader.{ReaderReport}
use fz_daq.Writer.{WriterReport}

-- The counters of a parser thread (uint64).
pub record ParserReport : Type 0 where
  pub in_bytes : ℕ
  pub out_bytes : ℕ
  pub in_events : ℕ
  pub out_events : ℕ

-- The fields that the messages of all threads have: each counter, and by how much it grew (uint32).
pub record Traffic : Type 0 where
  pub in_bytes : ℕ
  pub in_bytes_bw : ℕ
  pub out_bytes : ℕ
  pub out_bytes_bw : ℕ
  pub in_events : ℕ
  pub in_events_bw : ℕ
  pub out_events : ℕ
  pub out_events_bw : ℕ

pub record FsmTraffic : Type 0 where
  pub traffic : Traffic
  pub state_invalid : ℕ
  pub events_empty : ℕ
  pub events_good : ℕ
  pub events_bad : ℕ

pub record NodeReport : Type 0 where
  pub hostname : String
  pub profile : String
  pub status : String
  pub parser_num : ℕ
  pub consumer_ip : String
  pub reader : Option Traffic
  pub parsers : List Traffic
  pub fsms : List FsmTraffic
  pub writer : Option Traffic

-- A difference of two uint64, kept in a uint32.
unfoldable pub bandwidth : ℕ → ℕ → ℕ
bandwidth t1 t0 = (t1 + 18446744073709551616 - t0) % 18446744073709551616 % 4294967296

unfoldable pub reader_traffic : ReaderReport → ReaderReport → Traffic
unfolding bandwidth
reader_traffic t1 t0 = record {
  in_bytes = t1.in_bytes;
  in_bytes_bw = bandwidth t1.in_bytes t0.in_bytes;
  out_bytes = t1.out_bytes;
  out_bytes_bw = bandwidth t1.out_bytes t0.out_bytes;
  in_events = t1.in_events;
  in_events_bw = bandwidth t1.in_events t0.in_events;
  out_events = t1.out_events;
  out_events_bw = bandwidth t1.out_events t0.out_events;
}

unfoldable pub parser_traffic : ParserReport → ParserReport → Traffic
unfolding bandwidth
parser_traffic t1 t0 = record {
  in_bytes = t1.in_bytes;
  in_bytes_bw = bandwidth t1.in_bytes t0.in_bytes;
  out_bytes = t1.out_bytes;
  out_bytes_bw = bandwidth t1.out_bytes t0.out_bytes;
  in_events = t1.in_events;
  in_events_bw = bandwidth t1.in_events t0.in_events;
  out_events = t1.out_events;
  out_events_bw = bandwidth t1.out_events t0.out_events;
}

unfoldable pub fsm_traffic : FsmReport → FsmReport → FsmTraffic
unfolding bandwidth
fsm_traffic t1 t0 = record {
  traffic = record {
    in_bytes = t1.in_bytes;
    in_bytes_bw = bandwidth t1.in_bytes t0.in_bytes;
    out_bytes = t1.out_bytes;
    out_bytes_bw = bandwidth t1.out_bytes t0.out_bytes;
    in_events = t1.in_events;
    in_events_bw = bandwidth t1.in_events t0.in_events;
    out_events = t1.out_events;
    out_events_bw = bandwidth t1.out_events t0.out_events;
  };
  state_invalid = t1.state_invalid;
  events_empty = t1.events_empty;
  events_good = t1.events_good;
  events_bad = t1.events_bad;
}

-- Without storing, what the writer sends out is not a rate.
unfoldable pub writer_traffic : Bool → WriterReport → WriterReport → Traffic
unfolding bandwidth
writer_traffic storing t1 t0 = record {
  in_bytes = t1.in_bytes;
  in_bytes_bw = bandwidth t1.in_bytes t0.in_bytes;
  out_bytes = t1.out_bytes;
  out_bytes_bw = if storing then bandwidth t1.out_bytes t0.out_bytes else 0;
  in_events = t1.in_events;
  in_events_bw = bandwidth t1.in_events t0.in_events;
  out_events = t1.out_events;
  out_events_bw = if storing then bandwidth t1.out_events t0.out_events else 0;
}

-- The counters of all threads at one time; a parser has its own and those of its machine.
pub record Reading : Type 0 where
  pub reader : ReaderReport
  pub consumer_ip : String
  pub parsers : List (ParserReport × FsmReport)
  pub writer : WriterReport

-- The loop over the parsers, with two readings of equally many.
unfoldable pub parsers_traffic :
    List (ParserReport × FsmReport) → List (ParserReport × FsmReport) → List Traffic
unfolding parser_traffic
parsers_traffic ((p1, f1) ∷ t1) ((p0, f0) ∷ t0) = parser_traffic p1 p0 ∷ parsers_traffic t1 t0
parsers_traffic _ _ = []

unfoldable pub fsms_traffic :
    List (ParserReport × FsmReport) → List (ParserReport × FsmReport) → List FsmTraffic
unfolding fsm_traffic
fsms_traffic ((p1, f1) ∷ t1) ((p0, f0) ∷ t0) = fsm_traffic f1 f0 ∷ fsms_traffic t1 t0
fsms_traffic _ _ = []
