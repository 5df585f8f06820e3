-- ===== src/Daq.antt =====
-- The program of a node: the command line and the threads' statistics of src/main/FzDAQ-mt.cpp, over
-- the node manager.
pub mod Setup
pub mod Kept
pub mod Commands
pub mod Lines
mod Control
mod Session
mod Ends
mod Tests
use fz_daq.Prelude.{
  ℕ, zero, suc, List, [], ◌∷◌, ◌++◌, Bool, true, false, ◌&&◌, ◌||◌, Option, none, some, String,
  same, if◌then◌else◌, Result, ok, err, ◌>>=◌, dangling, bad_index,
}
use fz_daq.Rc.{RcCommand, configure, start, stop, reset}
use fz_daq.Writer.{set_store}
use fz_daq.Node.{NodeManager, is_local, is_ok, label, rc_state, rc_process}
use fz_daq.Node.Report.{NodeReport, Traffic, FsmTraffic}

-- What the lines of the console can ask for.
pub data Command : Type 0 where
  help status store nostore stats rec quit unknown : Command
  control : RcCommand → Command

-- A line of the table of statistics: the numbers under IN and under OUT.
pub record Row : Type 0 where
  pub in_events : ℕ
  pub in_rate : ℕ
  pub in_size : ℕ
  pub in_bw : ℕ
  pub out_events : ℕ
  pub out_rate : ℕ
  pub out_size : ℕ
  pub out_bw : ℕ

-- What is written to the terminal.
pub data Shown : Type 0 where
  usage : Bool → Shown
  daq_status : String → String → Shown
  succeeded failed : RcCommand → Shown
  writes_on_disk collecting record_enabled record_disabled command_not_found : Shown
  compute_table : Option Row → List (Row × Row) → Shown
  storage_table : Option Row → Bool → Shown

-- The variables of `main` that the loop uses. `nm` holds the threads, `rd` and `wr` among them.
pub record Console : Type 0 where
  pub profile : String
  pub iscompute : Bool
  pub isstorage : Bool
  pub nthreads : ℕ
  pub nm : NodeManager
  pub rec : Bool
  pub lastcmd : String

pub record Turn : Type 0 where
  pub console : Console
  pub shown : List Shown
  pub left : Bool

-- (profile == "all") || (profile == "storage")
abbrev pub has_writer : Console → Bool
has_writer c = same c.profile "all" || same c.profile "storage"

-- The tests of a line in the order of the loop.
unfoldable pub command_of : String → Console → Command
command_of line c =
    if same line "help"
    then help
    else if same line "status"
    then status
    else if is_local c.nm && same line "configure"
    then control configure
    else if is_local c.nm && same line "start"
    then control start
    else if is_local c.nm && same line "stop"
    then control stop
    else if is_local c.nm && same line "reset"
    then control reset
    else if is_local c.nm && same line "store" && has_writer c
    then store
    else if is_local c.nm && same line "nostore" && has_writer c
    then nostore
    else if same line "stats"
    then stats
    else if same line "rec"
    then rec
    else if same line "quit"
    then quit
    else unknown

unfoldable pub reader_row : Traffic → Row
reader_row t = record {
  in_events = t.in_events;
  in_rate = t.in_events_bw;
  in_size = t.in_bytes;
  in_bw = t.in_bytes_bw;
  out_events = t.out_events;
  out_rate = t.out_events_bw;
  out_size = t.out_bytes;
  out_bw = t.out_bytes_bw;
}

unfoldable pub parser_row : Traffic → Row
parser_row t = record {
  in_events = t.in_events;
  in_rate = t.in_events_bw;
  in_size = t.in_bytes;
  in_bw = t.in_bytes_bw;
  out_events = t.out_events;
  out_rate = t.in_events_bw;
  out_size = t.in_bytes;
  out_bw = t.in_bytes_bw;
}

unfoldable pub fsm_row : FsmTraffic → Row
fsm_row f = record {
  in_events = f.traffic.in_events;
  in_rate = f.traffic.in_events_bw;
  in_size = f.traffic.in_bytes;
  in_bw = f.traffic.in_bytes_bw;
  out_events = f.traffic.out_events;
  out_rate = f.traffic.in_events_bw;
  out_size = f.traffic.in_bytes;
  out_bw = f.traffic.in_bytes_bw;
}

unfoldable pub writer_row : Traffic → Row
writer_row t = record {
  in_events = t.in_events;
  in_rate = t.in_events_bw;
  in_size = t.in_bytes;
  in_bw = t.in_bytes_bw;
  out_events = t.out_events;
  out_rate = t.in_events_bw;
  out_size = t.in_bytes;
  out_bw = t.in_bytes_bw;
}

abbrev pub row_of : (Traffic → Row) → Option Traffic → Option Row
row_of f none = none
row_of f (some t) = some (f t)

-- The loop over the threads, from the report's `parser(i)` and `fsm(i)` on.
unfoldable pub parser_rows : ℕ → List Traffic → List FsmTraffic → Result (List (Row × Row))
unfolding parser_row fsm_row
parser_rows zero ps fs = ok []
parser_rows (suc n) (p ∷ ps) (f ∷ fs) =
    parser_rows n ps fs >>= λ rows. ok ((parser_row p, fsm_row f) ∷ rows)
parser_rows (suc n) _ _ = err bad_index

unfoldable pub show_compute : Console → NodeReport → Result (List Shown)
unfolding parser_rows reader_row
show_compute c r =
    if c.iscompute
    then (parser_rows c.nthreads r.parsers r.fsms >>= λ rows.
        ok (compute_table (row_of reader_row r.reader) rows ∷ []))
    else ok []

unfoldable pub show_storage : Console → NodeReport → List Shown
unfolding writer_row
show_storage c r =
    if c.isstorage then storage_table (row_of writer_row r.writer) c.nm.writer.storing ∷ [] else []

unfoldable pub show_stats : Console → Result (List Shown)
unfolding show_compute show_storage
show_stats c =
    if c.nm.report_init
    then (show_compute c c.nm.nodereport >>= λ shown. ok (shown ++ show_storage c c.nm.nodereport))
    else ok (collecting ∷ [])

-- `rd->record(val)`, through a pointer that is NULL when the profile has no reader.
unfoldable pub record_by : Bool → Console → Result Console
record_by val c =
    if c.iscompute then ok (record c { nm = record c.nm { recording = val } }) else err dangling

-- `wr->set_store(val)`, through a pointer that is NULL when the profile has no writer.
unfoldable pub store_by : Bool → Console → Result Console
store_by val c =
    if c.isstorage
    then ok (record c { nm = record c.nm { writer = set_store val c.nm.writer } })
    else err dangling

unfoldable pub says : Bool → RcCommand → Shown
says true c = succeeded c
says false c = failed c

-- The run control's commands: `start` configures first, and what is said of it is the outcome of its
-- second command alone; `reset` is said to be done whatever its outcome.
unfoldable pub control_by : ℕ → RcCommand → Console → Console × Shown
unfolding says
control_by now start c =
    let m = (rc_process now configure c.nm).0 in
    let (n, rcerr) = rc_process now start m in (record c { nm = n }, says (is_ok rcerr) start)
control_by now reset c = (record c { nm = (rc_process now reset c.nm).0 }, succeeded reset)
control_by now x c =
    let (n, rcerr) = rc_process now x c.nm in (record c { nm = n }, says (is_ok rcerr) x)

abbrev pub stays : Console → List Shown → Result Turn
stays c shown = ok (record { console = c; shown = shown; left = false })

-- What a line does.
unfoldable pub do_command : ℕ → Command → Console → Result Turn
unfolding show_stats record_by store_by control_by
do_command now help c = stays c (usage (is_local c.nm) ∷ [])
do_command now status c = stays c (daq_status (label (rc_state c.nm)) c.nm.rcmode ∷ [])
do_command now (control x) c = let (d, shown) = control_by now x c in stays d (shown ∷ [])
do_command now store c = store_by true c >>= λ d. stays d (writes_on_disk ∷ [])
do_command now nostore c = store_by false c >>= λ d. stays d (writes_on_disk ∷ [])
do_command now stats c = show_stats c >>= λ shown. stays c shown
do_command now rec c =
    if c.rec
    then (record_by false c >>= λ d. stays (record d { rec = false }) (record_disabled ∷ []))
    else (record_by true c >>= λ d. stays (record d { rec = true }) (record_enabled ∷ []))
do_command now quit c = ok (record { console = c; shown = []; left = true })
do_command now unknown c = stays c (command_not_found ∷ [])

abbrev pub is_unknown_command : Command → Bool
is_unknown_command unknown = true
is_unknown_command _ = false

-- `lastcmd = line`, unless the loop is left or `cmderr` is set.
unfoldable pub keep_line : String → Bool → Turn → Turn
keep_line line cmderr t =
    if t.left || cmderr then t else record t { console = record t.console { lastcmd = line } }

-- A command that a line, or the last one again, stands for; nothing is said of an unknown one that
-- is repeated.
unfoldable pub run_command : ℕ → Bool → String → Command → Console → Result Turn
unfolding do_command keep_line
run_command now again line x c =
    if again && is_unknown_command x
    then stays c []
    else (do_command now x c >>= λ t. ok (keep_line line (is_unknown_command x) t))

-- A line that is read: `r` stands for the last one that was accepted.
unfoldable pub run_line : ℕ → String → Console → Result Turn
unfolding command_of run_command
run_line now line c =
    if same line ""
    then stays c []
    else if same line "r"
    then run_command now true c.lastcmd (command_of c.lastcmd c) c
    else run_command now false line (command_of line c) c

-- The end of `main` after the loop.
unfoldable pub leave : ℕ → Console → Console
leave now c = record c { nm = (rc_process now stop c.nm).0 }

-- The lines of the terminal, each with its time, until the loop is left or there are no more, which
-- is at time `end`; and what is written.
unfoldable pub run_lines : ℕ → List (ℕ × String) → Console → Result (Console × List Shown)
unfolding run_line leave
run_lines end [] c = ok (leave end c, [])
run_lines end ((now, line) ∷ ls) c = run_line now line c >>= λ t.
    let rest = run_lines end ls t.console in
    if t.left then ok (leave now t.console, t.shown) else (rest >>= λ r. ok (r.0, t.shown ++ r.1))
