-- ===== src/Parser/Tests.antt =====
-- An event from the reader to the files, and the parser thread's theorems on it.
use fz_daq.Prelude.{
  none, ℕ, ◌+◌, ◌*◌, ◌/◌, ◌%◌, ◌≡◌, ◌≢◌, refl, List, [], ◌∷◌, true, false, Result, ok, err,
  dangling, out_of_fuel, Gives, arith,
}
use fz_daq.Event.{EventTree, event_tree, new_event}
use fz_daq.Fsm.State.{Fsm, FsmReport, Floats}
use fz_daq.Rc.{running}
use fz_daq.Writer.{RunTag, Writer, take_message}
use fz_daq.Framing.{Coded, IsCoded}
use fz_daq.Framing.Files.{read_files}
use fz_daq.Parser.{Parser, Serialize, received, parse_round}
use fz_daq.Parser.Counts.{Counted, parse_round_tag_ends}
use fz_daq.Parser.Flow.{AllWords, bytes_of, IsSerialized, event_reaches_files}
use fz_daq.Fsm.Word.{getword_id, table_entry, fold_crc}
use fz_daq.Fsm.State.{add_fee, add_hit, add_data}
use fz_daq.Fsm.Block.{
  trans02, trans03, trans04, trans05, trans06, datatype_of, open_parts, trans12, trans13, trans14,
  trans15, trans16, check_block, settle_block,
}
use fz_daq.Fsm.Tag.{read_tag, trans07_tag, trans11_tag}
use fz_daq.Fsm.Process.{
  process, import, init, loop, take_word, fire, retval_after, trans18, any_fee, count_event,
  parse_ok,
}

abbrev no_report : FsmReport
no_report = record {
  in_bytes = 0;
  out_bytes = 0;
  in_events = 0;
  out_events = 0;
  state_invalid = 0;
  events_empty = 0;
  events_good = 0;
  events_bad = 0;
}

abbrev fresh : Fsm
fresh = record {
  state_id = 0;
  event = [];
  event_size = 0;
  event_index = 0;
  evformat = 1;
  event_is_empty = false;
  ev = new_event;
  blk = 0;
  fee = 0;
  hit = 0;
  d = 0;
  en = 0;
  wf = 0;
  tmp_ec = 0;
  tmp_rawec = 0;
  tag = 0;
  tag_done = false;
  dettag_done = false;
  energy1_done = false;
  energy2_done = false;
  pretrig_done = false;
  wflen_done = false;
  rd_wflen = 0;
  blklen = 0;
  rd_blklen = 0;
  feelen = 0;
  rd_feelen = 0;
  blkcrc = 0;
  rd_blkcrc = 0;
  feecrc = 0;
  rd_feecrc = 0;
  save_blkcrc = 0;
  save_feecrc = 0;
  err_in_event = false;
  fsm_report = no_report;
}

abbrev floats : Floats
floats = record { scale_energy = λ v r. v; scale_baseline = λ v. v / 16 }

-- An event of one block, with one card and one detector.
abbrev card_event : List ℕ
card_event =
    0xE005 ∷ 0x9801 ∷ 0x0001 ∷ 0x0002 ∷ 0x9041 ∷ 0x7001 ∷ 0xA003 ∷ 0xB000 ∷ 0xE005 ∷ 0xC001 ∷ 0xA003
    ∷ 0xD000 ∷ 0xC807 ∷ []

card_event-AllWords : AllWords card_event
card_event-AllWords = (
  omega arith,
  (
    omega arith,
    (
      omega arith,
      (
        omega arith,
        (
          omega arith,
          (
            omega arith,
            (
              omega arith,
              (
                omega arith,
                (omega arith, (omega arith, (omega arith, (omega arith, (omega arith, tt))))),
              ),
            ),
          ),
        ),
      ),
    ),
  ),
)

abbrev machine_of : Result (Fsm × ℕ) → Fsm
machine_of (ok (t, retval)) = t
machine_of (err e) = fresh

abbrev finished : Fsm
finished = machine_of (process floats 40 (import card_event 13 (init 1 fresh)))

card_run : process floats 40 (import card_event 13 (init 1 fresh)) ≡ ok (finished, parse_ok)
unfolding process import init loop take_word fire table_entry getword_id retval_after trans02
    trans03 add_fee add_hit trans04 trans05 trans06 datatype_of add_data open_parts trans07_tag
    trans11_tag trans12 trans13 trans14 trans15 trans16 check_block settle_block fold_crc trans18
    any_fee count_event read_tag
card_run = refl

finished_filled : finished.event_is_empty ≡ false
unfolding process import init loop take_word fire table_entry getword_id retval_after trans02
    trans03 add_fee add_hit trans04 trans05 trans06 datatype_of add_data open_parts trans07_tag
    trans11_tag trans12 trans13 trans14 trans15 trans16 check_block settle_block fold_crc trans18
    any_fee count_event read_tag
finished_filled = refl

abbrev running_parser : Parser
running_parser = record {
  evformat = 1;
  sm = fresh;
  rcstate = running;
  psr_report = record { in_bytes = 40; out_bytes = 2; in_events = 4; out_events = 1 };
  rc = true;
  sent = (3 ∷ 4 ∷ []) ∷ [];
}

running_parser-Counted : Counted running_parser
running_parser-Counted = record { bytes = refl; events = refl }

abbrev number_of : List ℕ → ℕ
number_of (a ∷ b ∷ c ∷ d ∷ []) = a + 256 * b + 65536 * c + 16777216 * d
number_of _ = 0

-- An event set of one event is written as the event's numbers; its blocks are left out.
abbrev numbers : Serialize
numbers (ev ∷ []) = (true, ev.ec ∷ ev.regid ∷ [])
numbers _ = (false, [])

abbrev sets : Coded (List EventTree)
sets = record {
  write_le32 = λ n. n % 256 ∷ n / 256 % 256 ∷ n / 65536 % 256 ∷ n / 16777216 % 256 ∷ [];
  read_le32 = number_of;
  parse = λ x old. elim x [ [] ↦ [] | n ∷ ns ↦ event_tree finished.ev ∷ [] ];
}

sets-IsCoded : IsCoded sets
sets-IsCoded = record {
  four = λ n. refl;
  read-write = λ n h. omega arith;
  clears = λ x old new. refl;
}

finished-IsSerialized : IsSerialized sets numbers (finished.ev ∷ [])
finished-IsSerialized = record { done = refl; parsed = λ old. refl }

-- A tag of which nothing is asked.
abbrev unread : RunTag
unread = record { run_name = λ n. "run"; number_in = λ name. none }

abbrev storing_writer : Writer
storing_writer = record {
  runtag = unread;
  event_file_size = 4;
  event_dir_size = 100;
  esize = 2;
  dsize = 6;
  fileid = 1;
  dirid = 1;
  dirstr = "run000000";
  firstrun = false;
  start_newdir = false;
  storing = true;
  rcstate = running;
  report = record { in_bytes = 2; out_bytes = 2; in_events = 1; out_events = 1 };
  dirs = "run000000" ∷ [];
  files = record { dir = "run000000"; time = 5; file_id = 0; messages = (3 ∷ 4 ∷ []) ∷ [] } ∷ [];
  spied = [];
}

has_files : storing_writer.files ≢ []
has_files = λ e. cc

event_reaches_files_example :
    Gives
      (λ q.
        let x = (numbers (finished.ev ∷ [])).1 in
        (q.sent ≡ (3 ∷ 4 ∷ []) ∷ x ∷ [])
        × (read_files sets 3 (take_message 9 x (storing_writer, 2, 1)).0.files []
            ≡ ok ((event_tree finished.ev ∷ []) ∷ (event_tree finished.ev ∷ []) ∷ [])))
      (parse_round floats numbers 40 (received (bytes_of card_event)) running_parser)
event_reaches_files_example =
    event_reaches_files sets sets-IsCoded numbers floats 40 3 9 card_event running_parser finished
      storing_writer 2 1 refl card_event-AllWords (omega arith) card_run finished_filled
      finished-IsSerialized (omega arith, omega arith) refl has_files
      ((omega arith, omega arith), tt) (omega arith)

parse_round_tag_ends_example :
    (parse_round floats numbers 9 (received (5 ∷ 0xE0 ∷ 1 ∷ 0x98 ∷ 7 ∷ [])) running_parser
      ≢ err out_of_fuel)
    × (parse_round floats numbers 9 (received (5 ∷ 0xE0 ∷ 1 ∷ 0x98 ∷ 7 ∷ [])) running_parser
        ≢ err dangling)
parse_round_tag_ends_example =
    parse_round_tag_ends floats numbers 9 (5 ∷ 0xE0 ∷ 1 ∷ 0x98 ∷ 7 ∷ []) running_parser refl
      (omega arith) (omega arith)
