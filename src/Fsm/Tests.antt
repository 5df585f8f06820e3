-- ===== src/Fsm/Tests.antt =====
-- Runs of the event parser's machine, and its theorems at concrete inputs.
use fz_daq.Prelude.{
  ℕ, ◌/◌, ◌≡◌, ◌≢◌, refl, true, false, List, [], ◌∷◌, some, length, ok, err, dangling, out_of_fuel,
  arith,
}
use fz_daq.Event.{new_event, new_data, new_waveform, i1}
use fz_daq.Fsm.State.{Fsm, FsmReport, Floats, fmt_tag}
use fz_daq.Fsm.Word.{getword_id, table_entry, fold_crc}
use fz_daq.Fsm.Block.{check_block, settle_block, trans14, trans15, trans16, trans02}
use fz_daq.Fsm.Process.{
  init, import, take_word, loop, process, trans18, parse_ok, fire, retval_after, any_fee,
  count_event,
}
use fz_daq.Fsm.Control.Table.{next_state}
use fz_daq.Fsm.Control.Step.{Returns, Gives, take_word-next}
use fz_daq.Fsm.Safety.Facts.{Safe}
use fz_daq.Fsm.Safety.Machine.{Good}
use fz_daq.Fsm.Safety.Run.{take_word-Good, process_no_dangling}
use fz_daq.Fsm.Progress.Run.{process_tag_ends}
use fz_daq.Fsm.Progress.Hang.{Stuck, zero_waveform_hangs}

abbrev no_report : FsmReport
no_report = record {
  in_bytes = 0;
  out_bytes = 0;
  in_events = 0;
  out_events = 0;
  state_invalid = 0;
  events_empty = 0;
  events_good = 0;
  events_bad = 0;
}

abbrev fresh : Fsm
fresh = record {
  state_id = 0;
  event = [];
  event_size = 0;
  event_index = 0;
  evformat = 1;
  event_is_empty = false;
  ev = new_event;
  blk = 0;
  fee = 0;
  hit = 0;
  d = 0;
  en = 0;
  wf = 0;
  tmp_ec = 0;
  tmp_rawec = 0;
  tag = 0;
  tag_done = false;
  dettag_done = false;
  energy1_done = false;
  energy2_done = false;
  pretrig_done = false;
  wflen_done = false;
  rd_wflen = 0;
  blklen = 0;
  rd_blklen = 0;
  feelen = 0;
  rd_feelen = 0;
  blkcrc = 0;
  rd_blkcrc = 0;
  feecrc = 0;
  rd_feecrc = 0;
  save_blkcrc = 0;
  save_feecrc = 0;
  err_in_event = false;
  fsm_report = no_report;
}

abbrev floats : Floats
floats = record { scale_energy = λ v r. v; scale_baseline = λ v. v / 16 }

-- An event whose only block has no card: EC, BLKID, LENGTH, CRCBL and the end of the event.
abbrev short_event : List ℕ
short_event = 0xE005 ∷ 0xC001 ∷ 0xA003 ∷ 0xD000 ∷ 0xC807 ∷ []

-- An event with a card, cut off inside the data of its first detector.
abbrev cut_event : List ℕ
cut_event = 0xE005 ∷ 0x9801 ∷ 0x0001 ∷ 0x0002 ∷ 0x9041 ∷ 0x7001 ∷ []

short_run :
    Gives
      (λ r.
        (r.1 ≡ parse_ok)
        × (r.0.event_is_empty ≡ true)
        × (r.0.ev.regid ≡ 7)
        × (r.0.fsm_report.events_empty ≡ 1))
      (process floats 12 (import short_event 5 (init 1 fresh)))
unfolding process import init loop take_word fire table_entry getword_id retval_after trans02
    trans14 trans15 trans16 check_block settle_block fold_crc trans18 any_fee count_event
short_run = (refl, refl, refl, refl)

take_word-next_example :
    (getword_id 0xE005 ≡ 8 → take_word floats 0xE005 fresh ≡ ok fresh)
    × (getword_id 0xE005 ≢ 8
        → Returns
            (λ t. t.state_id ≡ next_state (getword_id 0xE005) 0)
            (take_word floats 0xE005 fresh))
take_word-next_example = take_word-next floats 0xE005 fresh (omega arith)

fresh-Good : Good fresh
fresh-Good = record {
  known = omega arith;
  block = λ h k. omega arith;
  card = λ h k. omega arith;
  inside = λ h k. omega arith;
  opened = λ h. omega arith;
  filled = λ h. omega arith;
}

take_word-Good_example : Safe Good (take_word floats 0xE005 fresh)
take_word-Good_example = take_word-Good floats 0xE005 fresh fresh-Good

process_no_dangling_example : process floats 20 (import cut_event 6 (init 0 fresh)) ≢ err dangling
process_no_dangling_example = process_no_dangling floats 20 0 6 cut_event fresh

process_tag_ends_example :
    process floats 14 (import cut_event (length cut_event) (init fmt_tag fresh)) ≢ err out_of_fuel
process_tag_ends_example = process_tag_ends floats cut_event fresh 14 (omega arith) (omega arith)

-- Inside a data object in the tagged format, before any tag.
abbrev tagged : Fsm
tagged = record fresh {
  state_id = 5;
  event = 0x7001 ∷ 0x0003 ∷ [];
  event_size = 2;
  ev = record new_event { datas = record { count = 1; cell = λ _. new_data } };
}

-- A waveform without an energy, of length 0, in the basic format.
abbrev empty_waveform : Fsm
empty_waveform = record fresh {
  state_id = 5;
  event = 0x0001 ∷ [];
  event_size = 1;
  evformat = 0;
  ev = record new_event {
    datas = record {
      count = 1;
      cell = λ _. record new_data { type = i1; waveform = some new_waveform };
    };
  };
  pretrig_done = true;
  wflen_done = true;
}

empty_waveform-Stuck : Stuck 0x0001 empty_waveform
empty_waveform-Stuck = record {
  in_values = refl;
  basic = refl;
  object = omega arith;
  no_energy = refl;
  no_energies = refl;
  no_sine = refl;
  length_known = refl;
  no_samples = refl;
  inside = omega arith;
  narrow = omega arith;
  here = refl;
  is_data = omega arith;
}

zero_waveform_hangs_example : loop floats 100 empty_waveform 0 ≡ err out_of_fuel
zero_waveform_hangs_example =
    zero_waveform_hangs floats 100 0x0001 empty_waveform 0 empty_waveform-Stuck

-- At the first sample of a slow charge, with everything before it read.
abbrev sampling : Fsm
sampling = record empty_waveform {
  ev = record new_event {
    datas = record { count = 1; cell = λ _. record new_data { waveform = some new_waveform } };
  };
  rd_wflen = 1;
  energy1_done = true;
}
