-- ===== src/Fsm/Progress/Hang.antt =====
-- A waveform of no samples in the basic format: `process` of src/parser/FzFSM.cpp does not end.
use fz_daq.Prelude.{
  ℕ, zero, suc, ◌<◌, ◌≡◌, refl, true, false, get_elem?, some, arith, ok, err, out_of_fuel,
}
use fz_daq.Fsm.State.{Fsm, Floats, update_blk, update_fee, step_back}
use fz_daq.Fsm.Word.{getword_id, table_entry}
use fz_daq.Fsm.Check.{wants_one, wants_two}
use fz_daq.Fsm.Basic.{
  is_adc, trans08_basic, waveform_word, waveform_samples, gather_all, gather_count, restore_crc,
}
use fz_daq.Fsm.Process.{fire, take_word, advance, loop, retval_after}
use fz_daq.Fsm.Safety.Facts.{HasD}

-- The machine has read a waveform length of 0 for a data object without an energy and without a
-- sine, and `w`, the word that it stands at, is data.
pub record Stuck (w : ℕ) (s : Fsm) : Type 0 where
  pub in_values : s.state_id ≡ 5
  pub basic : s.evformat ≡ 0
  pub object : HasD s
  pub no_energy : wants_one (s.ev.datas.cell s.d).type ≡ false
  pub no_energies : wants_two (s.ev.datas.cell s.d).type ≡ false
  pub no_sine : is_adc (s.ev.datas.cell s.d).type ≡ false
  pub length_known : s.wflen_done ≡ true
  pub no_samples : s.rd_wflen ≡ 0
  pub inside : s.event_index < s.event_size
  pub narrow : s.event_size < 4294967296
  pub here : get_elem? s.event s.event_index ≡ some w
  pub is_data : w < 0x8000

-- The machine after the word: the index is one back.
abbrev turn : ℕ → Fsm → Fsm
turn w s = record (step_back (restore_crc (update_fee w (update_blk w s)))) { state_id = 5 }

trans08-Stuck :
    (w : ℕ) (s : Fsm)
    → Stuck w s
    → trans08_basic w s ≡ ok (step_back (restore_crc (update_fee w (update_blk w s))))
unfolding trans08_basic waveform_word waveform_samples gather_all gather_count
trans08-Stuck w s k = ground arith

data_word : (w : ℕ) → w < 0x8000 → getword_id w ≡ 0
unfolding getword_id
data_word w h = ground arith

entry-Stuck : (w : ℕ) (s : Fsm) → Stuck w s → table_entry (getword_id w) s.state_id ≡ 8
unfolding table_entry
entry-Stuck w s k = rw (k.in_values, data_word w k.is_data, table_entry)

take_word-Stuck : (fl : Floats) (w : ℕ) (s : Fsm) → Stuck w s → take_word fl w s ≡ ok (turn w s)
unfolding take_word fire
take_word-Stuck fl w s k =
    rw (entry-Stuck w s k, data_word w k.is_data) (ground (arith, trans08-Stuck w s k))

Stuck-turn : (w : ℕ) (s : Fsm) → Stuck w s → Stuck w (advance (turn w s))
Stuck-turn w s k = ground arith

-- In the basic format, at a word that is data, behind a waveform length of 0 of a data object without
-- an energy and without a sine (its type is I1, QL1, I2 or UNKDT), inside the event: the loop never
-- ends, and however many rounds are given, it has not ended.
pub zero_waveform_hangs :
    (fl : Floats) (fuel w : ℕ) (s : Fsm) (retval : ℕ)
    → Stuck w s
    → loop fl fuel s retval ≡ err out_of_fuel
unfolding loop
zero_waveform_hangs fl zero w s r k = refl
zero_waveform_hangs fl (suc fuel) w s r k = ground (
  arith,
  take_word-Stuck fl w s k,
  zero_waveform_hangs fl fuel w (advance (turn w s)) (retval_after w s r) (Stuck-turn w s k),
)
