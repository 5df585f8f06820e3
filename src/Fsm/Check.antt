-- ===== src/Fsm/Check.antt =====
-- The checks of a data object when it is left: the code that `trans09_basic`, `trans10_basic` and
-- `trans11_basic` of src/parser/FzFSM.cpp share, and the waveform check at the end of `trans08_tag`.
use fz_daq.Prelude.{
  ℕ, Bool, true, false, ◌&&◌, ltb, if◌then◌else◌, ◌==◌, length, Result, ok, err, bad_index, ◌>>=◌,
}
use fz_daq.Event.{FzDataType, qh1, q2, q3}
use fz_daq.Fsm.State.{Fsm, the_blk, the_hit, the_d, the_en, the_wf, put_en, put_wf}

-- What the text of a log message reads: the objects through the pointers, and the names of the
-- card (17 of them), the telescope (3) and the detector (4) at the hit's numbers.
unfoldable pub read_names : Fsm → Result (Unit {0})
read_names s = do
  b ← the_blk s
  h ← the_hit s
  o ← the_d s
  if ltb h.feeid 17 && ltb h.telid 3 && ltb h.detid 4 then ok tt else err bad_index

-- The waveform must have as many samples as were announced.
unfoldable pub check_waveform : Fsm → Result Fsm
unfolding read_names
check_waveform s = do
  v ← the_wf s
  let bad = record (put_wf (record v { len_error = true }) s) { err_in_event = true }
  if s.rd_wflen == length v.sample
      then ok (put_wf (record v { len_error = false }) s)
      else (read_names s >>= λ _. ok bad)

-- How many energy values a data type wants, if it has any.
abbrev pub wants_two : FzDataType → Bool
wants_two q3 = true
wants_two _ = false

abbrev pub wants_one : FzDataType → Bool
wants_one qh1 = true
wants_one q2 = true
wants_one _ = false

unfoldable pub expect_values : ℕ → Fsm → Result Fsm
unfolding read_names
expect_values n s = do
  e ← the_en s
  let bad = record (put_en (record e { len_error = true }) s) { err_in_event = true }
  if length e.value == n
      then ok (put_en (record e { len_error = false }) s)
      else (read_names s >>= λ _. ok bad)

unfoldable pub check_energy : Fsm → Result Fsm
unfolding expect_values
check_energy s = do
  o ← the_d s
  if wants_two o.type
      then expect_values 2 s
      else if wants_one o.type
      then expect_values 1 s
      else ok s

unfoldable pub check_data : Fsm → Result Fsm
check_data s = check_waveform s >>= check_energy
