-- ===== src/Fsm/Basic.antt =====
-- The basic format: `trans07_basic` to `trans11_basic` of src/parser/FzFSM.cpp.
use fz_daq.Prelude.{
  ℕ, zero, suc, ◌+◌, ◌-◌, ◌*◌, ◌/◌, ◌%◌, ◌^◌, List, [], ◌∷◌, ◌++◌, Bool, true, false, ltb, leb,
  if◌then◌else◌, ◌==◌, length, drop, Result, ok, err, over_read, ◌>>=◌,
}
use fz_daq.Event.{FzDataType, adc, new_hit, new_data}
use fz_daq.Fsm.Word.{telid_of, feeid_of, detid_of, dtype_of, length_of}
use fz_daq.Fsm.State.{
  Fsm, u32, u64, word, valid_fec, valid_tel, update_blk, update_fee, step_back, with_d, with_en,
  with_wf, the_hit, the_d, the_en, put_en, set_value, add_hit, add_data,
}
use fz_daq.Fsm.Block.{has_energy, choose_type, note_unknown, datatype_of, open_parts}
use fz_daq.Fsm.Check.{wants_two, wants_one, check_data}

unfoldable pub trans07_basic : ℕ → Fsm → Result Fsm
trans07_basic w s = do
  let r = record s {
    energy1_done = false;
    energy2_done = false;
    pretrig_done = false;
    wflen_done = false;
    rd_wflen = 0;
  }
  let t = update_fee w (update_blk w r)
  o ← the_d t
  if has_energy o.type
      then with_en (λ e. record e { value = e.value ++ w ∷ [] }) t
      else (do u ← with_wf (λ v. record v { pretrig = w }) t; ok (record u { pretrig_done = true }))

-- One round of the loops that gather samples: `w` is added and counted.
unfoldable pub gather_word : ℕ → Fsm → Result Fsm
gather_word w s = do
  t ← with_wf (λ v. record v { sample = v.sample ++ w ∷ [] }) s
  let u = record (update_blk w t) { save_blkcrc = t.blkcrc }
  let v = record (update_fee w u) { save_feecrc = u.feecrc }
  ok (record v { event_index = u32 (v.event_index + 1) })

-- `while(event[event_index] <= 0x7FFF)`, over the words from `event_index` on; the buffer's end
-- does not stop it.
unfoldable pub gather_data : List ℕ → Fsm → Result Fsm
gather_data [] s = err over_read
gather_data (w ∷ ws) s =
    let next = gather_word w s >>= gather_data ws in if leb w 0x7FFF then next else ok s

-- `while (nsample < rd_wflen)`: `n` rounds are left.
unfoldable pub gather_count : ℕ → Fsm → Result Fsm
gather_count zero s = ok s
gather_count (suc n) s = do w ← word s; t ← gather_word w s; gather_count n t

-- The running checksums are overwritten before the samples are gathered.
abbrev pub restore_crc : Fsm → Fsm
restore_crc s = record s { blkcrc = s.save_blkcrc; feecrc = s.save_feecrc }

unfoldable pub samples_to_tag : Fsm → Result Fsm
samples_to_tag s = do t ← gather_data (drop s.event_index s.event) (restore_crc s); ok (step_back t)

-- The branches of QH1, Q2 and Q3 once the energy is there.
abbrev pub after_energy : ℕ → Fsm → Result Fsm
after_energy w s =
    if s.pretrig_done
    then (if s.wflen_done
        then samples_to_tag s
        else ok (record s { rd_wflen = w; wflen_done = true }))
    else (do u ← with_wf (λ v. record v { pretrig = w }) s; ok (record u { pretrig_done = true }))

-- en->set_value(i, (en->value(i) << 15) + w)
abbrev pub shift_in : ℕ → ℕ → Fsm → Result Fsm
shift_in i w s = do e ← the_en s; f ← set_value i (λ v. u32 (v * 32768 + w)) e; ok (put_en f s)

unfoldable pub energy_word : ℕ → Fsm → Result Fsm
energy_word w s =
    if s.energy1_done
    then after_energy w s
    else (do t ← shift_in 0 w s; ok (record t { energy1_done = true }))

-- The second energy: its high word is added, its low word shifted in.
abbrev pub second_energy : ℕ → Fsm → Result Fsm
second_energy w s = do
  e ← the_en s
  if length e.value == 1
      then ok (put_en (record e { value = e.value ++ w ∷ [] }) s)
      else (do t ← shift_in 1 w s; ok (record t { energy2_done = true }))

unfoldable pub energies_word : ℕ → Fsm → Result Fsm
energies_word w s =
    if s.energy1_done
    then (if s.energy2_done then after_energy w s else second_energy w s)
    else (do t ← shift_in 0 w s; ok (record t { energy1_done = true }))

-- A word at an offset from event_index.
abbrev pub word_at : ℕ → Fsm → Result ℕ
word_at k s = word (record s { event_index = u32 (s.event_index + k) })

-- Three words as the code adds them up, in `int` (32 bits, in two's complement), widened to
-- int64; then bit 36 is tested, and the sign extended from there.
unfoldable pub sine_of : ℕ → ℕ → ℕ → ℕ
sine_of a b c =
    let sum = u32 (a * 2 ^ 22 + b * 2 ^ 7 + c / 2 ^ 8) in
    let wide = if ltb sum (2 ^ 31) then sum else sum + (2 ^ 64 - 2 ^ 32) in
    if wide / 2 ^ 36 % 2 == 1 then u64 (0xFFFFFFE000000000 + wide) else wide

-- `n` rounds of: update_blk, update_fee, event_index++
unfoldable pub skip_words : ℕ → Fsm → Result Fsm
skip_words zero s = ok s
skip_words (suc n) s = do
  w ← word s
  let t = update_fee w (update_blk w s)
  skip_words n (record t { event_index = u32 (t.event_index + 1) })

unfoldable pub sine_at : ℕ → Fsm → Result ℕ
unfolding sine_of
sine_at k s = do a ← word_at k s; b ← word_at (k + 1) s; c ← word_at (k + 2) s; ok (sine_of a b c)

-- The sine and the cosine of an ADC, six words before its samples.
unfoldable pub read_adc : Fsm → Result Fsm
read_adc s = do
  sine ← sine_at 0 s
  cosine ← sine_at 3 s
  t ← with_d (λ o. record o { sine = sine; cosine = cosine }) s
  u ← skip_words 6 t
  ok (record u { save_blkcrc = u.blkcrc; save_feecrc = u.feecrc })

abbrev pub is_adc : FzDataType → Bool
is_adc adc = true
is_adc _ = false

unfoldable pub gather_all : Fsm → Result Fsm
gather_all s = do t ← gather_count s.rd_wflen s; ok (step_back t)

unfoldable pub waveform_samples : FzDataType → Fsm → Result Fsm
waveform_samples type s = (if is_adc type then read_adc s else ok s) >>= gather_all

unfoldable pub waveform_word : FzDataType → ℕ → Fsm → Result Fsm
waveform_word type w s =
    if s.wflen_done
    then waveform_samples type (restore_crc s)
    else ok (record s { rd_wflen = w; wflen_done = true })

unfoldable pub trans08_basic : ℕ → Fsm → Result Fsm
trans08_basic w s = do
  let t = update_fee w (update_blk w s)
  o ← the_d t
  if wants_one o.type
      then energy_word w t
      else if wants_two o.type
      then energies_word w t
      else waveform_word o.type w t

-- The hit and the data object that a detector word opens; the hit keeps the tags of the last one.
unfoldable pub next_data : ℕ → Fsm → Result Fsm
unfolding add_hit add_data datatype_of open_parts
next_data w s = do
  let feeid = valid_fec (feeid_of w)
  let type = choose_type feeid (detid_of w) (dtype_of w)
  h ← the_hit s
  s1 ←
      add_hit
        (record new_hit {
          ec = s.ev.ec;
          gttag = h.gttag;
          dettag = h.dettag;
          detid = detid_of w;
          telid = valid_tel (telid_of w);
          feeid = feeid;
        })
        s
  s2 ← add_data (record new_data { type = type }) s1
  s3 ← open_parts true type s2
  ok (note_unknown type s3)

unfoldable pub trans09_basic : ℕ → Fsm → Result Fsm
trans09_basic w s = check_data (update_fee w (update_blk w s)) >>= next_data w

unfoldable pub trans10_basic : ℕ → Fsm → Result Fsm
unfolding add_hit
trans10_basic w s = do
  t ← check_data (update_fee w (update_blk w s))
  add_hit
      (record new_hit {
        ec = t.ev.ec;
        feeid = valid_fec (feeid_of w);
        telid = valid_tel (telid_of w);
      })
      t

unfoldable pub trans11_basic : ℕ → Fsm → Result Fsm
trans11_basic w s = check_data (update_blk w (record s { rd_feelen = length_of w }))
