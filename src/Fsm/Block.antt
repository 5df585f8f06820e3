-- ===== src/Fsm/Block.antt =====
-- The transitions around an event, its blocks and its front-end cards, in both formats: `trans02`
-- to `trans06` and `trans12` to `trans17` of src/parser/FzFSM.cpp. `w` is event[event_index],
-- which none of them moves.
use fz_daq.Prelude.{
  ℕ, ◌+◌, ◌%◌, Bool, true, false, ◌&&◌, ◌||◌, ltb, if◌then◌else◌, ◌==◌, length, Result, ok, ◌>>=◌,
  bit_xor, not,
}
use fz_daq.Event.{
  FzDataType, qh1, i1, ql1, q2, i2, q3, adc, unkdt, FzBlock, new_fee, new_hit, new_data,
}
use fz_daq.Fsm.Word.{
  ec_of, telid_of, feeid_of, detid_of, dtype_of, length_of, id_of, crc_of, fold_crc,
}
use fz_daq.Fsm.State.{
  Fsm, fmt_basic, adcf, valid_fec, valid_tel, update_blk, update_blk_crc, update_fee, with_blk,
  with_fee, with_hit, with_en, with_wf, the_blk, mutable_energy, mutable_waveform, add_block,
  add_fee, add_hit, add_data,
}
use fz_daq.Fsm.Trigger.{read_triggerinfo, remove_last}

-- What `trans02` and `trans17` share: a new block and the start of its length and checksum.
abbrev open_block : ℕ → Fsm → Fsm
open_block w s =
    let t = add_block s in
    record t {
      blklen = 1;
      blkcrc = w;
      tmp_rawec = w;
      tmp_ec = ec_of w;
      ev = record t.ev { ec = ec_of w };
    }

unfoldable pub trans02 : ℕ → Fsm → Fsm
unfolding add_block
trans02 w s = open_block w (record s { err_in_event = false })

unfoldable pub trans03 : ℕ → Fsm → Result Fsm
unfolding add_fee add_hit
trans03 w s = do
  let r = update_blk w s
  let s1 = record r { feelen = 2; feecrc = bit_xor s.tmp_rawec w }
  let feeid = valid_fec (feeid_of w)
  s2 ← add_fee (record new_fee { feeid = feeid; len_error = true; crc_error = true }) s1
  add_hit (record new_hit { ec = s2.tmp_ec; telid = valid_tel (telid_of w); feeid = feeid }) s2

unfoldable pub trans04 : ℕ → Fsm → Result Fsm
trans04 w s = do
  t ← with_hit (λ h. record h { gttag = w }) (update_fee w (update_blk w s))
  ok (record t { dettag_done = false })

unfoldable pub trans05 : ℕ → Fsm → Result Fsm
trans05 w s =
    let t = update_fee w (update_blk w s) in
    if t.dettag_done
    then with_hit (λ h. record h { trigpat = w }) t
    else with_hit (λ h. record h { dettag = w }) (record t { dettag_done = true })

-- The data type that a detector and a type number stand for.
unfoldable pub datatype_of : ℕ → ℕ → FzDataType
datatype_of detid dtype =
    if detid == 0 && dtype == 0
    then qh1
    else if detid == 0 && dtype == 1
    then i1
    else if detid == 0 && dtype == 2
    then ql1
    else if detid == 1 && dtype == 0
    then q2
    else if detid == 1 && dtype == 1
    then i2
    else if detid == 2 && dtype == 0
    then q3
    else unkdt

abbrev pub has_energy : FzDataType → Bool
has_energy qh1 = true
has_energy q2 = true
has_energy q3 = true
has_energy _ = false

abbrev pub is_unknown : FzDataType → Bool
is_unknown unkdt = true
is_unknown _ = false

-- The type of a data object: the card ADCF overrides what the detector says.
abbrev pub choose_type : ℕ → ℕ → ℕ → FzDataType
choose_type feeid detid dtype = if feeid == adcf then adc else datatype_of detid dtype

-- The parts of the basic format that every branch opens: an energy for the energy types, with its
-- error flag as given, and a waveform.
unfoldable pub open_parts : Bool → FzDataType → Fsm → Result Fsm
unfolding mutable_energy mutable_waveform
open_parts energy_error type s = do
  s1 ←
      if has_energy type
      then (do t ← mutable_energy s; with_en (λ e. record e { len_error = energy_error }) t)
      else ok s
  s2 ← mutable_waveform s1
  with_wf (λ v. record v { len_error = true }) s2

abbrev pub note_unknown : FzDataType → Fsm → Fsm
note_unknown type s = record s { err_in_event = is_unknown type || s.err_in_event }

unfoldable pub trans06 : ℕ → Fsm → Result Fsm
unfolding datatype_of add_data open_parts
trans06 w s = do
  let type = choose_type (feeid_of w) (detid_of w) (dtype_of w)
  s1 ← with_hit (λ h. record h { detid = detid_of w }) (update_fee w (update_blk w s))
  s2 ← add_data (record new_data { type = type }) s1
  s3 ← if s2.evformat == fmt_basic then open_parts false type s2 else ok s2
  ok (note_unknown type s3)

-- The checks of a card's length and checksum against the words that close it.
unfoldable pub trans12 : ℕ → Fsm → Result Fsm
unfolding fold_crc
trans12 w s = do
  let r = update_blk w s
  let t = record r { rd_feecrc = crc_of w % 256 }
  let len_error = not (t.feelen % 4096 == t.rd_feelen)
  let crc_error = not (t.rd_feecrc == fold_crc t.feecrc)
  u ← with_fee (λ f. record f { len_error = len_error; crc_error = crc_error }) t
  ok (record u { err_in_event = len_error || crc_error || u.err_in_event })

unfoldable pub trans13 : ℕ → Fsm → Fsm
trans13 w s = update_blk w (record s { tmp_ec = ec_of w; tmp_rawec = w })

unfoldable pub trans14 : ℕ → Fsm → Result Fsm
trans14 w s = with_blk (λ b. record b { blkid = id_of w }) (update_blk w s)

unfoldable pub trans15 : ℕ → Fsm → Fsm
trans15 w s = update_blk_crc w (record s { rd_blklen = length_of w })

-- A block that only carries trigger information: in the basic format it is read; it is removed.
unfoldable pub close_trigger : FzBlock → Fsm → Result Fsm
unfolding remove_last
close_trigger b s = do
  t ← if s.evformat == fmt_basic && ltb 0 (length b.fee) then read_triggerinfo b s else ok s
  ok (remove_last t)

-- The checks of a block's length and checksum against the words that close it.
unfoldable pub check_block : ℕ → Fsm → Result Fsm
unfolding fold_crc
check_block w s = do
  let t = record s { rd_blkcrc = crc_of w % 256 }
  let len_error = not (t.blklen % 4096 + 2 == t.rd_blklen)
  let crc_error = not (t.rd_blkcrc == fold_crc t.blkcrc)
  u ← with_blk (λ b. record b { len_error = len_error; crc_error = crc_error }) t
  ok (record u { err_in_event = len_error || crc_error || u.err_in_event })

-- With a good checksum, the block whose number says that it carries trigger information is closed.
unfoldable pub settle_block : Fsm → Result Fsm
unfolding fold_crc
settle_block s = do
  b ← the_blk s
  if s.rd_blkcrc == fold_crc s.blkcrc && b.blkid == 0x7FF then close_trigger b s else ok s

unfoldable pub trans16 : ℕ → Fsm → Result Fsm
trans16 w s = check_block w s >>= settle_block

unfoldable pub trans17 : ℕ → Fsm → Fsm
unfolding add_block
trans17 w s = open_block w s
