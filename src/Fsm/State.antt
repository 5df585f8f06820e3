-- ===== src/Fsm/State.antt =====
-- The state of class FzFSM (src/parser/FzFSM.h) and the objects reached through its pointers.
-- A member is a field; the pointers are numbers of objects in the event's stores.
-- Members of the width of a machine word wrap as the source's do.
use fz_daq.Prelude.{
  ℕ, ◌+◌, ◌%◌, List, [], ◌∷◌, ◌++◌, Bool, true, Option, none, some, ltb, if◌then◌else◌, get_elem?,
  set, Result, ok, err, dangling, over_read, bad_index, or_fault, ◌>>=◌, bit_xor, write, alloc,
}
use fz_daq.Event.{
  FzEvent, FzBlock, FzFee, FzHit, FzData, FzTrigInfo, Energy, Waveform, new_block, new_energy,
  new_waveform,
}

abbrev pub u32 : ℕ → ℕ
u32 n = n % 4294967296

abbrev pub u64 : ℕ → ℕ
u64 n = n % 18446744073709551616

-- The counters of src/proto/FzNodeReport.proto that the machine keeps (uint64).
pub record FsmReport : Type 0 where
  pub in_bytes : ℕ
  pub out_bytes : ℕ
  pub in_events : ℕ
  pub out_events : ℕ
  pub state_invalid : ℕ
  pub events_empty : ℕ
  pub events_good : ℕ
  pub events_bad : ℕ

pub record Fsm : Type 0 where
  pub state_id : ℕ
  pub event : List ℕ
  pub event_size : ℕ
  pub event_index : ℕ
  pub evformat : ℕ
  pub event_is_empty : Bool
  pub ev : FzEvent
  pub blk : ℕ
  pub fee : ℕ
  pub hit : ℕ
  pub d : ℕ
  pub en : ℕ
  pub wf : ℕ
  pub tmp_ec : ℕ
  pub tmp_rawec : ℕ
  pub tag : ℕ
  pub tag_done : Bool
  pub dettag_done : Bool
  pub energy1_done : Bool
  pub energy2_done : Bool
  pub pretrig_done : Bool
  pub wflen_done : Bool
  pub rd_wflen : ℕ
  pub blklen : ℕ
  pub rd_blklen : ℕ
  pub feelen : ℕ
  pub rd_feelen : ℕ
  pub blkcrc : ℕ
  pub rd_blkcrc : ℕ
  pub feecrc : ℕ
  pub rd_feecrc : ℕ
  pub save_blkcrc : ℕ
  pub save_feecrc : ℕ
  pub err_in_event : Bool
  pub fsm_report : FsmReport

-- What the machine does in floating point, as functions on bit patterns:
-- `(uint32_t)((float)v / (float)risetime * 1000)` and `(float)temp_baseline / 16.0`.
pub record Floats : Type 0 where
  pub scale_energy : ℕ → ℕ → ℕ
  pub scale_baseline : ℕ → ℕ

-- `evformat`
abbrev pub fmt_basic : ℕ
fmt_basic = 0

abbrev pub fmt_tag : ℕ
fmt_tag = 1

abbrev pub unkfec : ℕ
unkfec = 16

abbrev pub adcf : ℕ
adcf = 15

abbrev pub unkt : ℕ
unkt = 2

-- The range checks of a front-end card's and a telescope's number.
abbrev pub valid_fec : ℕ → ℕ
valid_fec feeid = if ltb adcf feeid then unkfec else feeid

abbrev pub valid_tel : ℕ → ℕ
valid_tel telid = if ltb 1 telid then unkt else telid

-- event[event_index]
abbrev pub word : Fsm → Result ℕ
word s = or_fault over_read (get_elem? s.event s.event_index)

-- `w` is event[event_index] in all that follows.
abbrev pub update_blk_len : Fsm → Fsm
update_blk_len s = record s { blklen = u32 (s.blklen + 1) }

abbrev pub update_blk_crc : ℕ → Fsm → Fsm
update_blk_crc w s = record s { blkcrc = bit_xor s.blkcrc w }

abbrev pub update_blk : ℕ → Fsm → Fsm
update_blk w s = update_blk_crc w (update_blk_len s)

abbrev pub update_fee_len : Fsm → Fsm
update_fee_len s = record s { feelen = u32 (s.feelen + 1) }

abbrev pub update_fee_crc : ℕ → Fsm → Fsm
update_fee_crc w s = record s { feecrc = bit_xor s.feecrc w }

abbrev pub update_fee : ℕ → Fsm → Fsm
update_fee w s = update_fee_crc w (update_fee_len s)

abbrev pub next_event_word : Fsm → Result Fsm
next_event_word s =
    let t = record s { event_index = u32 (s.event_index + 1) } in
    word t >>= λ w. ok (update_fee w (update_blk w t))

-- `event_index--; blklen--; feelen--`
abbrev pub step_back : Fsm → Fsm
step_back s = record s {
  event_index = u32 (s.event_index + 4294967295);
  blklen = u32 (s.blklen + 4294967295);
  feelen = u32 (s.feelen + 4294967295);
}

-- Writes through the pointers `blk`, `fee`, `hit` and `d`.
abbrev pub with_blk : (FzBlock → FzBlock) → Fsm → Result Fsm
with_blk f s =
    let c = s.ev.blocks in
    if ltb s.blk c.count
    then ok (record s { ev = record s.ev { blocks = write c s.blk (f (c.cell s.blk)) } })
    else err dangling

abbrev pub with_fee : (FzFee → FzFee) → Fsm → Result Fsm
with_fee f s =
    let c = s.ev.fees in
    if ltb s.fee c.count
    then ok (record s { ev = record s.ev { fees = write c s.fee (f (c.cell s.fee)) } })
    else err dangling

abbrev pub with_hit : (FzHit → FzHit) → Fsm → Result Fsm
with_hit f s =
    let c = s.ev.hits in
    if ltb s.hit c.count
    then ok (record s { ev = record s.ev { hits = write c s.hit (f (c.cell s.hit)) } })
    else err dangling

abbrev pub with_d : (FzData → FzData) → Fsm → Result Fsm
with_d f s =
    let c = s.ev.datas in
    if ltb s.d c.count
    then ok (record s { ev = record s.ev { datas = write c s.d (f (c.cell s.d)) } })
    else err dangling

-- Reads through the same pointers.
abbrev pub the_blk : Fsm → Result FzBlock
the_blk s = if ltb s.blk s.ev.blocks.count then ok (s.ev.blocks.cell s.blk) else err dangling

abbrev pub the_fee : Fsm → Result FzFee
the_fee s = if ltb s.fee s.ev.fees.count then ok (s.ev.fees.cell s.fee) else err dangling

abbrev pub the_hit : Fsm → Result FzHit
the_hit s = if ltb s.hit s.ev.hits.count then ok (s.ev.hits.cell s.hit) else err dangling

abbrev pub the_d : Fsm → Result FzData
the_d s = if ltb s.d s.ev.datas.count then ok (s.ev.datas.cell s.d) else err dangling

-- `en` and `wf` point into a data object, to a part that it has.
abbrev pub the_en : Fsm → Result Energy
the_en s =
    if ltb s.en s.ev.datas.count
    then or_fault dangling (s.ev.datas.cell s.en).energy
    else err dangling

abbrev pub the_wf : Fsm → Result Waveform
the_wf s =
    if ltb s.wf s.ev.datas.count
    then or_fault dangling (s.ev.datas.cell s.wf).waveform
    else err dangling

abbrev pub put_en : Energy → Fsm → Fsm
put_en e s =
    let c = s.ev.datas in
    let o = record (c.cell s.en) { energy = some e } in
    record s { ev = record s.ev { datas = write c s.en o } }

abbrev pub put_wf : Waveform → Fsm → Fsm
put_wf v s =
    let c = s.ev.datas in
    let o = record (c.cell s.wf) { waveform = some v } in
    record s { ev = record s.ev { datas = write c s.wf o } }

abbrev pub with_en : (Energy → Energy) → Fsm → Result Fsm
with_en f s = the_en s >>= λ e. ok (put_en (f e) s)

abbrev pub with_wf : (Waveform → Waveform) → Fsm → Result Fsm
with_wf f s = the_wf s >>= λ v. ok (put_wf (f v) s)

-- `en = d->mutable_energy()` and `wf = d->mutable_waveform()`, which add the part if it is absent.
abbrev pub or_new {ℓ} : {A : Type ℓ} → A → Option A → A
or_new a none = a
or_new a (some b) = b

unfoldable pub mutable_energy : Fsm → Result Fsm
mutable_energy s =
    with_d (λ o. record o { energy = some (or_new new_energy o.energy) }) (record s { en = s.d })

unfoldable pub mutable_waveform : Fsm → Result Fsm
mutable_waveform s =
    with_d (λ o. record o { waveform = some (or_new new_waveform o.waveform) })
      (record s { wf = s.d })

-- `blk = ev->add_block()` with both errors set, as its two callers do.
unfoldable pub add_block : Fsm → Fsm
add_block s =
    let e = s.ev in
    let b = record new_block { len_error = true; crc_error = true } in
    record s {
      blk = e.blocks.count;
      ev = record e { block = e.block ++ e.blocks.count ∷ []; blocks = alloc e.blocks b };
    }

-- `fee = blk->add_fee()`, `hit = fee->add_hit()` and `d = hit->add_data()`: the new object, given,
-- is listed in its parent.
unfoldable pub add_fee : FzFee → Fsm → Result Fsm
add_fee o s = do
  t ← with_blk (λ b. record b { fee = b.fee ++ s.ev.fees.count ∷ [] }) s
  ok (record t { fee = s.ev.fees.count; ev = record t.ev { fees = alloc s.ev.fees o } })

unfoldable pub add_hit : FzHit → Fsm → Result Fsm
add_hit o s = do
  t ← with_fee (λ b. record b { hit = b.hit ++ s.ev.hits.count ∷ [] }) s
  ok (record t { hit = s.ev.hits.count; ev = record t.ev { hits = alloc s.ev.hits o } })

unfoldable pub add_data : FzData → Fsm → Result Fsm
add_data o s = do
  t ← with_hit (λ b. record b { datas = b.datas ++ s.ev.datas.count ∷ [] }) s
  ok (record t { d = s.ev.datas.count; ev = record t.ev { datas = alloc s.ev.datas o } })

-- `t = ev->add_trinfo()` and its three setters; `t` is used for nothing else.
abbrev pub add_trinfo : FzTrigInfo → Fsm → Fsm
add_trinfo t s = record s { ev = record s.ev { trinfo = s.ev.trinfo ++ t ∷ [] } }

-- set_value(i, v) of a repeated field
abbrev pub set_value : ℕ → (ℕ → ℕ) → Energy → Result Energy
set_value i f e = do
  v ← or_fault bad_index (get_elem? e.value i)
  ok (record e { value = set e.value i (f v) })
