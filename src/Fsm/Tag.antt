-- ===== src/Fsm/Tag.antt =====
-- The tagged format: `trans07_tag` to `trans11_tag` of src/parser/FzFSM.cpp.
use fz_daq.Prelude.{
  ℕ, zero, suc, ◌+◌, ◌*◌, ◌/◌, ◌%◌, [], ◌∷◌, ◌++◌, true, false, ◌&&◌, ◌||◌, none, some, ltb,
  if◌then◌else◌, ◌==◌, get_elem?, Result, ok, bad_index, or_fault, ◌>>=◌,
}
use Prim.Native.String.{String}
use fz_daq.Event.{FzTrigInfo, new_hit, new_data}
use fz_daq.Fsm.Word.{telid_of, feeid_of, detid_of, dtype_of, length_of}
use fz_daq.Fsm.State.{
  Fsm, Floats, u32, u64, word, valid_fec, valid_tel, update_blk, update_fee, next_event_word,
  step_back, with_d, with_en, with_wf, the_hit, the_d, the_en, put_en, set_value, mutable_energy,
  mutable_waveform, add_hit, add_data, add_trinfo,
}
use fz_daq.Fsm.Trigger.{trigger_names}
use fz_daq.Fsm.Block.{choose_type, note_unknown, datatype_of}
use fz_daq.Fsm.Check.{check_waveform}

abbrev pub tag_void : ℕ
tag_void = 0x3030

abbrev pub tag_slow : ℕ
tag_slow = 0x7001

abbrev pub tag_fast : ℕ
tag_fast = 0x7002

abbrev pub tag_baseline : ℕ
tag_baseline = 0x7003

abbrev pub tag_pretrigger : ℕ
tag_pretrigger = 0x7004

abbrev pub tag_waveform : ℕ
tag_waveform = 0x7005

abbrev tag_rb_counters : ℕ
tag_rb_counters = 0x7100

abbrev tag_rb_time : ℕ
tag_rb_time = 0x7101

abbrev tag_rb_gttag : ℕ
tag_rb_gttag = 0x7110

abbrev tag_rb_ec : ℕ
tag_rb_ec = 0x7111

abbrev tag_rb_trigpat : ℕ
tag_rb_trigpat = 0x7112

abbrev tag_rb_temp : ℕ
tag_rb_temp = 0x7113

abbrev tag_rb_centrum : ℕ
tag_rb_centrum = 0x7200

-- if(d->has_waveform() == false) { wf = d->mutable_waveform(); wf->set_len_error(true); }
unfoldable pub want_waveform : Fsm → Result Fsm
unfolding mutable_waveform
want_waveform s = do
  o ← the_d s
  elim o.waveform [
    | none ↦ (do t ← mutable_waveform s; with_wf (λ v. record v { len_error = true }) t)
    | some _ ↦ ok s
  ]

-- en = d->mutable_energy(); en->set_len_error(false);
unfoldable pub want_energy : Fsm → Result Fsm
unfolding mutable_energy
want_energy s = do t ← mutable_energy s; with_en (λ e. record e { len_error = false }) t

-- A tag opens the part that its words fill; a void tag is skipped.
unfoldable pub read_tag : ℕ → Fsm → Result Fsm
unfolding want_waveform want_energy
read_tag w s = do
  let r = record s { tag = w }
  if w == tag_void then ok r else (do
    t ←
        if w == tag_pretrigger || w == tag_waveform
        then want_waveform r
        else if w == tag_slow || w == tag_fast
        then want_energy r
        else ok r
    ok (record t { tag_done = true }))

unfoldable pub trans07_tag : ℕ → Fsm → Result Fsm
trans07_tag w s = do
  let r = record s { tag_done = false; wflen_done = false; rd_wflen = 0 }
  read_tag w (update_fee w (update_blk w r))

-- The samples after TAG_WAVEFORM: `n` of the rd_wflen rounds are left.
unfoldable pub gather_tagged : ℕ → Fsm → Result Fsm
gather_tagged zero s = ok s
gather_tagged (suc n) s = do
  w ← word s
  t ← with_wf (λ v. record v { sample = v.sample ++ w ∷ [] }) s
  u ← next_event_word (record t { save_blkcrc = t.blkcrc; save_feecrc = t.feecrc })
  gather_tagged n u

-- The last word read and its part in the checksums are taken back.
unfoldable pub close_samples : Fsm → Result Fsm
close_samples s =
    let t = step_back s in ok (record t { blkcrc = t.save_blkcrc; feecrc = t.save_feecrc })

unfoldable pub tagged_waveform : Fsm → Result Fsm
tagged_waveform s = gather_tagged s.rd_wflen s >>= close_samples

-- TAG_SLOW (`i` is 0) and TAG_FAST (`i` is 1): the rise time, then the energy in two words.
unfoldable pub tagged_energy : Floats → ℕ → ℕ → Fsm → Result Fsm
tagged_energy fl i risetime s = do
  s1 ← next_event_word s
  high ← word s1
  s2 ← with_en (λ e. record e { value = e.value ++ high ∷ [] }) s1
  s3 ← next_event_word s2
  low ← word s3
  e ← the_en s3
  f ← set_value i (λ v. fl.scale_energy (u32 (v * 32768 + low)) risetime) e
  ok (put_en f s3)

-- TAG_BASELINE: `temp_baseline` is an int32, by its bit pattern.
unfoldable pub tagged_baseline : Floats → ℕ → Fsm → Result Fsm
tagged_baseline fl w s = do
  s1 ← next_event_word s
  low ← word s1
  let sum = u32 (w * 32768 + low)
  let base = if ltb 536870911 sum && ltb sum 2147483648 then u32 (sum + 3221225472) else sum
  with_d (λ o. record o { baseline = fl.scale_baseline base }) s1

-- The loop of TAG_RB_COUNTERS: round `i`, with `n` rounds left.
unfoldable pub read_counters : ℕ → ℕ → Fsm → Result Fsm
unfolding trigger_names
read_counters zero i s = ok s
read_counters (suc n) i s = do
  name ← or_fault bad_index (get_elem? trigger_names i)
  w ← word s
  let info : FzTrigInfo = record { id = 0x100 + i; attr = name; value = w }
  let t = add_trinfo info s
  u ← if n == 0 then ok t else next_event_word t
  read_counters n (i + 1) u

-- An entry of one word, and one whose second word is shifted in; `f` is applied to the value.
abbrev pub one_word : ℕ → String → ℕ → Fsm → Result Fsm
one_word id name w s =
    let info : FzTrigInfo = record { id = id; attr = name; value = w } in ok (add_trinfo info s)

unfoldable pub two_words : ℕ → String → (ℕ → ℕ) → ℕ → Fsm → Result Fsm
two_words id name f w s = do
  t ← next_event_word s
  low ← word t
  let info : FzTrigInfo = record { id = id; attr = name; value = f (u64 (w * 32768 + low)) }
  ok (add_trinfo info t)

-- An entry whose two words follow the current one.
unfoldable pub next_pair : ℕ → String → Fsm → Result Fsm
next_pair id name s = do t ← next_event_word s; w ← word t; two_words id name (λ v. v) w t

-- TAG_RB_CENTRUM: one word with two fields, then three pairs of words.
unfoldable pub read_centrum : ℕ → Fsm → Result Fsm
read_centrum w s = do
  s0 ← one_word 0x200 "centrum0" (w % 64 + w / 2048 % 32 * 2048 * 32768) s
  s1 ← next_pair 0x201 "centrum1" s0
  s2 ← next_pair 0x202 "centrum2" s1
  next_pair 0x203 "centrum3" s2

-- The words of the trigger information tags.
unfoldable pub read_trigger_tag : ℕ → Fsm → Result Fsm
read_trigger_tag w s =
    if s.tag == tag_rb_counters
    then read_counters s.rd_wflen 0 s
    else if s.tag == tag_rb_time
    then two_words 0x10C "totaltime" (λ v. u64 (v * 4) / 150) w s
    else if s.tag == tag_rb_gttag
    then (do h ← the_hit s; two_words 0x10D "gttagmsb" (λ v. u64 (v * 32768 + h.gttag)) w s)
    else if s.tag == tag_rb_ec
    then (do h ← the_hit s; two_words 0x10E "evtcntrmsb" (λ v. u64 (v * 4096 + h.ec)) w s)
    else if s.tag == tag_rb_trigpat
    then one_word 0x10F "trigpattern" w s
    else if s.tag == tag_rb_temp
    then one_word 0x110 "temperature" w s
    else if s.tag == tag_rb_centrum
    then read_centrum w s
    else ok s

-- The words behind a tag and its length.
unfoldable pub read_values : Floats → ℕ → Fsm → Result Fsm
read_values fl w s =
    if s.tag == tag_pretrigger
    then with_wf (λ v. record v { pretrig = w }) s
    else if s.tag == tag_waveform
    then tagged_waveform s
    else if s.tag == tag_slow
    then tagged_energy fl 0 w s
    else if s.tag == tag_fast
    then tagged_energy fl 1 w s
    else if s.tag == tag_baseline
    then tagged_baseline fl w s
    else read_trigger_tag w s

-- The values of a tag, the check of its waveform, and the wait for the next tag.
unfoldable pub finish_tag : Floats → ℕ → Fsm → Result Fsm
finish_tag fl w s = do
  t ← read_values fl w s
  u ← if t.tag == tag_waveform then check_waveform t else ok t
  ok (record u { tag_done = false; wflen_done = false; rd_wflen = 0 })

unfoldable pub trans08_tag : Floats → ℕ → Fsm → Result Fsm
trans08_tag fl w s =
    let t = update_fee w (update_blk w s) in
    if t.tag_done
    then (if t.wflen_done
        then finish_tag fl w t
        else ok (record t { rd_wflen = w; wflen_done = true }))
    else read_tag w t

unfoldable pub trans09_tag : ℕ → Fsm → Result Fsm
unfolding add_hit add_data datatype_of
trans09_tag w s = do
  let feeid = valid_fec (feeid_of w)
  let type = choose_type feeid (detid_of w) (dtype_of w)
  let s1 = update_fee w (update_blk w s)
  h ← the_hit s1
  s2 ←
      add_hit
        (record new_hit {
          ec = s1.ev.ec;
          gttag = h.gttag;
          dettag = h.dettag;
          trigpat = h.trigpat;
          detid = detid_of w;
          telid = valid_tel (telid_of w);
          feeid = feeid;
        })
        s1
  s3 ← add_data (record new_data { type = type }) s2
  ok (note_unknown type s3)

unfoldable pub trans10_tag : ℕ → Fsm → Result Fsm
unfolding add_hit
trans10_tag w s =
    let s1 = update_fee w (update_blk w s) in
    add_hit
      (record new_hit {
        ec = s1.ev.ec;
        feeid = valid_fec (feeid_of w);
        telid = valid_tel (telid_of w);
      })
      s1

unfoldable pub trans11_tag : ℕ → Fsm → Fsm
trans11_tag w s = update_blk w (record s { rd_feelen = length_of w })
