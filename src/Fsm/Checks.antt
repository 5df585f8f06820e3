-- ===== src/Fsm/Checks.antt =====
-- The verdicts on what was read: lengths, checksums and whole events, from `trans12`, `trans16`,
-- `trans18` and `trans08_basic` of src/parser/FzFSM.cpp.
use fz_daq.Prelude.{
  ℕ, ◌+◌, ◌%◌, ◌<◌, ◌≡◌, ◌⊎◌, ◌↔◌, true, false, ◌||◌, arith, ◌==◌, not, length, List, [], ◌∷◌,
}
use fz_daq.Event.{FzBlock}
use fz_daq.Fsm.State.{Fsm, u64}
use fz_daq.Fsm.Word.{crc_of, fold_crc}
use fz_daq.Fsm.Block.{check_block, trans12}
use fz_daq.Fsm.Check.{wants_one}
use fz_daq.Fsm.Basic.{trans08_basic, energy_word, samples_to_tag}
use fz_daq.Fsm.Process.{trans18, any_fee}
use fz_daq.Fsm.Safety.Facts.{HasBlk, HasFee}
use fz_daq.Fsm.Control.Step.{Gives}

-- With an open block, the checks of transition 16 return, and clear its length error exactly when the words
-- counted, modulo 4096, and two more are the length read, and its checksum error exactly when the
-- checksum read is the folded one; the event is in error if either is set or one was noted before.
pub check_block_exact :
    (w : ℕ) (s : Fsm)
    → HasBlk s
    → let bad_len = not (s.blklen % 4096 + 2 == s.rd_blklen) in
      let bad_crc = not (crc_of w == fold_crc s.blkcrc) in
      Gives
        (λ t.
          ((t.ev.blocks.cell s.blk).len_error ≡ bad_len)
          × ((t.ev.blocks.cell s.blk).crc_error ≡ bad_crc)
          × (t.err_in_event ≡ (bad_len || bad_crc || s.err_in_event)))
        (check_block w s)
unfolding check_block
check_block_exact w s h = ground arith

-- With an open card, transition 12 returns, and clears its length error exactly when the words counted, modulo
-- 4096, are the length read, and its checksum error exactly when the checksum read is the folded
-- one; the event is in error if either is set or one was noted before.
pub trans12_exact :
    (w : ℕ) (s : Fsm)
    → HasFee s
    → let bad_len = not (s.feelen % 4096 == s.rd_feelen) in
      let bad_crc = not (crc_of w == fold_crc s.feecrc) in
      Gives
        (λ t.
          ((t.ev.fees.cell s.fee).len_error ≡ bad_len)
          × ((t.ev.fees.cell s.fee).crc_error ≡ bad_crc)
          × (t.err_in_event ≡ (bad_len || bad_crc || s.err_in_event)))
        (trans12 w s)
unfolding trans12
trans12_exact w s h = ground arith

-- Some listed block has a card.
abbrev pub SomeFee : (ℕ → FzBlock) → List ℕ → Type 0
SomeFee c [] = ⊥
SomeFee c (p ∷ ps) = (0 < length (c p).fee) ⊎ SomeFee c ps

any_fee-SomeFee :
    (s : Fsm) (ps : List ℕ) → (any_fee s.ev.blocks ps ≡ true) ↔ SomeFee s.ev.blocks.cell ps
unfolding any_fee
any_fee-SomeFee s [] = (λ e. cc, λ h. elim h [ ])
any_fee-SomeFee s (p ∷ ps) =
    let ih = any_fee-SomeFee s ps in let to = ih.0 in let from = ih.1 in ground arith

-- An event is empty exactly when it has no trigger information and no block of it has a card.
pub trans18_empty :
    (w : ℕ) (s : Fsm)
    → ((trans18 w s).event_is_empty ≡ true)
      ↔ (length s.ev.trinfo ≡ 0) × ¬ SomeFee s.ev.blocks.cell s.ev.block
unfolding trans18
trans18_empty w s =
    let some_fee = any_fee-SomeFee s s.ev.block in
    let to = some_fee.0 in let from = some_fee.1 in ground arith

-- The end of an event adds one to exactly one of three counters, and the others stay: that of empty
-- events for an empty one, and else that of bad events if an error was noted or of good ones.
pub trans18_counts :
    (w : ℕ) (s : Fsm)
    → let r = s.fsm_report in
      let q = (trans18 w s).fsm_report in
      ((trans18 w s).event_is_empty ≡ true
        → (q.events_empty ≡ u64 (r.events_empty + 1))
          × (q.events_good ≡ r.events_good)
          × (q.events_bad ≡ r.events_bad))
      × ((trans18 w s).event_is_empty ≡ false
          → s.err_in_event ≡ true
          → (q.events_empty ≡ r.events_empty)
            × (q.events_good ≡ r.events_good)
            × (q.events_bad ≡ u64 (r.events_bad + 1)))
      × ((trans18 w s).event_is_empty ≡ false
          → s.err_in_event ≡ false
          → (q.events_empty ≡ r.events_empty)
            × (q.events_good ≡ u64 (r.events_good + 1))
            × (q.events_bad ≡ r.events_bad))
unfolding trans18
trans18_counts w s = ground arith

-- In the basic format, at the samples of a charge (type QH1 or Q2) whose energy, pretrigger and
-- waveform length are read, the transition that gathers them gives the same machine whatever the
-- running checksums of the block and of the card were before.
pub samples_forget_crc :
    (w b f : ℕ) (s : Fsm)
    → s.d < s.ev.datas.count
    → wants_one (s.ev.datas.cell s.d).type ≡ true
    → s.energy1_done ≡ true
    → s.pretrig_done ≡ true
    → s.wflen_done ≡ true
    → trans08_basic w (record s { blkcrc = b; feecrc = f }) ≡ trans08_basic w s
unfolding trans08_basic energy_word samples_to_tag
samples_forget_crc w b f s h e p q r = ground arith
