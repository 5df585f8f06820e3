-- ===== src/Fsm/Safety/Common.antt =====
-- The transitions that both formats share.
use fz_daq.Prelude.{ℕ, List, [], ◌∷◌, Cells, ◌≢◌, ◌≡◌, arith}
use fz_daq.Event.{FzHit, FzBlock, new_waveform}
use fz_daq.Fsm.State.{Fsm, the_blk, or_new}
use fz_daq.Fsm.Trigger.{entry_name, read_entries, first, read_triggerinfo}
use fz_daq.Fsm.Block.{
  trans02, trans03, trans04, trans05, trans06, close_trigger, check_block, settle_block, trans12,
  trans14, trans16, trans17,
}
use fz_daq.Fsm.Safety.Facts.{Safe, HasBlk, HasFee, InCard, InBasic, InTagged, InOther, Safe-bind}

pub trans02-HasBlk : (w : ℕ) (s : Fsm) → HasBlk (trans02 w s)
unfolding trans02
trans02-HasBlk w s = ground arith

pub trans03-Safe : (w : ℕ) (s : Fsm) → HasBlk s → Safe InCard (trans03 w s)
unfolding trans03
trans03-Safe w s b = ground arith

pub trans04-Safe : (w : ℕ) (s : Fsm) → InCard s → Safe InCard (trans04 w s)
unfolding trans04
trans04-Safe w s c = ground arith

pub trans05-Safe : (w : ℕ) (s : Fsm) → InCard s → Safe InCard (trans05 w s)
unfolding trans05
trans05-Safe w s c = ground arith

pub trans06-Safe : (w : ℕ) (s : Fsm) → InCard s → s.evformat ≡ 0 → Safe InBasic (trans06 w s)
unfolding trans06
trans06-Safe w s c e = ground arith

pub trans06_tag-Safe : (w : ℕ) (s : Fsm) → InCard s → s.evformat ≡ 1 → Safe InTagged (trans06 w s)
unfolding trans06
trans06_tag-Safe w s c e = ground arith

pub trans06_other-Safe :
    (w : ℕ) (s : Fsm) → InCard s → s.evformat ≢ 0 → s.evformat ≢ 1 → Safe InOther (trans06 w s)
unfolding trans06
trans06_other-Safe w s c e f = ground arith

pub trans12-Safe :
    (w : ℕ) (s : Fsm) → HasBlk s → HasFee s → Safe (λ t. HasBlk t × HasFee t) (trans12 w s)
unfolding trans12
trans12-Safe w s b f = ground arith

pub trans14-Safe : (w : ℕ) (s : Fsm) → HasBlk s → Safe HasBlk (trans14 w s)
unfolding trans14
trans14-Safe w s b = ground arith

pub trans17-HasBlk : (w : ℕ) (s : Fsm) → HasBlk (trans17 w s)
unfolding trans17
trans17-HasBlk w s = ground arith

entry_name-Safe : (id : ℕ) → Safe (λ _. Unit {0}) (entry_name id)
unfolding entry_name
entry_name-Safe id = ground arith

read_entries-Safe : (h : FzHit) (ws : List ℕ) (s : Fsm) → Safe (λ _. Unit {0}) (read_entries h ws s)
unfolding read_entries
read_entries-Safe h [] s = tt
read_entries-Safe h (a ∷ []) s = tt
read_entries-Safe h (a ∷ b ∷ []) s = tt
read_entries-Safe h (a ∷ b ∷ c ∷ ws) s =
    Safe-bind (λ _. Unit {0}) (λ _. Unit {0}) (entry_name a) _ (entry_name-Safe a)
      λ n _. read_entries-Safe h ws _

first-Safe {ℓ} : {A : Type ℓ} (c : Cells A) (ps : List ℕ) → Safe (λ _. Unit {0}) (first c ps)
first-Safe c [] = tt
first-Safe c (p ∷ ps) = tt

read_triggerinfo-Safe : (b : FzBlock) (s : Fsm) → Safe (λ _. Unit {0}) (read_triggerinfo b s)
unfolding read_triggerinfo
read_triggerinfo-Safe b s =
    Safe-bind (λ _. Unit {0}) (λ _. Unit {0}) (first s.ev.fees b.fee) _ (first-Safe s.ev.fees b.fee)
      λ f _.
        Safe-bind (λ _. Unit {0}) (λ _. Unit {0}) (first s.ev.hits f.hit) _
          (first-Safe s.ev.hits f.hit)
          λ h _.
            Safe-bind (λ _. Unit {0}) (λ _. Unit {0}) (first s.ev.datas h.datas) _
              (first-Safe s.ev.datas h.datas)
              λ o _. read_entries-Safe h (or_new new_waveform o.waveform).sample s

close_trigger-Safe : (b : FzBlock) (s : Fsm) → Safe (λ _. Unit {0}) (close_trigger b s)
unfolding close_trigger
close_trigger-Safe b s = ground (arith, read_triggerinfo-Safe b s)

check_block-Safe : (w : ℕ) (s : Fsm) → HasBlk s → Safe HasBlk (check_block w s)
unfolding check_block
check_block-Safe w s b = ground arith

the_blk-Safe : (s : Fsm) → HasBlk s → Safe (λ _. Unit {0}) (the_blk s)
the_blk-Safe s b = ground arith

settle_block-Safe : (s : Fsm) → HasBlk s → Safe (λ _. Unit {0}) (settle_block s)
unfolding settle_block
settle_block-Safe s h =
    Safe-bind (λ _. Unit {0}) (λ _. Unit {0}) (the_blk s) _ (the_blk-Safe s h)
      λ b _. ground (arith, close_trigger-Safe b s)

pub trans16-Safe : (w : ℕ) (s : Fsm) → HasBlk s → Safe (λ _. Unit {0}) (trans16 w s)
unfolding trans16
trans16-Safe w s b =
    Safe-bind HasBlk (λ _. Unit {0}) (check_block w s) settle_block (check_block-Safe w s b)
      settle_block-Safe
