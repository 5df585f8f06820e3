-- ===== src/Fsm/Progress/Still.antt =====
-- The other transitions read one word and stay at it.
use fz_daq.Prelude.{ℕ, ◌≡◌, arith}
use fz_daq.Event.{FzBlock}
use fz_daq.Fsm.State.{Fsm}
use fz_daq.Fsm.Block.{
  trans02, trans03, trans04, trans05, trans06, trans12, trans13, trans14, trans15, trans16, trans17,
  check_block, settle_block, close_trigger,
}
use fz_daq.Fsm.Tag.{read_tag, trans07_tag, trans09_tag, trans10_tag, trans11_tag}
use fz_daq.Fsm.Process.{trans18}
use fz_daq.Fsm.Progress.Facts.{Ends, Ends-bind, Frame}

-- The same buffer, format and place.
abbrev pub At : ℕ → ℕ → ℕ → Fsm → Type 0
At n size i s = Frame n size s × (s.event_index ≡ i)

module _ (n size i w : ℕ) (s : Fsm) (here : At n size i s) where
  pub trans02-At : At n size i (trans02 w s)
  unfolding trans02
  trans02-At = ground arith

  pub trans03-At : Ends (At n size i) (trans03 w s)
  unfolding trans03
  trans03-At = ground arith

  pub trans04-At : Ends (At n size i) (trans04 w s)
  unfolding trans04
  trans04-At = ground arith

  pub trans05-At : Ends (At n size i) (trans05 w s)
  unfolding trans05
  trans05-At = ground arith

  pub trans06-At : Ends (At n size i) (trans06 w s)
  unfolding trans06
  trans06-At = ground arith

  pub trans07_tag-At : Ends (At n size i) (trans07_tag w s)
  unfolding trans07_tag read_tag
  trans07_tag-At = ground arith

  pub trans09_tag-At : Ends (At n size i) (trans09_tag w s)
  unfolding trans09_tag
  trans09_tag-At = ground arith

  pub trans10_tag-At : Ends (At n size i) (trans10_tag w s)
  unfolding trans10_tag
  trans10_tag-At = ground arith

  pub trans11_tag-At : At n size i (trans11_tag w s)
  unfolding trans11_tag
  trans11_tag-At = ground arith

  pub trans12-At : Ends (At n size i) (trans12 w s)
  unfolding trans12
  trans12-At = ground arith

  pub trans13-At : At n size i (trans13 w s)
  unfolding trans13
  trans13-At = ground arith

  pub trans14-At : Ends (At n size i) (trans14 w s)
  unfolding trans14
  trans14-At = ground arith

  pub trans15-At : At n size i (trans15 w s)
  unfolding trans15
  trans15-At = ground arith

  pub trans17-At : At n size i (trans17 w s)
  unfolding trans17
  trans17-At = ground arith

  pub trans18-At : At n size i (trans18 w s)
  unfolding trans18
  trans18-At = ground arith

  check_block-At : Ends (At n size i) (check_block w s)
  unfolding check_block
  check_block-At = ground arith

module _ (n size i : ℕ) where
  close_trigger-At :
      (b : FzBlock) (s : Fsm) → At n size i s → Ends (At n size i) (close_trigger b s)
  unfolding close_trigger
  close_trigger-At b s h = ground arith

  settle_block-At : (s : Fsm) → At n size i s → Ends (At n size i) (settle_block s)
  unfolding settle_block
  settle_block-At s h = ground (arith, close_trigger-At (s.ev.blocks.cell s.blk) s h)

  pub trans16-At : (w : ℕ) (s : Fsm) → At n size i s → Ends (At n size i) (trans16 w s)
  unfolding trans16
  trans16-At w s h =
      Ends-bind (At n size i) (At n size i) (check_block w s) settle_block
        (check_block-At n size i w s h) settle_block-At
