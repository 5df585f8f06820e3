-- ===== src/Fsm/Control/Step.antt =====
-- What the machine does with a word, by its documentation.
pub use fz_daq.Prelude.{Returns, Gives}
use fz_daq.Prelude.{
  ℕ, ◌≤◌, ◌≡◌, ◌≢◌, inl, inr, true, false, Result, ok, err, arith, if◌then◌else◌, ◌==◌, ◌∙◌, sym,
  ap, Bool-cases,
}
use mathlib.Core.Path.{subst}
use fz_daq.Fsm.State.{Fsm, Floats}
use fz_daq.Fsm.Word.{getword_id, table_entry}
use fz_daq.Fsm.Block.{
  trans02, trans03, trans04, trans05, trans06, trans12, trans13, trans14, trans15, trans16, trans17,
}
use fz_daq.Fsm.Basic.{trans07_basic, trans08_basic, trans09_basic, trans10_basic, trans11_basic}
use fz_daq.Fsm.Tag.{trans07_tag, trans08_tag, trans09_tag, trans10_tag, trans11_tag}
use fz_daq.Fsm.Process.{trans18, by_format, goto, fire, take_word}
use fz_daq.Fsm.Control.Words.{getword_id-lt}
use fz_daq.Fsm.Control.Table.{next_state, target, target-next, table_plain}

-- The machine is in the state that the transition `t` leads to.
abbrev Reached : ℕ → Fsm → Type 0
Reached t u = u.state_id ≡ target t

==_eq : (a b : ℕ) → (a == b) ≡ true → a ≡ b
==_eq a b h = ground arith

==_ne : (a b : ℕ) → (a == b) ≡ false → a ≢ b
==_ne a b h = ground arith

goto-Reached : (k t : ℕ) (r : Result Fsm) → t ≡ k → Returns (Reached t) (goto (target k) r)
goto-Reached k t (ok a) e = ap target (sym e)
goto-Reached k t (err f) e = tt

Returns-if :
    (P : Fsm → Type 0) (k t : ℕ) (x y : Result Fsm)
    → (t ≡ k → Returns P x)
    → (t ≢ k → Returns P y)
    → Returns P (if t == k then x else y)
Returns-if P k t x y f g = elim (Bool-cases (t == k)) [
  | inl q ↦ rw q (f (==_eq t k q))
  | inr q ↦ rw q (g (==_ne t k q))
]

fire-state :
    (fl : Floats) (t w : ℕ) (s : Fsm)
    → t ≤ 18
    → (t ≡ 1 → s.state_id ≡ 0)
    → Returns (Reached t) (fire fl t w s)
unfolding fire target
fire-state fl t w s b h =
    let f = s.evformat in
    Returns-if (Reached t) 0 t _ _ (λ e. ap target (sym e))
      λ n0.
        Returns-if (Reached t) 1 t _ _ (λ e. h e ∙ ap target (sym e))
          λ n1. Returns-if (Reached t) 2 t _ _ (goto-Reached 2 t (ok (trans02 w s))) λ n2.
            Returns-if (Reached t) 3 t _ _ (goto-Reached 3 t (trans03 w s)) λ n3.
              Returns-if (Reached t) 4 t _ _ (goto-Reached 4 t (trans04 w s)) λ n4.
                Returns-if (Reached t) 5 t _ _ (goto-Reached 5 t (trans05 w s)) λ n5.
                  Returns-if (Reached t) 6 t _ _ (goto-Reached 6 t (trans06 w s)) λ n6.
                    Returns-if (Reached t) 7 t _ _
                      (goto-Reached 7 t (by_format f (trans07_basic w) (trans07_tag w) s))
                      λ n7.
                        Returns-if (Reached t) 8 t _ _
                          (goto-Reached 8 t (by_format f (trans08_basic w) (trans08_tag fl w) s))
                          λ n8.
                            Returns-if (Reached t) 9 t _ _
                              (goto-Reached 9 t (by_format f (trans09_basic w) (trans09_tag w) s))
                              λ n9.
                                Returns-if (Reached t) 10 t _ _
                                  (goto-Reached 10 t
                                    (by_format f (trans10_basic w) (trans10_tag w) s))
                                  λ n10.
                                    Returns-if (Reached t) 11 t _ _
                                      (goto-Reached 11 t (
                                        by_format f (trans11_basic w) (λ r. ok (trans11_tag w r))
                                          s))
                                      λ n11.
                                        Returns-if (Reached t) 12 t _ _
                                          (goto-Reached 12 t (trans12 w s))
                                          λ n12.
                                            Returns-if (Reached t) 13 t _ _
                                              (goto-Reached 13 t (ok (trans13 w s)))
                                              λ n13.
                                                Returns-if (Reached t) 14 t _ _
                                                  (goto-Reached 14 t (trans14 w s))
                                                  λ n14.
                                                    Returns-if (Reached t) 15 t _ _
                                                      (goto-Reached 15 t (ok (trans15 w s)))
                                                      λ n15.
                                                        Returns-if (Reached t) 16 t _ _
                                                          (goto-Reached 16 t (trans16 w s))
                                                          λ n16.
                                                            Returns-if (Reached t) 17 t _ _
                                                            (goto-Reached 17 t (ok (trans17 w s)))
                                                            λ n17.
                                                            Returns-if (Reached t) 18 t _ _
                                                            (goto-Reached 18 t (ok (trans18 w s)))
                                                            λ n18. absurd (omega arith)

Returns-word :
    (fl : Floats) (w : ℕ) (s : Fsm)
    → s.state_id ≤ 10
    → getword_id w ≢ 8
    → Returns (λ t. t.state_id ≡ next_state (getword_id w) s.state_id) (take_word fl w s)
unfolding take_word
Returns-word fl w s h n =
    let i = getword_id w in
    let t = table_entry i s.state_id in
    let (b, c) = table_plain i s.state_id (getword_id-lt w) h in
    Returns-if (λ u. u.state_id ≡ next_state i s.state_id) 8 i (ok s) (fire fl t w s)
      (λ e. absurd (n e))
      λ _.
        subst (λ x. Returns (λ u. u.state_id ≡ x) (fire fl t w s))
          (target-next i s.state_id (getword_id-lt w) h) (fire-state fl t w s b c)

-- From one of the eleven states, an EMPTY word leaves the machine as it is, and any other word, if
-- it is taken without an undefined access, leads to the state that the documented list of
-- transitions gives for it.
pub take_word-next :
    (fl : Floats) (w : ℕ) (s : Fsm)
    → s.state_id ≤ 10
    → (getword_id w ≡ 8 → take_word fl w s ≡ ok s)
      × (getword_id w ≢ 8
          → Returns (λ t. t.state_id ≡ next_state (getword_id w) s.state_id) (take_word fl w s))
unfolding take_word
take_word-next fl w s h = (λ e. rw e, λ n. Returns-word fl w s h n)
