-- ===== src/Fsm/Safety/Fire.antt =====
-- Every transition, from the state that it starts from, leaves the machine as it should be.
use fz_daq.Prelude.{
  ℕ, ◌≤◌, ◌≡◌, refl, ◌⊎◌, inl, inr, Bool, true, false, arith, Result, ok, if◌then◌else◌, ◌==◌, ◌∙◌,
  ap,
}
use native.Mathlib.Decide.{ℕ_discrete}
use fz_daq.Fsm.State.{Fsm, Floats}
use fz_daq.Fsm.Block.{
  trans02, trans03, trans04, trans05, trans06, trans12, trans13, trans14, trans15, trans16, trans17,
}
use fz_daq.Fsm.Basic.{trans07_basic, trans08_basic, trans09_basic, trans10_basic, trans11_basic}
use fz_daq.Fsm.Tag.{trans07_tag, trans08_tag, trans09_tag, trans10_tag, trans11_tag}
use fz_daq.Fsm.Control.Table.{source}
use fz_daq.Fsm.Process.{trans18, by_format, goto, fire}
use fz_daq.Fsm.Safety.Facts.{Safe, HasBlk, HasFee, InCard, InBasic, InTagged, InOther, AfterTag}
use fz_daq.Fsm.Safety.Common.{
  trans02-HasBlk, trans03-Safe, trans04-Safe, trans05-Safe, trans06-Safe, trans06_tag-Safe,
  trans06_other-Safe, trans12-Safe, trans14-Safe, trans16-Safe, trans17-HasBlk,
}
use fz_daq.Fsm.Safety.Basic.{
  trans07_basic-Safe, trans08_basic-Safe, trans09_basic-Safe, trans10_basic-Safe,
  trans11_basic-Safe,
}
use fz_daq.Fsm.Safety.Tag.{trans07_tag-Safe, trans08_tag-Safe, trans09_tag-Safe, trans10_tag-Safe}
use fz_daq.Fsm.Safety.Machine.{
  Good, enter, from_card, enter_card, Opened, Filled, enter-Opened, enter-Filled, weaken,
  by_format-Safe, Opened-format, Filled-format,
}

fire3-Good : (w : ℕ) (s : Fsm) → Good s → s.state_id ≡ 1 → Safe Good (goto 2 (trans03 w s))
fire3-Good w s g e =
    enter_card 2 (trans03 w s) (inl refl) (trans03-Safe w s (g.block (omega arith) (omega arith)))

fire4-Good : (w : ℕ) (s : Fsm) → Good s → s.state_id ≡ 2 → Safe Good (goto 3 (trans04 w s))
fire4-Good w s g e =
    enter_card 3 (trans04 w s) (inr refl)
      (trans04-Safe w s (from_card s g (omega arith) (omega arith)))

fire5-Good : (w : ℕ) (s : Fsm) → Good s → s.state_id ≡ 3 → Safe Good (goto 3 (trans05 w s))
fire5-Good w s g e =
    enter_card 3 (trans05 w s) (inr refl)
      (trans05-Safe w s (from_card s g (omega arith) (omega arith)))

trans06-Opened : (w : ℕ) (s : Fsm) → InCard s → Safe Opened (trans06 w s)
trans06-Opened w s c = elim (ℕ_discrete s.evformat 0) [
  | yes e ↦ weaken InBasic Opened (trans06 w s) (trans06-Safe w s c e) (λ t h. inl h)
  | no e ↦ elim (ℕ_discrete s.evformat 1) [
    | yes f ↦ weaken InTagged Opened (trans06 w s) (trans06_tag-Safe w s c f) (λ t h. inr (inl h))
    | no f ↦ weaken InOther Opened (trans06 w s) (trans06_other-Safe w s c e f) (λ t h. inr (inr h))
  ]
]

fire6-Good : (w : ℕ) (s : Fsm) → Good s → s.state_id ≡ 3 → Safe Good (goto 4 (trans06 w s))
fire6-Good w s g e =
    enter-Opened (trans06 w s) (trans06-Opened w s (from_card s g (omega arith) (omega arith)))

fire2-Good : (w : ℕ) (s : Fsm) → Safe Good (goto 1 (ok (trans02 w s)))
fire2-Good w s = ground (arith, trans02-HasBlk w s)

fire7-Good :
    (w : ℕ) (s : Fsm)
    → Good s
    → s.state_id ≡ 4
    → Safe Good (goto 5 (by_format s.evformat (trans07_basic w) (trans07_tag w) s))
fire7-Good w s g e = enter-Filled (by_format s.evformat (trans07_basic w) (trans07_tag w) s) (
    by_format-Safe InBasic InTagged Filled s (trans07_basic w) (trans07_tag w)
      (Opened-format s (g.opened e))
      (λ c. weaken InBasic Filled (trans07_basic w s) (trans07_basic-Safe w s c) (λ t h. inl h))
      (λ c. weaken AfterTag Filled (trans07_tag w s) (trans07_tag-Safe w s c) (λ t h. inr (inl h)))
      (λ c. inr (inr c)))

fire8-Good :
    (fl : Floats) (w : ℕ) (s : Fsm)
    → Good s
    → s.state_id ≡ 5
    → Safe Good (goto 5 (by_format s.evformat (trans08_basic w) (trans08_tag fl w) s))
fire8-Good fl w s g e = enter-Filled (by_format s.evformat (trans08_basic w) (trans08_tag fl w) s) (
    by_format-Safe InBasic AfterTag Filled s (trans08_basic w) (trans08_tag fl w)
      (Filled-format s (g.filled e))
      (λ c. weaken InBasic Filled (trans08_basic w s) (trans08_basic-Safe w s c) (λ t h. inl h))
      (λ c.
        weaken AfterTag Filled (trans08_tag fl w s) (trans08_tag-Safe fl w s c)
          (λ t h. inr (inl h)))
      (λ c. inr (inr c)))

fire9-Good :
    (w : ℕ) (s : Fsm)
    → Good s
    → s.state_id ≡ 5
    → Safe Good (goto 4 (by_format s.evformat (trans09_basic w) (trans09_tag w) s))
fire9-Good w s g e = enter-Opened (by_format s.evformat (trans09_basic w) (trans09_tag w) s) (
    by_format-Safe InBasic AfterTag Opened s (trans09_basic w) (trans09_tag w)
      (Filled-format s (g.filled e))
      (λ c. weaken InBasic Opened (trans09_basic w s) (trans09_basic-Safe w s c) (λ t h. inl h))
      (λ c. weaken InTagged Opened (trans09_tag w s) (trans09_tag-Safe w s c) (λ t h. inr (inl h)))
      (λ c. inr (inr c)))

fire10-Good :
    (w : ℕ) (s : Fsm)
    → Good s
    → s.state_id ≡ 5
    → Safe Good (goto 2 (by_format s.evformat (trans10_basic w) (trans10_tag w) s))
fire10-Good w s g e =
    enter_card 2 (by_format s.evformat (trans10_basic w) (trans10_tag w) s) (inl refl) (
      by_format-Safe InBasic AfterTag InCard s (trans10_basic w) (trans10_tag w)
        (Filled-format s (g.filled e)) (trans10_basic-Safe w s) (trans10_tag-Safe w s) (λ c. c.0))

fire11-Good :
    (w : ℕ) (s : Fsm)
    → Good s
    → s.state_id ≡ 5
    → Safe Good (goto 6 (by_format s.evformat (trans11_basic w) (λ r. ok (trans11_tag w r)) s))
unfolding trans11_tag
fire11-Good w s g e =
    enter 6 InCard (by_format s.evformat (trans11_basic w) (λ r. ok (trans11_tag w r)) s)
      (by_format-Safe InBasic AfterTag InCard s (trans11_basic w) (λ r. ok (trans11_tag w r))
        (Filled-format s (g.filled e))
        (λ c. weaken InBasic InCard (trans11_basic w s) (trans11_basic-Safe w s c) (λ t h. h.0))
        (λ c. c.0.0) (λ c. c.0))
      (λ t c. ground arith)

-- A block and its card, past the hits.
abbrev CardOnly : Fsm → Type 0
CardOnly s = HasBlk s × HasFee s

fire12-Good : (w : ℕ) (s : Fsm) → Good s → s.state_id ≡ 6 → Safe Good (goto 7 (trans12 w s))
fire12-Good w s g e =
    enter 7 CardOnly (trans12 w s)
      (trans12-Safe w s (g.block (omega arith) (omega arith)) (g.card (omega arith) (omega arith)))
      (λ t c. ground arith)

fire13-Good : (w : ℕ) (s : Fsm) → Good s → s.state_id ≡ 7 → Safe Good (goto 1 (ok (trans13 w s)))
unfolding trans13
fire13-Good w s g e = ground (arith, g.block)

fire14-Good : (w : ℕ) (s : Fsm) → Good s → s.state_id ≡ 1 → Safe Good (goto 8 (trans14 w s))
fire14-Good w s g e =
    enter 8 HasBlk (trans14 w s) (trans14-Safe w s (g.block (omega arith) (omega arith)))
      (λ t c. ground arith)

fire15-Good : (w : ℕ) (s : Fsm) → Good s → s.state_id ≡ 8 → Safe Good (goto 9 (ok (trans15 w s)))
unfolding trans15
fire15-Good w s g e = ground (arith, g.block)

fire16-Good : (w : ℕ) (s : Fsm) → Good s → s.state_id ≡ 9 → Safe Good (goto 10 (trans16 w s))
fire16-Good w s g e =
    enter 10 (λ _. Unit {0}) (trans16 w s) (trans16-Safe w s (g.block (omega arith) (omega arith)))
      (λ t c. ground arith)

fire17-Good : (w : ℕ) (s : Fsm) → Safe Good (goto 1 (ok (trans17 w s)))
fire17-Good w s = ground (arith, trans17-HasBlk w s)

fire18-Good : (w : ℕ) (s : Fsm) → Safe Good (goto 0 (ok (trans18 w s)))
fire18-Good w s = ground arith

-- A branch on a Boolean test.
pub Safe-if {ℓ} :
    {A : Type ℓ} (P : A → Type 0) (b : Bool) (x y : Result A)
    → (b ≡ true → Safe P x)
    → (b ≡ false → Safe P y)
    → Safe P (if b then x else y)
Safe-if P true x y f g = f refl
Safe-if P false x y f g = g refl

starts :
    (k t : ℕ) (s : Fsm) → (t ≤ 1) ⊎ (s.state_id ≡ source t) → 2 ≤ k → t ≡ k → s.state_id ≡ source k
starts k t s (inl h) l e = absurd (omega arith)
starts k t s (inr h) l e = h ∙ ap source e

==_eq : (a b : ℕ) → (a == b) ≡ true → a ≡ b
==_eq a b h = ground arith

-- The test of one `case`.
case_of :
    (k t : ℕ) (s : Fsm) (x y : Result Fsm)
    → (t ≤ 1) ⊎ (s.state_id ≡ source t)
    → 2 ≤ k
    → (s.state_id ≡ source k → Safe Good x)
    → Safe Good y
    → Safe Good (if t == k then x else y)
case_of k t s x y h l f g = elim (ℕ_discrete t k) [
  | yes e ↦ Safe-if Good (t == k) x y (λ _. f (starts k t s h l e)) (λ _. g)
  | no e ↦ Safe-if Good (t == k) x y (λ q. absurd (e (==_eq t k q))) (λ _. g)
]

pub fire-Good :
    (fl : Floats) (t w : ℕ) (s : Fsm)
    → Good s
    → (t ≤ 1) ⊎ (s.state_id ≡ source t)
    → Safe Good (fire fl t w s)
unfolding fire source
fire-Good fl t w s g h =
    Safe-if Good (t == 0) _ _ (λ _. ground arith)
      λ _.
        Safe-if Good (t == 1) _ _ (λ _. g)
          λ _.
            case_of 2 t s _ _ h (omega arith) (λ e. fire2-Good w s)
              (case_of 3 t s _ _ h (omega arith) (fire3-Good w s g) (
                case_of 4 t s _ _ h (omega arith) (fire4-Good w s g) (
                  case_of 5 t s _ _ h (omega arith) (fire5-Good w s g) (
                    case_of 6 t s _ _ h (omega arith) (fire6-Good w s g) (
                      case_of 7 t s _ _ h (omega arith) (fire7-Good w s g) (
                        case_of 8 t s _ _ h (omega arith) (fire8-Good fl w s g) (
                          case_of 9 t s _ _ h (omega arith) (fire9-Good w s g) (
                            case_of 10 t s _ _ h (omega arith) (fire10-Good w s g) (
                              case_of 11 t s _ _ h (omega arith) (fire11-Good w s g) (
                                case_of 12 t s _ _ h (omega arith) (fire12-Good w s g) (
                                  case_of 13 t s _ _ h (omega arith) (fire13-Good w s g) (
                                    case_of 14 t s _ _ h (omega arith) (fire14-Good w s g) (
                                      case_of 15 t s _ _ h (omega arith) (fire15-Good w s g) (
                                        case_of 16 t s _ _ h (omega arith) (fire16-Good w s g) (
                                          case_of 17 t s _ _ h (omega arith) (λ e. fire17-Good w s)
                                            (case_of 18 t s _ _ h (omega arith)
                                              (λ e. fire18-Good w s) (g)))))))))))))))))
