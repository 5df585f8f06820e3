-- ===== src/Fsm/Safety/Machine.antt =====
-- What holds of the machine between two words, and that no word makes it use a dangling pointer.
use fz_daq.Prelude.{
  ℕ, ◌≤◌, ◌≡◌, ◌≢◌, ◌⊎◌, inl, inr, arith, Result, ok, err, dangling, over_read, bad_index,
  out_of_fuel,
}
use fz_daq.Fsm.State.{Fsm}
use fz_daq.Fsm.Process.{by_format, goto}
use fz_daq.Fsm.Safety.Facts.{
  Safe, Safe-bind, HasBlk, HasFee, HasHit, InCard, InBasic, InTagged, InOther, AfterTag,
}

-- The objects that the pointers must have in each state.
pub record Good (s : Fsm) : Type 0 where
  pub known : s.state_id ≤ 10
  pub block : 1 ≤ s.state_id → s.state_id ≤ 9 → HasBlk s
  pub card : 2 ≤ s.state_id → s.state_id ≤ 7 → HasFee s
  pub inside : 2 ≤ s.state_id → s.state_id ≤ 5 → HasHit s
  pub opened : s.state_id ≡ 4 → InBasic s ⊎ InTagged s ⊎ InOther s
  pub filled : s.state_id ≡ 5 → InBasic s ⊎ AfterTag s ⊎ InOther s

-- A transition that ends well, and then the change of state.
pub enter :
    (k : ℕ) (P : Fsm → Type 0) (r : Result Fsm)
    → Safe P r
    → ((t : Fsm) → P t → Good (record t { state_id = k }))
    → Safe Good (goto k r)
enter k P r h f = Safe-bind P Good r (λ t. ok (record t { state_id = k })) h f

-- One lemma for each state that a transition starts from.
pub from_card : (s : Fsm) → Good s → 2 ≤ s.state_id → s.state_id ≤ 5 → InCard s
from_card s g h k = (g.block (omega arith) (omega arith), g.card h (omega arith), g.inside h k)

pub enter_card : (k : ℕ) (r : Result Fsm) → (k ≡ 2) ⊎ (k ≡ 3) → Safe InCard r → Safe Good (goto k r)
enter_card k r e h = enter k InCard r h λ t c. ground arith

-- The data object that is open in the states S4 and S5.
abbrev pub Opened : Fsm → Type 0
Opened s = InBasic s ⊎ InTagged s ⊎ InOther s

abbrev pub Filled : Fsm → Type 0
Filled s = InBasic s ⊎ AfterTag s ⊎ InOther s

pub enter-Opened : (r : Result Fsm) → Safe Opened r → Safe Good (goto 4 r)
enter-Opened r h = enter 4 Opened r h λ t c. ground arith

pub enter-Filled : (r : Result Fsm) → Safe Filled r → Safe Good (goto 5 r)
enter-Filled r h = enter 5 Filled r h λ t c. ground arith

-- A weaker postcondition.
pub weaken {ℓ} :
    {A : Type ℓ} (P Q : A → Type 0) (r : Result A) → Safe P r → ((a : A) → P a → Q a) → Safe Q r
weaken P Q (ok a) h f = f a h
weaken P Q (err dangling) h f = h
weaken P Q (err over_read) h f = tt
weaken P Q (err bad_index) h f = tt
weaken P Q (err out_of_fuel) h f = tt

-- What `by_format` comes to in each format.
basic_format : (f : ℕ) (a b : Fsm → Result Fsm) (s : Fsm) → f ≡ 0 → by_format f a b s ≡ a s
basic_format f a b s e = rw e

tag_format : (f : ℕ) (a b : Fsm → Result Fsm) (s : Fsm) → f ≡ 1 → by_format f a b s ≡ b s
tag_format f a b s e = rw e

other_format : (f : ℕ) (a b : Fsm → Result Fsm) (s : Fsm) → f ≢ 0 → f ≢ 1 → by_format f a b s ≡ ok s
other_format f a b s e g = ground arith

-- A transition by the format keeps `P`, if each format's own does.
pub by_format-Safe :
    (B T P : Fsm → Type 0) (s : Fsm) (a b : Fsm → Result Fsm)
    → ((s.evformat ≡ 0) × B s) ⊎ ((s.evformat ≡ 1) × T s) ⊎ InOther s
    → (B s → Safe P (a s))
    → (T s → Safe P (b s))
    → (InOther s → P s)
    → Safe P (by_format s.evformat a b s)
by_format-Safe B T P s a b (inl (e, h)) f g k = rw (basic_format s.evformat a b s e) (f h)
by_format-Safe B T P s a b (inr (inl (e, h))) f g k = rw (tag_format s.evformat a b s e) (g h)
by_format-Safe B T P s a b (inr (inr h)) f g k = rw (other_format s.evformat a b s h.1 h.2) (k h)

pub Opened-format :
    (s : Fsm)
    → Opened s
    → ((s.evformat ≡ 0) × InBasic s) ⊎ ((s.evformat ≡ 1) × InTagged s) ⊎ InOther s
Opened-format s o = ground arith

pub Filled-format :
    (s : Fsm)
    → Filled s
    → ((s.evformat ≡ 0) × InBasic s) ⊎ ((s.evformat ≡ 1) × AfterTag s) ⊎ InOther s
Filled-format s o = ground arith
