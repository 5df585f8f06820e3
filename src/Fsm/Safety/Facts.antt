-- ===== src/Fsm/Safety/Facts.antt =====
-- Which pointers of class FzFSM are good, and what it means that a call does not use a bad one.
use fz_daq.Prelude.{
  ◌≢◌, ◌>>=◌, arith, ◌⊎◌, ◌<◌, ◌≡◌, Bool, true, false, Option, none, some, Result, ok, err,
  dangling, over_read, bad_index, out_of_fuel,
}
use fz_daq.Fsm.State.{Fsm, word, fmt_basic, fmt_tag}
use fz_daq.Fsm.Block.{has_energy}
use fz_daq.Fsm.Tag.{tag_pretrigger, tag_waveform, tag_slow, tag_fast}

-- The call does not use a dangling pointer, and a normal return satisfies `P`.
abbrev pub Safe {ℓ} : {A : Type ℓ} → (A → Type 0) → Result A → Type 0
Safe P (ok a) = P a
Safe P (err dangling) = ⊥
Safe P (err over_read) = Unit {0}
Safe P (err bad_index) = Unit {0}
Safe P (err out_of_fuel) = Unit {0}

abbrev pub present {ℓ} : {A : Type ℓ} → Option A → Bool
present none = false
present (some _) = true

abbrev pub HasBlk : Fsm → Type 0
HasBlk s = s.blk < s.ev.blocks.count

abbrev pub HasFee : Fsm → Type 0
HasFee s = s.fee < s.ev.fees.count

abbrev pub HasHit : Fsm → Type 0
HasHit s = s.hit < s.ev.hits.count

abbrev pub HasD : Fsm → Type 0
HasD s = s.d < s.ev.datas.count

abbrev pub HasEn : Fsm → Type 0
HasEn s = (s.en < s.ev.datas.count) × (present (s.ev.datas.cell s.en).energy ≡ true)

abbrev pub HasWf : Fsm → Type 0
HasWf s = (s.wf < s.ev.datas.count) × (present (s.ev.datas.cell s.wf).waveform ≡ true)

-- Inside a card: its block, itself and the current hit.
abbrev pub InCard : Fsm → Type 0
InCard s = HasBlk s × HasFee s × HasHit s

-- Inside a data object of the basic format: an energy is there if its type has one.
abbrev pub InBasic : Fsm → Type 0
InBasic s =
    InCard s
    × HasD s
    × HasWf s
    × (has_energy (s.ev.datas.cell s.d).type ≡ true → HasEn s)
    × (s.evformat ≡ fmt_basic)

-- Inside a data object of the tagged format: if it has a waveform, `wf` points to one.
abbrev pub InTagged : Fsm → Type 0
InTagged s =
    InCard s
    × HasD s
    × (present (s.ev.datas.cell s.d).waveform ≡ true → HasWf s)
    × (s.evformat ≡ fmt_tag)

-- The same once a tag has been read: the part that it fills is there.
abbrev pub AfterTag : Fsm → Type 0
AfterTag s =
    InTagged s
    × (s.tag_done ≡ true → (s.tag ≡ tag_pretrigger) ⊎ (s.tag ≡ tag_waveform) → HasWf s)
    × (s.tag_done ≡ true → (s.tag ≡ tag_slow) ⊎ (s.tag ≡ tag_fast) → HasEn s)

-- In a format that is neither.
abbrev pub InOther : Fsm → Type 0
InOther s = InCard s × (s.evformat ≢ fmt_basic) × (s.evformat ≢ fmt_tag)

-- The rule of composition.
pub Safe-bind {ℓ κ} :
    {A : Type ℓ} {B : Type κ} (P : A → Type 0) (Q : B → Type 0) (m : Result A) (f : A → Result B)
    → Safe P m
    → ((a : A) → P a → Safe Q (f a))
    → Safe Q (m >>= f)
Safe-bind P Q (ok a) f h k = k a h
Safe-bind P Q (err dangling) f h k = elim h [ ]
Safe-bind P Q (err over_read) f h k = tt
Safe-bind P Q (err bad_index) f h k = tt
Safe-bind P Q (err out_of_fuel) f h k = tt

-- A computed value that is a word or an over-read.
pub word-Safe : (s : Fsm) → Safe (λ _. Unit {0}) (word s)
word-Safe s = ground arith
