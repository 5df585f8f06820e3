-- ===== src/Fsm/Safety/Basic.antt =====
-- The transitions of the basic format.
use fz_daq.Prelude.{
  ℕ, leb, drop, if◌then◌else◌, zero, suc, ◌≡◌, true, List, [], ◌∷◌, arith, Bool-cases, inl, inr, ok,
}
use fz_daq.Event.{FzDataType}
use fz_daq.Fsm.State.{Fsm, word, with_d, update_fee, update_blk}
use fz_daq.Fsm.Word.{length_of}
use fz_daq.Fsm.Check.{check_waveform, check_energy, check_data}
use fz_daq.Fsm.Basic.{
  trans07_basic, trans08_basic, trans09_basic, trans10_basic, trans11_basic, gather_word,
  gather_data, gather_count, skip_words, read_adc, samples_to_tag, energy_word, energies_word,
  waveform_word, sine_at, restore_crc, is_adc, gather_all, waveform_samples, next_data,
}
use fz_daq.Fsm.Block.{has_energy}
use fz_daq.Fsm.Safety.Facts.{Safe-bind, word-Safe, Safe, InCard, InBasic}

pub trans07_basic-Safe : (w : ℕ) (s : Fsm) → InBasic s → Safe InBasic (trans07_basic w s)
unfolding trans07_basic
trans07_basic-Safe w s c = ground arith

pub check_waveform-Safe : (s : Fsm) → InBasic s → Safe InBasic (check_waveform s)
unfolding check_waveform
check_waveform-Safe s c = ground arith

pub check_energy-Safe : (s : Fsm) → InBasic s → Safe InBasic (check_energy s)
unfolding check_energy
check_energy-Safe s c = ground arith

pub gather_word-Safe : (w : ℕ) (s : Fsm) → InBasic s → Safe InBasic (gather_word w s)
unfolding gather_word
gather_word-Safe w s c = ground arith

gather_data-Safe : (ws : List ℕ) (s : Fsm) → InBasic s → Safe InBasic (gather_data ws s)
unfolding gather_data
gather_data-Safe [] s c = tt
gather_data-Safe (w ∷ ws) s c = elim (Bool-cases (leb w 0x7FFF)) [
  | inl e ↦ rw e (
      Safe-bind InBasic InBasic (gather_word w s) (gather_data ws) (gather_word-Safe w s c)
        (gather_data-Safe ws))
  | inr e ↦ rw e c
]

gather_count-Safe : (n : ℕ) (s : Fsm) → InBasic s → Safe InBasic (gather_count n s)
unfolding gather_count
gather_count-Safe zero s c = c
gather_count-Safe (suc n) s c =
    Safe-bind (λ _. Unit {0}) InBasic (word s) _ (word-Safe s)
      λ w _.
        Safe-bind InBasic InBasic (gather_word w s) (gather_count n) (gather_word-Safe w s c)
          (gather_count-Safe n)

skip_words-Safe : (n : ℕ) (s : Fsm) → InBasic s → Safe InBasic (skip_words n s)
unfolding skip_words
skip_words-Safe zero s c = c
skip_words-Safe (suc n) s c =
    Safe-bind (λ _. Unit {0}) InBasic (word s) _ (word-Safe s) λ w _. skip_words-Safe n _ c

sine_at-Safe : (k : ℕ) (s : Fsm) → Safe (λ _. Unit {0}) (sine_at k s)
unfolding sine_at
sine_at-Safe k s = ground arith

read_adc-Safe : (s : Fsm) → InBasic s → Safe InBasic (read_adc s)
unfolding read_adc
read_adc-Safe s c =
    Safe-bind (λ _. Unit {0}) InBasic (sine_at 0 s) _ (sine_at-Safe 0 s)
      λ a _.
        Safe-bind (λ _. Unit {0}) InBasic (sine_at 3 s) _ (sine_at-Safe 3 s)
          λ b _.
            Safe-bind InBasic InBasic (with_d (λ o. record o { sine = a; cosine = b }) s) _
              (ground arith)
              λ t h. Safe-bind InBasic InBasic (skip_words 6 t) _ (skip_words-Safe 6 t h) λ u k. k

samples_to_tag-Safe : (s : Fsm) → InBasic s → Safe InBasic (samples_to_tag s)
unfolding samples_to_tag
samples_to_tag-Safe s c =
    Safe-bind InBasic InBasic (gather_data (drop s.event_index s.event) (restore_crc s)) _
      (gather_data-Safe (drop s.event_index s.event) (restore_crc s) c) λ t h. h

energy_word-Safe :
    (w : ℕ) (s : Fsm)
    → InBasic s
    → has_energy (s.ev.datas.cell s.d).type ≡ true
    → Safe InBasic (energy_word w s)
unfolding energy_word
energy_word-Safe w s c e = ground (arith, samples_to_tag-Safe s c)

energies_word-Safe :
    (w : ℕ) (s : Fsm)
    → InBasic s
    → has_energy (s.ev.datas.cell s.d).type ≡ true
    → Safe InBasic (energies_word w s)
unfolding energies_word
energies_word-Safe w s c e = ground (arith, samples_to_tag-Safe s c)

gather_all-Safe : (s : Fsm) → InBasic s → Safe InBasic (gather_all s)
unfolding gather_all
gather_all-Safe s c =
    Safe-bind InBasic InBasic (gather_count s.rd_wflen s) _ (gather_count-Safe s.rd_wflen s c)
      λ t h. h

waveform_samples-Safe :
    (type : FzDataType) (s : Fsm) → InBasic s → Safe InBasic (waveform_samples type s)
unfolding waveform_samples
waveform_samples-Safe type s c =
    Safe-bind InBasic InBasic (if is_adc type then read_adc s else ok s) gather_all
      (ground (arith, read_adc-Safe s c)) gather_all-Safe

waveform_word-Safe :
    (type : FzDataType) (w : ℕ) (s : Fsm) → InBasic s → Safe InBasic (waveform_word type w s)
unfolding waveform_word
waveform_word-Safe type w s c = ground (arith, waveform_samples-Safe type (restore_crc s) c)

pub trans08_basic-Safe : (w : ℕ) (s : Fsm) → InBasic s → Safe InBasic (trans08_basic w s)
unfolding trans08_basic
trans08_basic-Safe w s c = ground (
  arith,
  energy_word-Safe w (update_fee w (update_blk w s)) c,
  energies_word-Safe w (update_fee w (update_blk w s)) c,
  waveform_word-Safe (s.ev.datas.cell s.d).type w (update_fee w (update_blk w s)) c,
)

-- Both checks leave the machine inside its data object.
check_data-Safe : (s : Fsm) → InBasic s → Safe InBasic (check_data s)
unfolding check_data
check_data-Safe s c =
    Safe-bind InBasic InBasic (check_waveform s) check_energy (check_waveform-Safe s c)
      check_energy-Safe

next_data-Safe : (w : ℕ) (s : Fsm) → InBasic s → Safe InBasic (next_data w s)
unfolding next_data
next_data-Safe w s c = ground arith

pub trans09_basic-Safe : (w : ℕ) (s : Fsm) → InBasic s → Safe InBasic (trans09_basic w s)
unfolding trans09_basic
trans09_basic-Safe w s c =
    Safe-bind InBasic InBasic (check_data (update_fee w (update_blk w s))) (next_data w)
      (check_data-Safe (update_fee w (update_blk w s)) c) (next_data-Safe w)

pub trans10_basic-Safe : (w : ℕ) (s : Fsm) → InBasic s → Safe InCard (trans10_basic w s)
unfolding trans10_basic
trans10_basic-Safe w s c =
    Safe-bind InBasic InCard (check_data (update_fee w (update_blk w s))) _
      (check_data-Safe (update_fee w (update_blk w s)) c) (λ t h. ground arith)

pub trans11_basic-Safe : (w : ℕ) (s : Fsm) → InBasic s → Safe InBasic (trans11_basic w s)
unfolding trans11_basic
trans11_basic-Safe w s c = check_data-Safe (update_blk w (record s { rd_feelen = length_of w })) c
