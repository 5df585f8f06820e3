-- ===== src/Fsm/Safety/Tag.antt =====
-- The transitions of the tagged format.
use fz_daq.Prelude.{
  ℕ, ◌⊎◌, Bool-cases, inl, inr, ◌*◌, ◌/◌, ◌++◌, zero, suc, ◌+◌, ◌≡◌, refl, true, false, [], ◌∷◌,
  arith, ok, ◌>>=◌, or_fault, bad_index, get_elem?, if◌then◌else◌, ◌==◌,
}
use Prim.Native.String.{String}
use fz_daq.Event.{FzHit}
use fz_daq.Fsm.State.{
  Fsm, Floats, word, the_hit, next_event_word, with_wf, with_en, the_en, update_blk, update_fee,
  add_trinfo, put_en, set_value, u32, u64,
}
use fz_daq.Fsm.Check.{check_waveform}
use fz_daq.Fsm.Trigger.{trigger_names}
use fz_daq.Fsm.Tag.{
  tag_waveform, tag_pretrigger, tag_slow, tag_fast, read_tag, trans07_tag, gather_tagged,
  close_samples, tagged_waveform, tagged_energy, tagged_baseline, read_counters, two_words,
  next_pair, read_centrum, read_trigger_tag, read_values, finish_tag, trans08_tag, trans09_tag,
  trans10_tag,
}
use fz_daq.Fsm.Safety.Facts.{Safe, Safe-bind, word-Safe, HasEn, HasWf, InCard, InTagged, AfterTag}

pub read_tag-Safe :
    (w : ℕ) (s : Fsm) → InTagged s → s.tag_done ≡ false → Safe AfterTag (read_tag w s)
unfolding read_tag
read_tag-Safe w s c e = ground arith

pub trans07_tag-Safe : (w : ℕ) (s : Fsm) → InTagged s → Safe AfterTag (trans07_tag w s)
unfolding trans07_tag
trans07_tag-Safe w s c =
    read_tag-Safe w
      (update_fee w
        (update_blk w (record s { tag_done = false; wflen_done = false; rd_wflen = 0 })))
      c refl

-- While the values of a tag are read.
abbrev Reading : Fsm → Type 0
Reading s =
    InTagged s
    × ((s.tag ≡ tag_pretrigger) ⊎ (s.tag ≡ tag_waveform) → HasWf s)
    × ((s.tag ≡ tag_slow) ⊎ (s.tag ≡ tag_fast) → HasEn s)

next-Safe : (s : Fsm) → Reading s → Safe Reading (next_event_word s)
next-Safe s c = ground arith

two_words-Safe :
    (id : ℕ) (name : String) (f : ℕ → ℕ) (w : ℕ) (s : Fsm)
    → Reading s
    → Safe Reading (two_words id name f w s)
unfolding two_words
two_words-Safe id name f w s c =
    Safe-bind Reading Reading (next_event_word s) _ (next-Safe s c)
      λ t h. Safe-bind (λ _. Unit {0}) Reading (word t) _ (word-Safe t) λ v _. h

next_pair-Safe : (id : ℕ) (name : String) (s : Fsm) → Reading s → Safe Reading (next_pair id name s)
unfolding next_pair
next_pair-Safe id name s c = Safe-bind Reading Reading (next_event_word s) _ (next-Safe s c) λ t h.
    Safe-bind (λ _. Unit {0}) Reading (word t) _ (word-Safe t)
      λ w _. two_words-Safe id name (λ v. v) w t h

read_centrum-Safe : (w : ℕ) (s : Fsm) → Reading s → Safe Reading (read_centrum w s)
unfolding read_centrum
read_centrum-Safe w s c =
    Safe-bind Reading Reading (next_pair 0x201 "centrum1" _) _ (next_pair-Safe 0x201 "centrum1" _ c)
      λ t h.
        Safe-bind Reading Reading (next_pair 0x202 "centrum2" t) (next_pair 0x203 "centrum3")
          (next_pair-Safe 0x202 "centrum2" t h) (next_pair-Safe 0x203 "centrum3")

name-Safe : (i : ℕ) → Safe (λ _. Unit {0}) (or_fault bad_index (get_elem? trigger_names i))
name-Safe i = ground arith

last_or_next-Safe :
    (n : ℕ) (s : Fsm) → Reading s → Safe Reading (if n == 0 then ok s else next_event_word s)
last_or_next-Safe n s c = ground (arith, next-Safe s c)

read_counters-Safe : (n i : ℕ) (s : Fsm) → Reading s → Safe Reading (read_counters n i s)
unfolding read_counters
read_counters-Safe zero i s c = c
read_counters-Safe (suc n) i s c =
    Safe-bind (λ _. Unit {0}) Reading (or_fault bad_index (get_elem? trigger_names i)) _
      (name-Safe i)
      λ name _.
        Safe-bind (λ _. Unit {0}) Reading (word s) _ (word-Safe s)
          λ w _.
            Safe-bind Reading Reading
              (if n == 0
                then ok (add_trinfo (record { id = 0x100 + i; attr = name; value = w }) s)
                else next_event_word
                    (add_trinfo (record { id = 0x100 + i; attr = name; value = w }) s))
              _
              (last_or_next-Safe n
                (add_trinfo (record { id = 0x100 + i; attr = name; value = w }) s) c)
              λ u h. read_counters-Safe n (i + 1) u h

the_hit-Safe : (s : Fsm) → Reading s → Safe (λ _. Unit {0}) (the_hit s)
the_hit-Safe s c = ground arith

with_hit_words-Safe :
    (id : ℕ) (name : String) (f : FzHit → ℕ → ℕ) (w : ℕ) (s : Fsm)
    → Reading s
    → Safe Reading (the_hit s >>= λ h. two_words id name (f h) w s)
with_hit_words-Safe id name f w s c =
    Safe-bind (λ _. Unit {0}) Reading (the_hit s) _ (the_hit-Safe s c)
      λ h _. two_words-Safe id name (f h) w s c

read_trigger_tag-Safe : (w : ℕ) (s : Fsm) → Reading s → Safe Reading (read_trigger_tag w s)
unfolding read_trigger_tag
read_trigger_tag-Safe w s c = ground (
  arith,
  read_counters-Safe s.rd_wflen 0 s c,
  two_words-Safe 0x10C "totaltime" (λ v. u64 (v * 4) / 150) w s c,
  with_hit_words-Safe 0x10D "gttagmsb" (λ h v. u64 (v * 32768 + h.gttag)) w s c,
  with_hit_words-Safe 0x10E "evtcntrmsb" (λ h v. u64 (v * 4096 + h.ec)) w s c,
  read_centrum-Safe w s c,
)

-- With the energy of the tag, or its waveform, in hand.
abbrev WithEn : Fsm → Type 0
WithEn s = Reading s × HasEn s

abbrev WithWf : Fsm → Type 0
WithWf s = Reading s × HasWf s

add_sample-Safe :
    (w : ℕ) (s : Fsm)
    → WithWf s
    → Safe WithWf (with_wf (λ v. record v { sample = v.sample ++ w ∷ [] }) s)
add_sample-Safe w s c = ground arith

next-WithWf : (s : Fsm) → WithWf s → Safe WithWf (next_event_word s)
next-WithWf s c = ground arith

next-WithEn : (s : Fsm) → WithEn s → Safe WithEn (next_event_word s)
next-WithEn s c = ground arith

gather_tagged-Safe : (n : ℕ) (s : Fsm) → WithWf s → Safe WithWf (gather_tagged n s)
unfolding gather_tagged
gather_tagged-Safe zero s c = c
gather_tagged-Safe (suc n) s c =
    Safe-bind (λ _. Unit {0}) WithWf (word s) _ (word-Safe s)
      λ w _.
        Safe-bind WithWf WithWf (with_wf (λ v. record v { sample = v.sample ++ w ∷ [] }) s) _
          (add_sample-Safe w s c)
          λ t h.
            Safe-bind WithWf WithWf
              (next_event_word (record t { save_blkcrc = t.blkcrc; save_feecrc = t.feecrc }))
              (gather_tagged n)
              (next-WithWf (record t { save_blkcrc = t.blkcrc; save_feecrc = t.feecrc }) h)
              (gather_tagged-Safe n)

tagged_waveform-Safe : (s : Fsm) → WithWf s → Safe Reading (tagged_waveform s)
unfolding tagged_waveform close_samples
tagged_waveform-Safe s c =
    Safe-bind WithWf Reading (gather_tagged s.rd_wflen s) _ (gather_tagged-Safe s.rd_wflen s c)
      λ t h. h.0

add_high-Safe :
    (w : ℕ) (s : Fsm)
    → WithEn s
    → Safe WithEn (with_en (λ e. record e { value = e.value ++ w ∷ [] }) s)
add_high-Safe w s c = ground arith

put_low-Safe :
    (i : ℕ) (f : ℕ → ℕ) (s : Fsm)
    → WithEn s
    → Safe Reading (do e ← the_en s; g ← set_value i f e; ok (put_en g s))
put_low-Safe i f s c = ground arith

tagged_energy-Safe :
    (fl : Floats) (i risetime : ℕ) (s : Fsm)
    → WithEn s
    → Safe Reading (tagged_energy fl i risetime s)
unfolding tagged_energy
tagged_energy-Safe fl i risetime s c =
    Safe-bind WithEn Reading (next_event_word s) _ (next-WithEn s c) λ t h.
      Safe-bind (λ _. Unit {0}) Reading (word t) _ (word-Safe t)
        λ w _.
          Safe-bind WithEn Reading (with_en (λ e. record e { value = e.value ++ w ∷ [] }) t) _
            (add_high-Safe w t h)
            λ u k. Safe-bind WithEn Reading (next_event_word u) _ (next-WithEn u k) λ v l.
              Safe-bind (λ _. Unit {0}) Reading (word v) _ (word-Safe v)
                λ low _. put_low-Safe i (λ x. fl.scale_energy (u32 (x * 32768 + low)) risetime) v l

tagged_baseline-Safe :
    (fl : Floats) (w : ℕ) (s : Fsm) → Reading s → Safe Reading (tagged_baseline fl w s)
unfolding tagged_baseline
tagged_baseline-Safe fl w s c =
    Safe-bind Reading Reading (next_event_word s) _ (next-Safe s c)
      λ t h. Safe-bind (λ _. Unit {0}) Reading (word t) _ (word-Safe t) λ low _. ground arith

-- What the tag that was read guarantees.
at_waveform : (s : Fsm) → Reading s → s.tag ≡ tag_waveform → Safe Reading (tagged_waveform s)
at_waveform s c t = tagged_waveform-Safe s (c, c.1 (inr t))

at_slow :
    (fl : Floats) (w : ℕ) (s : Fsm)
    → Reading s
    → s.tag ≡ tag_slow
    → Safe Reading (tagged_energy fl 0 w s)
at_slow fl w s c t = tagged_energy-Safe fl 0 w s (c, c.2 (inl t))

at_fast :
    (fl : Floats) (w : ℕ) (s : Fsm)
    → Reading s
    → s.tag ≡ tag_fast
    → Safe Reading (tagged_energy fl 1 w s)
at_fast fl w s c t = tagged_energy-Safe fl 1 w s (c, c.2 (inr t))

read_values-Safe : (fl : Floats) (w : ℕ) (s : Fsm) → Reading s → Safe Reading (read_values fl w s)
unfolding read_values
read_values-Safe fl w s c = ground (
  arith,
  at_waveform s c,
  at_slow fl w s c,
  at_fast fl w s c,
  tagged_baseline-Safe fl w s c,
  read_trigger_tag-Safe w s c,
)

check_tagged-Safe : (s : Fsm) → Reading s → s.tag ≡ tag_waveform → Safe InTagged (check_waveform s)
unfolding check_waveform
check_tagged-Safe s c t = ground arith

finish_tag-Safe : (fl : Floats) (w : ℕ) (s : Fsm) → Reading s → Safe AfterTag (finish_tag fl w s)
unfolding finish_tag
finish_tag-Safe fl w s c =
    Safe-bind Reading AfterTag (read_values fl w s) _ (read_values-Safe fl w s c) λ t h.
      Safe-bind InTagged AfterTag (if t.tag == tag_waveform then check_waveform t else ok t) _
        (ground (arith, check_tagged-Safe t h)) λ u k. ground arith

AfterTag-Reading : (s : Fsm) → AfterTag s → s.tag_done ≡ true → Reading s
AfterTag-Reading s c e = (c.0, c.1 e, c.2 e)

pub trans08_tag-Safe :
    (fl : Floats) (w : ℕ) (s : Fsm) → AfterTag s → Safe AfterTag (trans08_tag fl w s)
unfolding trans08_tag
trans08_tag-Safe fl w s c = elim (Bool-cases s.tag_done) [
  | inl e ↦ ground (
    arith,
    finish_tag-Safe fl w (update_fee w (update_blk w s))
        (AfterTag-Reading (update_fee w (update_blk w s)) c e),
  )
  | inr e ↦ ground (arith, read_tag-Safe w (update_fee w (update_blk w s)) c.0 e)
]

pub trans09_tag-Safe : (w : ℕ) (s : Fsm) → AfterTag s → Safe InTagged (trans09_tag w s)
unfolding trans09_tag
trans09_tag-Safe w s c = ground arith

pub trans10_tag-Safe : (w : ℕ) (s : Fsm) → AfterTag s → Safe InCard (trans10_tag w s)
unfolding trans10_tag
trans10_tag-Safe w s c = ground arith
