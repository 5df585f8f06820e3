-- ===== src/Fsm/Progress/Tag.antt =====
-- The transition inside a data object of the tagged format: its loops end, and it moves forward.
use fz_daq.Prelude.{
  ℕ, zero, suc, ◌+◌, ◌*◌, ◌/◌, ◌++◌, ◌<◌, [], ◌∷◌, arith, ok, ◌>>=◌, or_fault, bad_index, get_elem?,
  if◌then◌else◌, ◌==◌, length,
}
use Prim.Native.String.{String}
use fz_daq.Event.{FzHit, FzTrigInfo}
use fz_daq.Fsm.State.{
  Fsm, Floats, u32, u64, word, the_hit, next_event_word, with_en, the_en, put_en, set_value,
  add_trinfo,
}
use fz_daq.Fsm.Trigger.{trigger_names}
use fz_daq.Fsm.Tag.{
  tagged_energy, tagged_baseline, read_counters, two_words, next_pair, read_centrum,
  read_trigger_tag,
}
use fz_daq.Fsm.Progress.Facts.{Ends, Ends-bind, From, word-Ends, next-Ends}

-- A buffer of `n` words, less than 2^32, and the word `i` that the transition starts from.
module _ (n size i : ℕ) (narrow : n < 4294967296) where
  abbrev pub Here : Fsm → Type 0
  Here = From n size i

  next-Here : (s : Fsm) → Here s → Ends Here (next_event_word s)
  next-Here s c = ground (arith, next-Ends n size i s narrow c)

  two_words-Ends :
      (id : ℕ) (name : String) (f : ℕ → ℕ) (w : ℕ) (s : Fsm)
      → Here s
      → Ends Here (two_words id name f w s)
  unfolding two_words
  two_words-Ends id name f w s c =
      Ends-bind Here Here (next_event_word s) _ (next-Here s c) λ t h.
        Ends-bind (λ _. t.event_index < length t.event) Here (word t) _ (word-Ends t) λ v _. h

  next_pair-Ends : (id : ℕ) (name : String) (s : Fsm) → Here s → Ends Here (next_pair id name s)
  unfolding next_pair
  next_pair-Ends id name s c = Ends-bind Here Here (next_event_word s) _ (next-Here s c) λ t h.
      Ends-bind (λ _. t.event_index < length t.event) Here (word t) _ (word-Ends t)
        λ w _. two_words-Ends id name (λ v. v) w t h

  read_centrum-Ends : (w : ℕ) (s : Fsm) → Here s → Ends Here (read_centrum w s)
  unfolding read_centrum
  read_centrum-Ends w s c =
      Ends-bind Here Here (next_pair 0x201 "centrum1" _) _ (next_pair-Ends 0x201 "centrum1" _ c)
        λ t h.
          Ends-bind Here Here (next_pair 0x202 "centrum2" t) (next_pair 0x203 "centrum3")
            (next_pair-Ends 0x202 "centrum2" t h) (next_pair-Ends 0x203 "centrum3")

  name-Ends : (k : ℕ) → Ends (λ _. Unit {0}) (or_fault bad_index (get_elem? trigger_names k))
  name-Ends k = ground arith

  last_or_next-Ends :
      (k : ℕ) (s : Fsm) → Here s → Ends Here (if k == 0 then ok s else next_event_word s)
  last_or_next-Ends k s c = ground (arith, next-Here s c)

  read_counters-Ends : (k j : ℕ) (s : Fsm) → Here s → Ends Here (read_counters k j s)
  unfolding read_counters
  read_counters-Ends zero j s c = c
  read_counters-Ends (suc k) j s c =
      Ends-bind (λ _. Unit {0}) Here (or_fault bad_index (get_elem? trigger_names j)) _
        (name-Ends j)
        λ name _.
          Ends-bind (λ _. s.event_index < length s.event) Here (word s) _ (word-Ends s)
            λ w _.
              let info : FzTrigInfo = record { id = 0x100 + j; attr = name; value = w } in
              let t = add_trinfo info s in
              Ends-bind Here Here (if k == 0 then ok t else next_event_word t) _
                (last_or_next-Ends k t c) λ u h. read_counters-Ends k (j + 1) u h

  hit-Ends : (s : Fsm) → Ends (λ _. Unit {0}) (the_hit s)
  hit-Ends s = ground arith

  with_hit_words-Ends :
      (id : ℕ) (name : String) (f : FzHit → ℕ → ℕ) (w : ℕ) (s : Fsm)
      → Here s
      → Ends Here (the_hit s >>= λ h. two_words id name (f h) w s)
  with_hit_words-Ends id name f w s c =
      Ends-bind (λ _. Unit {0}) Here (the_hit s) _ (hit-Ends s)
        λ h _. two_words-Ends id name (f h) w s c

  pub read_trigger_tag-Ends : (w : ℕ) (s : Fsm) → Here s → Ends Here (read_trigger_tag w s)
  unfolding read_trigger_tag
  read_trigger_tag-Ends w s c = ground (
    arith,
    read_counters-Ends s.rd_wflen 0 s c,
    two_words-Ends 0x10C "totaltime" (λ v. u64 (v * 4) / 150) w s c,
    with_hit_words-Ends 0x10D "gttagmsb" (λ h v. u64 (v * 32768 + h.gttag)) w s c,
    with_hit_words-Ends 0x10E "evtcntrmsb" (λ h v. u64 (v * 4096 + h.ec)) w s c,
    read_centrum-Ends w s c,
  )

  add_high-Ends :
      (w : ℕ) (s : Fsm)
      → Here s
      → Ends Here (with_en (λ e. record e { value = e.value ++ w ∷ [] }) s)
  add_high-Ends w s c = ground arith

  put_low-Ends :
      (k : ℕ) (f : ℕ → ℕ) (s : Fsm)
      → Here s
      → Ends Here (do e ← the_en s; g ← set_value k f e; ok (put_en g s))
  put_low-Ends k f s c = ground arith

  pub tagged_energy-Ends :
      (fl : Floats) (k risetime : ℕ) (s : Fsm) → Here s → Ends Here (tagged_energy fl k risetime s)
  unfolding tagged_energy
  tagged_energy-Ends fl k risetime s c =
      Ends-bind Here Here (next_event_word s) _ (next-Here s c) λ t h.
        Ends-bind (λ _. t.event_index < length t.event) Here (word t) _ (word-Ends t)
          λ w _.
            Ends-bind Here Here (with_en (λ e. record e { value = e.value ++ w ∷ [] }) t) _
              (add_high-Ends w t h)
              λ u l. Ends-bind Here Here (next_event_word u) _ (next-Here u l) λ v m.
                Ends-bind (λ _. v.event_index < length v.event) Here (word v) _ (word-Ends v)
                  λ low _.
                    put_low-Ends k (λ x. fl.scale_energy (u32 (x * 32768 + low)) risetime) v m

  pub tagged_baseline-Ends :
      (fl : Floats) (w : ℕ) (s : Fsm) → Here s → Ends Here (tagged_baseline fl w s)
  unfolding tagged_baseline
  tagged_baseline-Ends fl w s c = Ends-bind Here Here (next_event_word s) _ (next-Here s c) λ t h.
      Ends-bind (λ _. t.event_index < length t.event) Here (word t) _ (word-Ends t)
        λ low _. ground arith
