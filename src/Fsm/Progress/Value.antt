-- ===== src/Fsm/Progress/Value.antt =====
-- The values behind a tag, whose waveform may be empty, and the transition as a whole.
use fz_daq.Prelude.{
  ℕ, zero, suc, ◌+◌, ◌++◌, ◌<◌, ◌≤◌, ◌≡◌, ◌⊎◌, true, false, [], ◌∷◌, arith, ok, ◌>>=◌,
  if◌then◌else◌, ◌==◌, length,
}
use fz_daq.Fsm.State.{Fsm, Floats, u32, word, next_event_word, with_wf, update_blk, update_fee}
use fz_daq.Fsm.Check.{check_waveform}
use fz_daq.Fsm.Tag.{
  tag_waveform, read_tag, gather_tagged, close_samples, tagged_waveform, read_values, finish_tag,
  trans08_tag,
}
use fz_daq.Fsm.Progress.Facts.{Ends, Ends-bind, Frame, From, word-Ends, next-Ends}
use fz_daq.Fsm.Progress.Tag.{tagged_energy-Ends, tagged_baseline-Ends, read_trigger_tag-Ends}

-- At the word `i` or behind it, or one before it, which an empty waveform leads to.
abbrev pub Landed : ℕ → ℕ → ℕ → Fsm → Type 0
Landed n size i s =
    Frame n size s × (((i ≤ s.event_index) × (s.event_index < n)) ⊎ (u32 (s.event_index + 1) ≡ i))

-- After a word in the tagged format: the machine may stand one before it only where a value was
-- due, and then the next word is a tag.
abbrev pub Moved : ℕ → ℕ → Fsm → Fsm → Type 0
Moved n size s t =
    Frame n size t
    × (((s.event_index ≤ t.event_index) × (t.event_index < n))
        ⊎ ((u32 (t.event_index + 1) ≡ s.event_index)
            × (s.tag_done ≡ true)
            × (s.wflen_done ≡ true)
            × (t.tag_done ≡ false)))

module _ (n size : ℕ) (narrow : n < 4294967296) where
  add_sample-Ends :
      (i w : ℕ) (s : Fsm)
      → From n size i s
      → Ends (From n size i) (with_wf (λ v. record v { sample = v.sample ++ w ∷ [] }) s)
  add_sample-Ends i w s c = ground arith

  gather_tagged-Ends :
      (k i : ℕ) (s : Fsm) → From n size i s → Ends (From n size i) (gather_tagged k s)
  unfolding gather_tagged
  gather_tagged-Ends zero i s c = c
  gather_tagged-Ends (suc k) i s c =
      Ends-bind (λ _. s.event_index < length s.event) (From n size i) (word s) _ (word-Ends s)
        λ w _.
          Ends-bind (From n size i) (From n size i)
            (with_wf (λ v. record v { sample = v.sample ++ w ∷ [] }) s) _ (add_sample-Ends i w s c)
            λ t h.
              let u = record t { save_blkcrc = t.blkcrc; save_feecrc = t.feecrc } in
              Ends-bind (From n size (suc i)) (From n size i) (next_event_word u) (gather_tagged k)
                (next-Ends n size i u narrow h) λ v l. gather_tagged-Ends k i v (ground arith)

  -- At least one sample is at least one word.
  gather_some-Ends :
      (k i : ℕ) (s : Fsm) → From n size i s → Ends (From n size (suc i)) (gather_tagged (suc k) s)
  unfolding gather_tagged
  gather_some-Ends k i s c =
      Ends-bind (λ _. s.event_index < length s.event) (From n size (suc i)) (word s) _ (word-Ends s)
        λ w _.
          Ends-bind (From n size i) (From n size (suc i))
            (with_wf (λ v. record v { sample = v.sample ++ w ∷ [] }) s) _ (add_sample-Ends i w s c)
            λ t h.
              let u = record t { save_blkcrc = t.blkcrc; save_feecrc = t.feecrc } in
              Ends-bind (From n size (suc i)) (From n size (suc i)) (next_event_word u)
                (gather_tagged k) (next-Ends n size i u narrow h) (gather_tagged-Ends k (suc i))

  close-Landed :
      (i : ℕ) (s : Fsm) → From n size (suc i) s → Ends (Landed n size i) (close_samples s)
  unfolding close_samples
  close-Landed i s c = ground arith

  -- A waveform of `k` samples.
  samples-Landed :
      (k : ℕ) (s : Fsm)
      → From n size s.event_index s
      → Ends (Landed n size s.event_index) (gather_tagged k s >>= close_samples)
  unfolding gather_tagged close_samples
  samples-Landed zero s c = ground arith
  samples-Landed (suc k) s c =
      Ends-bind (From n size (suc s.event_index)) (Landed n size s.event_index)
        (gather_tagged (suc k) s) close_samples (gather_some-Ends k s.event_index s c)
        (close-Landed s.event_index)

  waveform-Landed :
      (s : Fsm)
      → From n size s.event_index s
      → Ends (Landed n size s.event_index) (tagged_waveform s)
  unfolding tagged_waveform
  waveform-Landed s c = samples-Landed s.rd_wflen s c

  read_values-Landed :
      (fl : Floats) (w : ℕ) (s : Fsm)
      → From n size s.event_index s
      → Ends (Landed n size s.event_index) (read_values fl w s)
  unfolding read_values
  read_values-Landed fl w s c = ground (
    arith,
    waveform-Landed s c,
    tagged_energy-Ends n size s.event_index narrow fl 0 w s c,
    tagged_energy-Ends n size s.event_index narrow fl 1 w s c,
    tagged_baseline-Ends n size s.event_index narrow fl w s c,
    read_trigger_tag-Ends n size s.event_index narrow w s c,
  )

  check_waveform-Landed :
      (i : ℕ) (s : Fsm) → Landed n size i s → Ends (Landed n size i) (check_waveform s)
  unfolding check_waveform
  check_waveform-Landed i s c = ground arith

  -- The machine waits for a tag.
  abbrev Waits : ℕ → Fsm → Type 0
  Waits i s = Landed n size i s × (s.tag_done ≡ false)

  finish_tag-Ends :
      (fl : Floats) (w : ℕ) (s : Fsm)
      → From n size s.event_index s
      → Ends (Waits s.event_index) (finish_tag fl w s)
  unfolding finish_tag
  finish_tag-Ends fl w s c =
      Ends-bind (Landed n size s.event_index) (Waits s.event_index) (read_values fl w s) _
        (read_values-Landed fl w s c)
        λ t h.
          Ends-bind (Landed n size s.event_index) (Waits s.event_index)
            (if t.tag == tag_waveform then check_waveform t else ok t) _
            (ground (arith, check_waveform-Landed s.event_index t h)) λ u l. ground arith

  read_tag-Ends :
      (w : ℕ) (s : Fsm)
      → From n size s.event_index s
      → Ends (From n size s.event_index) (read_tag w s)
  unfolding read_tag
  read_tag-Ends w s c = ground arith

  -- In the tagged format, over a buffer of less than 2^32 words, transition 08 ends, and if it
  -- returns a machine, that stands at the same word or a later one of the buffer, or one before it,
  -- where a value was due, and then a tag is due next.
  pub trans08_tag-Moved :
      (fl : Floats) (w : ℕ) (s : Fsm)
      → From n size s.event_index s
      → Ends (Moved n size s) (trans08_tag fl w s)
  unfolding trans08_tag
  trans08_tag-Moved fl w s c = ground (
    arith,
    finish_tag-Ends fl w (update_fee w (update_blk w s)) c,
    read_tag-Ends w (update_fee w (update_blk w s)) c,
  )
