-- ===== src/Fsm/Progress/Run.antt =====
-- The loop over a tagged event ends.
use fz_daq.Prelude.{
  ℕ, zero, suc, ◌+◌, ◌*◌, ◌-◌, ◌<◌, ◌≤◌, ◌≡◌, ◌≢◌, refl, inl, inr, Bool, true, false, ◌&&◌, List,
  arith, Result, ok, err, out_of_fuel, dangling, over_read, bad_index, if◌then◌else◌, ◌==◌, ltb,
  length, Bool-cases,
}
use fz_daq.Fsm.State.{Fsm, Floats, word, fmt_tag}
use fz_daq.Fsm.Word.{getword_id, table_entry}
use fz_daq.Fsm.Basic.{trans07_basic, trans08_basic, trans09_basic, trans10_basic, trans11_basic}
use fz_daq.Fsm.Block.{
  trans02, trans03, trans04, trans05, trans06, trans12, trans13, trans14, trans15, trans16, trans17,
}
use fz_daq.Fsm.Tag.{trans07_tag, trans08_tag, trans09_tag, trans10_tag, trans11_tag}
use fz_daq.Fsm.Process.{
  trans18, init, import, goto, by_format, fire, take_word, retval_after, advance, loop, process,
  parse_fail, count_in,
}
use fz_daq.Fsm.Progress.Facts.{Ends, Ends-bind, Frame, From, word-Ends}
use fz_daq.Fsm.Progress.Still.{
  At, trans02-At, trans03-At, trans04-At, trans05-At, trans06-At, trans07_tag-At, trans09_tag-At,
  trans10_tag-At, trans11_tag-At, trans12-At, trans13-At, trans14-At, trans15-At, trans16-At,
  trans17-At, trans18-At,
}
use fz_daq.Fsm.Progress.Value.{Moved, trans08_tag-Moved}

Ends-if {ℓ} :
    {A : Type ℓ} (P : A → Type 0) (b : Bool) (x y : Result A)
    → Ends P x
    → Ends P y
    → Ends P (if b then x else y)
Ends-if P true x y f g = f
Ends-if P false x y f g = g

module _ (fl : Floats) (n size w : ℕ) (narrow : n < 4294967296) (s : Fsm)
    (start : From n size s.event_index s) where
  abbrev Next : Fsm → Type 0
  Next = Moved n size s

  here : At n size s.event_index s
  here = (start.0, refl)

  stay : (k : ℕ) (r : Result Fsm) → Ends (At n size s.event_index) r → Ends Next (goto k r)
  stay k r h = Ends-bind (At n size s.event_index) Next r _ h λ t l. ground arith

  stay_tag :
      (k : ℕ) (a b : Fsm → Result Fsm)
      → Ends (At n size s.event_index) (b s)
      → Ends Next (goto k (by_format s.evformat a b s))
  stay_tag k a b h = stay k (by_format s.evformat a b s) (ground arith)

  move_tag :
      (k : ℕ) (a b : Fsm → Result Fsm)
      → Ends Next (b s)
      → Ends Next (goto k (by_format s.evformat a b s))
  move_tag k a b h = Ends-bind Next Next (by_format s.evformat a b s) _ (ground arith) λ t l. l

  fire-Moved : (t : ℕ) → Ends Next (fire fl t w s)
  unfolding fire
  fire-Moved t = Ends-if Next (t == 0) _ _ (ground arith) (
      Ends-if Next (t == 1) _ _ (ground arith) (
        Ends-if Next (t == 2) _ _
          (stay 1 (ok (trans02 w s)) (trans02-At n size s.event_index w s here))
          (Ends-if Next (t == 3) _ _
            (stay 2 (trans03 w s) (trans03-At n size s.event_index w s here))
            (Ends-if Next (t == 4) _ _
              (stay 3 (trans04 w s) (trans04-At n size s.event_index w s here))
              (Ends-if Next (t == 5) _ _
                (stay 3 (trans05 w s) (trans05-At n size s.event_index w s here))
                (Ends-if Next (t == 6) _ _
                  (stay 4 (trans06 w s) (trans06-At n size s.event_index w s here))
                  (Ends-if Next (t == 7) _ _
                    (stay_tag 5 (trans07_basic w) (trans07_tag w)
                      (trans07_tag-At n size s.event_index w s here))
                    (Ends-if Next (t == 8) _ _
                      (move_tag 5 (trans08_basic w) (trans08_tag fl w)
                        (trans08_tag-Moved n size narrow fl w s start))
                      (Ends-if Next (t == 9) _ _
                        (stay_tag 4 (trans09_basic w) (trans09_tag w)
                          (trans09_tag-At n size s.event_index w s here))
                        (Ends-if Next (t == 10) _ _
                          (stay_tag 2 (trans10_basic w) (trans10_tag w)
                            (trans10_tag-At n size s.event_index w s here))
                          (Ends-if Next (t == 11) _ _
                            (stay_tag 6 (trans11_basic w) (λ r. ok (trans11_tag w r))
                              (trans11_tag-At n size s.event_index w s here))
                            (Ends-if Next (t == 12) _ _
                              (stay 7 (trans12 w s) (trans12-At n size s.event_index w s here))
                              (Ends-if Next (t == 13) _ _
                                (stay 1 (ok (trans13 w s))
                                  (trans13-At n size s.event_index w s here))
                                (Ends-if Next (t == 14) _ _
                                  (stay 8 (trans14 w s) (trans14-At n size s.event_index w s here))
                                  (Ends-if Next (t == 15) _ _
                                    (stay 9 (ok (trans15 w s))
                                      (trans15-At n size s.event_index w s here))
                                    (Ends-if Next (t == 16) _ _
                                      (stay 10 (trans16 w s)
                                        (trans16-At n size s.event_index w s here))
                                      (Ends-if Next (t == 17) _ _
                                        (stay 1 (ok (trans17 w s))
                                          (trans17-At n size s.event_index w s here))
                                        (Ends-if Next (t == 18) _ _
                                          (stay 0 (ok (trans18 w s))
                                            (trans18-At n size s.event_index w s here))
                                          (ground arith)))))))))))))))))))

  pub take_word-Moved : Ends Next (take_word fl w s)
  unfolding take_word
  take_word-Moved =
      Ends-if Next (getword_id w == 8) (ok s) (fire fl (table_entry (getword_id w) s.state_id) w s)
        (ground arith) (fire-Moved (table_entry (getword_id w) s.state_id))

-- How far the loop has to go: two rounds for each word left, and one for a value that is due.
abbrev pub rounds : Fsm → ℕ
rounds s = 2 * (s.event_size - s.event_index) + (if s.tag_done && s.wflen_done then 1 else 0)

rounds-Moved :
    (n size : ℕ) (s t : Fsm)
    → n < 4294967296
    → size ≤ n
    → s.event_index < size
    → s.event_size ≡ size
    → Moved n size s t
    → rounds (advance t) < rounds s
rounds-Moved n size s t a b c e m = ground arith

index-lt : (i k size : ℕ) → ltb i k ≡ true → k ≡ size → i < size
index-lt i k size e f = ground arith

loop-Ends :
    (fl : Floats) (n size fuel : ℕ) (s : Fsm) (r : ℕ)
    → n < 4294967296
    → size ≤ n
    → Frame n size s
    → rounds s < fuel
    → Ends (λ _. Unit {0}) (loop fl fuel s r)
unfolding loop
loop-Ends fl n size zero s r a b f m = absurd (omega arith)
loop-Ends fl n size (suc fuel) s r a b f m = elim (Bool-cases (ltb s.event_index s.event_size)) [
  | inl e ↦
      rw (e, loop)
        (Ends-bind (λ _. s.event_index < length s.event) (λ _. Unit {0}) (word s) _ (word-Ends s)
          λ w k.
            Ends-bind (Moved n size s) (λ _. Unit {0}) (take_word fl w s) _
              (take_word-Moved fl n size w a s
                (f, omega arith, omega (arith, index-lt s.event_index s.event_size size e f.1)))
              λ t h. loop-Ends fl n size fuel (advance t) (retval_after w s r) a b h.0 (
                omega (
                  arith,
                  rounds-Moved n size s t a b (index-lt s.event_index s.event_size size e f.1) f.1
                      h,
                )))
  | inr e ↦ rw (e, loop) tt
]

Ends-ne {ℓ} : {A : Type ℓ} (P : A → Type 0) (r : Result A) → Ends P r → r ≢ err out_of_fuel
Ends-ne P (ok a) h e = cc
Ends-ne P (err dangling) h e = cc
Ends-ne P (err over_read) h e = cc
Ends-ne P (err bad_index) h e = cc
Ends-ne P (err out_of_fuel) h e = h

-- In the tagged format `process` ends, with a machine or with an undefined access, for every buffer
-- of less than 2^32 words, whatever they are and whatever came before: two rounds for each word and
-- two more are enough.
pub process_tag_ends :
    (fl : Floats) (evraw : List ℕ) (s : Fsm) (fuel : ℕ)
    → length evraw < 4294967296
    → 2 * length evraw + 2 ≤ fuel
    → process fl fuel (import evraw (length evraw) (init fmt_tag s)) ≢ err out_of_fuel
unfolding process import init
process_tag_ends fl evraw s fuel h k =
    let n = length evraw in
    let m = import evraw n (init fmt_tag s) in
    let r = record m { event_index = 0; fsm_report = count_in m m.fsm_report } in
    Ends-ne (λ _. Unit {0}) _
      (Ends-bind (λ _. Unit {0}) (λ _. Unit {0}) (loop fl fuel r parse_fail) _
        (loop-Ends fl n n fuel r parse_fail h (omega arith) (refl, refl, refl) (ground arith))
        λ _ _. tt)
