-- ===== src/Fsm/Safety/Run.antt =====
-- A whole event: `process` of src/parser/FzFSM.cpp never uses a dangling pointer.
use fz_daq.Prelude.{
  ℕ, zero, suc, ◌≢◌, List, arith, Result, ok, err, dangling, over_read, bad_index, out_of_fuel,
  ◌==◌, ltb,
}
use fz_daq.Fsm.State.{Fsm, Floats, word}
use fz_daq.Fsm.Word.{getword_id, table_entry}
use fz_daq.Fsm.Process.{
  init, import, fire, take_word, retval_after, advance, loop, process, parse_fail, count_in,
}
use fz_daq.Fsm.Control.Words.{getword_id-lt}
use fz_daq.Fsm.Control.Table.{table-source}
use fz_daq.Fsm.Safety.Facts.{Safe, Safe-bind, word-Safe}
use fz_daq.Fsm.Safety.Machine.{Good}
use fz_daq.Fsm.Safety.Fire.{fire-Good, Safe-if}

-- Between two words every pointer that the state relies on points to an object of the event, and
-- no word, whatever its value, makes the machine use one that does not.
pub take_word-Good : (fl : Floats) (w : ℕ) (s : Fsm) → Good s → Safe Good (take_word fl w s)
unfolding take_word
take_word-Good fl w s g =
    Safe-if Good (getword_id w == 8) (ok s) (fire fl (table_entry (getword_id w) s.state_id) w s)
      (λ _. g)
      λ _.
        fire-Good fl (table_entry (getword_id w) s.state_id) w s g
          (table-source (getword_id w) s.state_id (getword_id-lt w) g.known)

abbrev GoodRun : Fsm × ℕ → Type 0
GoodRun r = Good r.0

loop-GoodRun : (fl : Floats) (n : ℕ) (s : Fsm) (r : ℕ) → Good s → Safe GoodRun (loop fl n s r)
unfolding loop
loop-GoodRun fl zero s r g = tt
loop-GoodRun fl (suc n) s r g =
    Safe-if GoodRun (ltb s.event_index s.event_size) _ (ok (s, r))
      (λ _.
        Safe-bind (λ _. Unit {0}) GoodRun (word s) _ (word-Safe s)
          λ w _. Safe-bind Good GoodRun (take_word fl w s) _ (take_word-Good fl w s g) λ t h.
            loop-GoodRun fl n (advance t) (retval_after w s r) (ground (arith, h.block, h.card)))
      (λ _. g)

not_dangling {ℓ} : {A : Type ℓ} (P : A → Type 0) (r : Result A) → Safe P r → r ≢ err dangling
not_dangling P (ok a) h e = cc
not_dangling P (err dangling) h e = h
not_dangling P (err over_read) h e = cc
not_dangling P (err bad_index) h e = cc
not_dangling P (err out_of_fuel) h e = cc

-- Whatever the machine was left with by earlier events, whatever the format and the words of the
-- event that is imported, and however many rounds are run, `process` does not use a dangling
-- pointer.
pub process_no_dangling :
    (fl : Floats) (fuel evf size : ℕ) (evraw : List ℕ) (s : Fsm)
    → process fl fuel (import evraw size (init evf s)) ≢ err dangling
unfolding process import init
process_no_dangling fl fuel evf size evraw s =
    let m = import evraw size (init evf s) in
    let r = record m { event_index = 0; fsm_report = count_in m m.fsm_report } in
    not_dangling (λ _. Unit {0}) _
      (Safe-bind GoodRun (λ _. Unit {0}) (loop fl fuel r parse_fail) _
        (loop-GoodRun fl fuel r parse_fail (ground arith)) λ _ _. tt)
