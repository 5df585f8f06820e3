-- ===== src/Fsm/Process.antt =====
-- The machine over one event: `init`, `import`, `process` and `trans18` of src/parser/FzFSM.cpp.
use fz_daq.Prelude.{
  ℕ, zero, suc, ◌+◌, ◌*◌, List, [], ◌∷◌, Bool, true, false, not, ltb, if◌then◌else◌, ◌==◌, length,
  Result, ok, err, out_of_fuel, ◌>>=◌, Cells,
}
use fz_daq.Event.{FzBlock, new_event}
use fz_daq.Fsm.Word.{getword_id, table_entry, id_of}
use fz_daq.Fsm.State.{Fsm, FsmReport, Floats, u32, u64, fmt_basic, fmt_tag, word}
use fz_daq.Fsm.Block.{
  trans02, trans03, trans04, trans05, trans06, trans12, trans13, trans14, trans15, trans16, trans17,
}
use fz_daq.Fsm.Basic.{trans07_basic, trans08_basic, trans09_basic, trans10_basic, trans11_basic}
use fz_daq.Fsm.Tag.{trans07_tag, trans08_tag, trans09_tag, trans10_tag, trans11_tag}

abbrev pub parse_ok : ℕ
parse_ok = 1

abbrev pub parse_fail : ℕ
parse_fail = 0

unfoldable pub init : ℕ → Fsm → Fsm
init evf s = record s { event = []; event_size = 0; event_index = 0; state_id = 0; evformat = evf }

unfoldable pub import : List ℕ → ℕ → Fsm → Fsm
import evraw size s = record s { event = evraw; event_size = size; state_id = 0; ev = new_event }

-- Whether one of the listed blocks has a card.
unfoldable pub any_fee : Cells FzBlock → List ℕ → Bool
any_fee c [] = false
any_fee c (p ∷ ps) = let rest = any_fee c ps in if ltb 0 (length (c.cell p).fee) then true else rest

unfoldable pub count_event : Bool → Bool → FsmReport → FsmReport
count_event empty bad r =
    if empty
    then record r { events_empty = u64 (r.events_empty + 1) }
    else if bad
    then record r { events_bad = u64 (r.events_bad + 1) }
    else record r { events_good = u64 (r.events_good + 1) }

-- The end of an event: it is empty, good or bad.
unfoldable pub trans18 : ℕ → Fsm → Fsm
unfolding any_fee count_event
trans18 w s =
    let ev = record s.ev { regid = id_of w } in
    let filled = if ltb 0 (length ev.trinfo) then true else any_fee ev.blocks ev.block in
    record s {
      ev = ev;
      event_is_empty = not filled;
      fsm_report = count_event (not filled) s.err_in_event s.fsm_report;
      err_in_event = if filled then false else s.err_in_event;
    }

-- A transition that depends on the format; in another format only the state changes.
abbrev pub by_format : ℕ → (Fsm → Result Fsm) → (Fsm → Result Fsm) → Fsm → Result Fsm
by_format fmt basic tagged s =
    if fmt == fmt_basic then basic s else if fmt == fmt_tag then tagged s else ok s

abbrev pub goto : ℕ → Result Fsm → Result Fsm
goto k r = do s ← r; ok (record s { state_id = k })

-- An invalid word: the machine starts over with an empty event.
unfoldable pub reset : Fsm → Fsm
reset s = record s {
  state_id = 0;
  ev = new_event;
  fsm_report = record s.fsm_report { state_invalid = u64 (s.fsm_report.state_invalid + 1) };
}

-- The `switch` on the transition's number.
unfoldable pub fire : Floats → ℕ → ℕ → Fsm → Result Fsm
unfolding reset
fire fl t w s =
    let f = s.evformat in
    if t == 0
    then ok (reset s)
    else if t == 1
    then ok s
    else if t == 2
    then goto 1 (ok (trans02 w s))
    else if t == 3
    then goto 2 (trans03 w s)
    else if t == 4
    then goto 3 (trans04 w s)
    else if t == 5
    then goto 3 (trans05 w s)
    else if t == 6
    then goto 4 (trans06 w s)
    else if t == 7
    then goto 5 (by_format f (trans07_basic w) (trans07_tag w) s)
    else if t == 8
    then goto 5 (by_format f (trans08_basic w) (trans08_tag fl w) s)
    else if t == 9
    then goto 4 (by_format f (trans09_basic w) (trans09_tag w) s)
    else if t == 10
    then goto 2 (by_format f (trans10_basic w) (trans10_tag w) s)
    else if t == 11
    then goto 6 (by_format f (trans11_basic w) (λ r. ok (trans11_tag w r)) s)
    else if t == 12
    then goto 7 (trans12 w s)
    else if t == 13
    then goto 1 (ok (trans13 w s))
    else if t == 14
    then goto 8 (trans14 w s)
    else if t == 15
    then goto 9 (ok (trans15 w s))
    else if t == 16
    then goto 10 (trans16 w s)
    else if t == 17
    then goto 1 (ok (trans17 w s))
    else if t == 18
    then goto 0 (ok (trans18 w s))
    else ok s

-- What a word does: an EMPTY word (8) nothing, any other what the table says.
unfoldable pub take_word : Floats → ℕ → Fsm → Result Fsm
unfolding fire
take_word fl w s =
    if getword_id w == 8 then ok s else fire fl (table_entry (getword_id w) s.state_id) w s

-- The return value after a word: transition 18 sets it, and nothing takes it back.
unfoldable pub retval_after : ℕ → Fsm → ℕ → ℕ
retval_after w s retval =
    if getword_id w == 8
    then retval
    else if table_entry (getword_id w) s.state_id == 18
    then parse_ok
    else retval

abbrev pub advance : Fsm → Fsm
advance s = record s { event_index = u32 (s.event_index + 1) }

-- The `for` loop, with fuel.
unfoldable pub loop : Floats → ℕ → Fsm → ℕ → Result (Fsm × ℕ)
loop fl zero s retval = err out_of_fuel
loop fl (suc fuel) s retval =
    let rest = (do
      w ← word s
      t ← take_word fl w s
      loop fl fuel (advance t) (retval_after w s retval)) in
    if ltb s.event_index s.event_size then rest else ok (s, retval)

abbrev pub count_in : Fsm → FsmReport → FsmReport
count_in s r = record r {
  in_events = u64 (r.in_events + 1);
  in_bytes = u64 (r.in_bytes + u32 (s.event_size * 2));
}

abbrev pub count_out : Fsm → FsmReport → FsmReport
count_out s r = record r {
  out_events = u64 (r.out_events + 1);
  out_bytes = u64 (r.out_bytes + u32 (s.event_size * 2));
}

unfoldable pub process : Floats → ℕ → Fsm → Result (Fsm × ℕ)
unfolding loop
process fl fuel s = do
  (t, retval) ←
      loop fl fuel (record s { event_index = 0; fsm_report = count_in s s.fsm_report }) parse_fail
  ok (record t { fsm_report = count_out t t.fsm_report }, retval)
