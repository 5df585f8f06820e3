-- ===== src/Parser.antt =====
-- The parser thread: class FzParser of src/parser/FzParser.cpp, between the reader's messages and
-- the writer's, over the machine of src/parser/FzFSM.cpp.
mod Counts
mod Flow
mod Tests
use fz_daq.Prelude.{
  ℕ, ◌+◌, ◌*◌, ◌/◌, List, [], ◌∷◌, ◌++◌, Bool, true, false, ◌&&◌, not, if◌then◌else◌, ◌==◌, length,
  Result, ok, err, ◌>>=◌,
}
use fz_daq.Event.{FzEvent, new_event}
use fz_daq.Rc.{RcState, running}
use fz_daq.Fsm.State.{Fsm, Floats, u32, u64}
use fz_daq.Writer.{is_running}
use fz_daq.Fsm.Process.{init, import, process, parse_ok}
use fz_daq.Node.Report.{ParserReport}

-- The members, with the variable `rc` of the loop, and what has been sent to the writer, in order.
-- `ev` is the event that `sm` points to.
pub record Parser : Type 0 where
  pub evformat : ℕ
  pub sm : Fsm
  pub rcstate : RcState
  pub psr_report : ParserReport
  pub rc : Bool
  pub sent : List (List ℕ)

-- What SerializeToString makes of an event set, which is the list of its events: whether it
-- succeeds, and the bytes.
abbrev pub Serialize : Type 0
Serialize = List FzEvent → Bool × List ℕ

-- reinterpret_cast<unsigned short int*>(message.data()), the low byte first.
unfoldable pub words_of : List ℕ → List ℕ
words_of (a ∷ b ∷ bytes) = (a + 256 * b) ∷ words_of bytes
words_of _ = []

abbrev pub count_message : List ℕ → ParserReport → ParserReport
count_message message r = record r {
  in_bytes = u64 (r.in_bytes + length message);
  in_events = u64 (r.in_events + 1);
}

abbrev pub count_sent : List ℕ → ParserReport → ParserReport
count_sent str r = record r {
  out_bytes = u64 (r.out_bytes + length str);
  out_events = u64 (r.out_events + 1);
}

-- An event set of this event is sent to the writer, whether serializing succeeds or not.
unfoldable pub send_set : Serialize → FzEvent → Parser → Parser
send_set serialize ev p =
    let str = (serialize (ev ∷ [])).1 in
    record p { sent = p.sent ++ str ∷ []; psr_report = count_sent str p.psr_report }

-- What follows `sm.process()`, and `ev.Clear()`.
unfoldable pub finish_event : Serialize → Parser → Fsm × ℕ → Parser
unfolding send_set
finish_event serialize p (t, retval) =
    let q = record p { sm = record t { ev = new_event } } in
    if retval == parse_ok && not t.event_is_empty then send_set serialize t.ev q else q

-- The body of `if(rc)`; the fuel is that of the machine's loop.
unfoldable pub parse_message : Floats → Serialize → ℕ → List ℕ → Parser → Result Parser
unfolding words_of finish_event
parse_message fl serialize fuel message p =
    let q = record p { psr_report = count_message message p.psr_report } in
    let sm = import (words_of message) (u32 (length message / 2)) (init p.evformat p.sm) in
    process fl fuel sm >>= λ r. ok (finish_event serialize q r)

-- What `recv` does within its second: a message, none in time, or an exception, which is caught and
-- leaves `rc` as it was.
pub data Received : Type 0 where
  received : List ℕ → Received
  timed_out thrown : Received

-- A round of `process`.
unfoldable pub parse_round : Floats → Serialize → ℕ → Received → Parser → Result Parser
unfolding parse_message
parse_round fl serialize fuel (received m) p =
    if is_running p.rcstate
    then parse_message fl serialize fuel m (record p { rc = true })
    else ok p
parse_round fl serialize fuel timed_out p =
    ok (if is_running p.rcstate then record p { rc = false } else p)
parse_round fl serialize fuel thrown p =
    if is_running p.rcstate && p.rc then parse_message fl serialize fuel [] p else ok p

unfoldable pub set_rcstate : RcState → Parser → Parser
set_rcstate s p = record p { rcstate = s }
