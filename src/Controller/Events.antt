-- ===== src/Controller/Events.antt =====
-- Run control events at the controller: `handle_request` of src/controller/rcs.cpp.
use fz_daq.Prelude.{
  ◌<◌, ◌≡◌, refl, ap, ◌∙◌, [], true, not, none, some, same, if◌then◌else◌, ltb, length, arith,
  if_both,
}
use fz_daq.Rc.{RcCommand, RcState, RcTransition, RcFsm, rc_ok, rc_error}
use fz_daq.Rc
use fz_daq.Rc.Laws.{process_refused}
use fz_daq.Rcs.{Request, rc, write, cnt, rcs_ok, rcs_err, answer}
use fz_daq.Controller.{
  Controller, Outside, Handled, response, refuse, event_of_value, try_event, push_broadcast,
  status_request, is_error, write_rc, handle_request,
}

-- The request is an event for the controller.
pub record IsEvent (q : Request) : Type 0 where
  pub to_controller : q.module_of ≡ cnt
  pub run_control : q.channel ≡ rc
  pub written : q.operation ≡ write
  pub named : q.variable ≡ "event"

to_write_rc :
    {W : Type 0} (o : Outside W) (q : Request) (c : Controller)
    → IsEvent q
    → handle_request o (some q) c ≡ write_rc o q c
unfolding handle_request
to_write_rc o q c e = rw (e.to_controller, e.run_control, e.written)

-- The reply and the messages of an event, by the machine's outcome.
abbrev outcome : {W : Type 0} → Outside W → Request → Controller → RcFsm × RcTransition → Handled W
outcome o q c (fsm, rct) =
    let d = record c { rc_fsm = fsm } in
    let bytes = o.request_bytes (status_request o fsm.curstate q) in
    if is_error rct
    then refuse "wrong requested RC transition" d
    else (d, push_broadcast bytes c.node_map.nodes, response (answer rcs_ok "RC transition ok"))

event_outcome :
    {W : Type 0} (o : Outside W) (q : Request) (c : Controller)
    → IsEvent q
    → 0 < length c.node_map.nodes
    → handle_request o (some q) c ≡ outcome o q c (try_event (event_of_value q.value) c.rc_fsm)
unfolding write_rc
event_outcome {W} o q c e h =
    let named : same q.variable "event" ≡ true = rw e.named in
    let some_node : ltb 0 (length c.node_map.nodes) ≡ true = ground arith in
    let P = λ (x : Handled W). x ≡ outcome o q c (try_event (event_of_value q.value) c.rc_fsm) in
    to_write_rc o q c e
    ∙ if_both P (not (same q.variable "event")) _ _ (λ f. absurd (cc))
        λ _. if_both P (not (ltb 0 (length c.node_map.nodes))) _ _ (λ f. absurd (cc)) λ _. refl

-- An event that the machine of the controller accepts moves it, is pushed as the new state to the
-- hosts of all nodes, and is answered with OK.
pub event_accepted :
    {W : Type 0} (o : Outside W) (q : Request) (c : Controller) (e : RcCommand)
    → IsEvent q
    → 0 < length c.node_map.nodes
    → event_of_value q.value ≡ some e
    → (Rc.process c.rc_fsm e).1 ≡ rc_ok
    → let fsm = (Rc.process c.rc_fsm e).0 in
      handle_request o (some q) c ≡ (
        record c { rc_fsm = fsm },
        push_broadcast (o.request_bytes (status_request o fsm.curstate q)) c.node_map.nodes,
        response (answer rcs_ok "RC transition ok"),
      )
event_accepted o q c e h n v a = event_outcome o q c h n ∙ rw v (rw a refl)

-- A machine that refuses a command keeps its state and notes the error.
refused_machine :
    (m : RcFsm) (e : RcCommand)
    → (Rc.process m e).1 ≡ rc_error
    → (Rc.process m e).0 ≡ record m { lasterr = rc_error }
refused_machine m e a =
    let (kept, noted) = process_refused m e in
    let n = (Rc.process m e).0 in
    let state : n ≡ record n { curstate = m.curstate } =
      ap (λ s. record n { curstate = s }) (kept a) in
    state ∙ ap (λ l. record m { lasterr = l }) (noted ∙ a)

-- An event that the machine of the controller refuses changes nothing but the outcome that the
-- machine notes, is pushed to no node, and is answered with an error.
pub event_refused :
    {W : Type 0} (o : Outside W) (q : Request) (c : Controller) (e : RcCommand)
    → IsEvent q
    → 0 < length c.node_map.nodes
    → event_of_value q.value ≡ some e
    → (Rc.process c.rc_fsm e).1 ≡ rc_error
    → handle_request o (some q) c ≡ (
      record c { rc_fsm = record c.rc_fsm { lasterr = rc_error } },
      [],
      response (answer rcs_err "wrong requested RC transition"),
    )
event_refused o q c e h n v a =
    event_outcome o q c h n
    ∙ ap (λ x. outcome o q c (try_event x c.rc_fsm)) v
    ∙ rw a (rw (refused_machine c.rc_fsm e a) refl)

-- A value that names no event is taken for an event that was accepted: the state that the
-- controller is in is pushed to the hosts of all nodes, and the answer is OK.
pub unknown_event_accepted :
    {W : Type 0} (o : Outside W) (q : Request) (c : Controller)
    → IsEvent q
    → 0 < length c.node_map.nodes
    → event_of_value q.value ≡ none
    → handle_request o (some q) c ≡ (
      c,
      push_broadcast (o.request_bytes (status_request o c.rc_fsm.curstate q)) c.node_map.nodes,
      response (answer rcs_ok "RC transition ok"),
    )
unknown_event_accepted o q c h n v = event_outcome o q c h n ∙ rw v refl
