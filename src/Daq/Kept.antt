-- ===== src/Daq/Kept.antt =====
-- What no message and no command changes of a node: `handle_request` and `rc_process` of
-- src/nodemanager/FzNodeManager.cpp.
use fz_daq.Prelude.{
  ℕ, ◌≡◌, refl, Bool, true, false, ◌&&◌, ◌||◌, not, Option, none, some, inl, inr, same,
  if◌then◌else◌, if_both, Option-cases,
}
use fz_daq.Rc.{RcFsm, RcCommand, RcState}
use fz_daq.Rc
use fz_daq.Rcs.{Request, Channel, Operation, rc, setup, read, write}
use fz_daq.Writer.{set_rcstate}
use fz_daq.Node.{
  NodeManager, NodeReply, is_local, is_remote, is_ok, computes, stores, rc_process, rc_event_do,
  set_threads, is_reset, same_state, handle_request, by_channel, is_nm, write_rc, write_setup,
  state_of_value, rc_state_do,
}

-- The members that the run control's events leave alone.
pub record Kept (m t : NodeManager) : Type 0 where
  pub profile : t.profile ≡ m.profile
  pub mode : t.rcmode ≡ m.rcmode
  pub init : t.report_init ≡ m.report_init
  pub report : t.nodereport ≡ m.nodereport

pub kept :
    (m t : NodeManager)
    → t.profile ≡ m.profile
    → t.rcmode ≡ m.rcmode
    → t.report_init ≡ m.report_init
    → t.nodereport ≡ m.nodereport
    → Kept m t
kept m t a b c d = record { profile = a; mode = b; init = c; report = d }

event_if :
    (a b : Bool) (now : ℕ) (f : RcFsm) (m : NodeManager)
    → let t = record m { rc_fsm = f } in
      let u = if a then set_threads f.curstate t else t in
      Kept m (if b then record u { writer = set_rcstate now f.curstate u.writer } else u)
      × ((if b then record u { writer = set_rcstate now f.curstate u.writer } else u).rc_fsm ≡ f)
event_if true true now f m = (kept m _ refl refl refl refl, refl)
event_if true false now f m = (kept m _ refl refl refl refl, refl)
event_if false true now f m = (kept m _ refl refl refl refl, refl)
event_if false false now f m = (kept m _ refl refl refl refl, refl)

pub rc_process-Kept :
    (now : ℕ) (x : RcCommand) (m : NodeManager)
    → Kept m (rc_process now x m).0 × ((rc_process now x m).0.rc_fsm ≡ (Rc.process m.rc_fsm x).0)
unfolding rc_process rc_event_do
rc_process-Kept now x m =
    let f = (Rc.process m.rc_fsm x).0 in
    let t = record m { rc_fsm = f } in
    if_both (λ (u : NodeManager). Kept m u × (u.rc_fsm ≡ f))
      (is_reset x
        || (is_ok (Rc.process m.rc_fsm x).1 && not (same_state f.curstate m.rc_fsm.curstate)))
      (rc_event_do now t) t
      (λ _. event_if (computes t && is_local t) (stores t && is_local t) now f m)
      λ _. (kept m _ refl refl refl refl, refl)

state_if :
    (a b : Bool) (now : ℕ) (s : RcState) (m : NodeManager)
    → let t = record m { state = s } in
      let u = if a then set_threads s t else t in
      Kept m (if b then record u { writer = set_rcstate now s u.writer } else u)
state_if true true now s m = kept m _ refl refl refl refl
state_if true false now s m = kept m _ refl refl refl refl
state_if false true now s m = kept m _ refl refl refl refl
state_if false false now s m = kept m _ refl refl refl refl

abbrev Keeps : NodeManager → NodeManager × NodeReply → Type 0
Keeps m r = Kept m r.0

write_rc-Keeps : (now : ℕ) (q : Request) (m : NodeManager) → Keeps m (write_rc now q m)
unfolding write_rc rc_state_do
write_rc-Keeps now q m =
    let same_node = kept m m refl refl refl refl in
    if_both (Keeps m) (not (is_remote m)) _ _ (λ _. same_node)
      λ _.
        if_both (Keeps m) (not (same q.variable "status")) _ _ (λ _. same_node)
          λ _. elim (Option-cases (state_of_value q.value)) [
            | inl e ↦ rw e same_node
            | inr (s, e) ↦ rw e (state_if (computes m) (stores m) now s m)
          ]

write_setup-Keeps : (q : Request) (m : NodeManager) → Keeps m (write_setup q m)
unfolding write_setup
write_setup-Keeps q m =
    let same_node = kept m m refl refl refl refl in
    if_both (Keeps m) (not (stores m)) _ _ (λ _. same_node)
      λ _.
        if_both (Keeps m) (same q.variable "store") _ _ (λ _. kept m _ refl refl refl refl)
          λ _.
            if_both (Keeps m) (same q.variable "nostore") _ _ (λ _. kept m _ refl refl refl refl)
              λ _. same_node

by_channel-Keeps :
    (now : ℕ) (c : Channel) (o : Operation) (q : Request) (m : NodeManager)
    → Keeps m (by_channel now c o q m)
by_channel-Keeps now rc read q m = kept m m refl refl refl refl
by_channel-Keeps now rc write q m = write_rc-Keeps now q m
by_channel-Keeps now setup read q m = kept m m refl refl refl refl
by_channel-Keeps now setup write q m = write_setup-Keeps q m

pub handle_request-Kept :
    (now : ℕ) (q : Option Request) (m : NodeManager) → Kept m (handle_request now q m).0
unfolding handle_request
handle_request-Kept now none m = kept m m refl refl refl refl
handle_request-Kept now (some q) m =
    if_both (Keeps m) (not (is_nm q.module_of)) _ _ (λ _. kept m m refl refl refl refl)
      λ _. by_channel-Keeps now q.channel q.operation q m
