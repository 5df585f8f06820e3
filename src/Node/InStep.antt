-- ===== src/Node/InStep.antt =====
-- The threads of a node and its run control state: `handle_request` and `rc_process` of
-- src/nodemanager/FzNodeManager.cpp.
use fz_daq.Prelude.{
  ℕ, ◌≡◌, refl, sym, ◌⊎◌, inl, inr, ◌∙◌, ap, List, [], ◌∷◌, map, Bool, true, false, ◌&&◌, ◌||◌, not,
  Option, none, some, same, if◌then◌else◌, arith, Option-cases, if_both, eq_iff,
}
use fz_daq.Rc.Laws.{process_refused}
use fz_daq.Rc.{
  RcFsm, RcCommand, RcState, configure, start, stop, reset, idle, ready, running, paused, rc_ok,
  rc_error,
}
use fz_daq.Rc
use fz_daq.Rcs.{Request, Channel, Operation, read, write, rc, setup}
use fz_daq.Writer.{Writer, set_rcstate, set_store}
use fz_daq.Node.{
  NodeManager, is_local, is_remote, computes, stores, rc_state, rc_state_do, rc_event_do,
  rc_process, is_reset, is_ok, same_state, set_threads, handle_request, write_rc, write_setup,
  enter_state, state_of_value, by_channel, is_nm, NodeReply,
}

abbrev pub AllIn : RcState → List RcState → Type 0
AllIn s [] = Unit {0}
AllIn s (p ∷ ps) = (p ≡ s) × AllIn s ps

map-AllIn : (s : RcState) (ps : List RcState) → AllIn s (map (λ _. s) ps)
map-AllIn s [] = tt
map-AllIn s (p ∷ ps) = (refl, map-AllIn s ps)

-- Every thread that the node's profile runs is in the state that the node reports.
pub record InStep (m : NodeManager) : Type 0 where
  pub mode : (m.rcmode ≡ "local") ⊎ (m.rcmode ≡ "remote")
  pub reading : computes m ≡ true → m.reader ≡ rc_state m
  pub parsing : computes m ≡ true → AllIn (rc_state m) m.parsers
  pub writing : stores m ≡ true → m.writer.rcstate ≡ rc_state m

set_rcstate-rcstate : (now : ℕ) (s : RcState) (w : Writer) → (set_rcstate now s w).rcstate ≡ s
unfolding set_rcstate
set_rcstate-rcstate now s w = refl

abbrev set_some : Bool → Bool → ℕ → RcState → NodeManager → NodeManager
set_some c st now s m =
    let t = if c then set_threads s m else m in
    if st then record t { writer = set_rcstate now s t.writer } else t

-- The threads that are set are those of the profile.
set_some-InStep :
    (c st : Bool) (now : ℕ) (s : RcState) (m : NodeManager)
    → c ≡ computes m
    → st ≡ stores m
    → (m.rcmode ≡ "local") ⊎ (m.rcmode ≡ "remote")
    → rc_state m ≡ s
    → InStep (set_some c st now s m)
unfolding rc_state
set_some-InStep true true now s m h k o e = record {
  mode = o;
  reading = λ _. sym e;
  parsing = λ _. rw e (map-AllIn s m.parsers);
  writing = λ _. set_rcstate-rcstate now s m.writer ∙ sym e;
}
set_some-InStep true false now s m h k o e = record {
  mode = o;
  reading = λ _. sym e;
  parsing = λ _. rw e (map-AllIn s m.parsers);
  writing = λ w. cc;
}
set_some-InStep false true now s m h k o e = record {
  mode = o;
  reading = λ c. cc;
  parsing = λ c. cc;
  writing = λ _. set_rcstate-rcstate now s m.writer ∙ sym e;
}
set_some-InStep false false now s m h k o e = record {
  mode = o;
  reading = λ c. cc;
  parsing = λ c. cc;
  writing = λ c. cc;
}

rc_state_do-InStep :
    (now : ℕ) (s : RcState) (m : NodeManager)
    → (m.rcmode ≡ "local") ⊎ (m.rcmode ≡ "remote")
    → rc_state m ≡ s
    → InStep (rc_state_do now s m)
unfolding rc_state_do
rc_state_do-InStep now s m o e = set_some-InStep (computes m) (stores m) now s m refl refl o e

rc_state-set_some :
    (c st : Bool) (now : ℕ) (s : RcState) (m : NodeManager)
    → rc_state (set_some c st now s m) ≡ rc_state m
unfolding rc_state
rc_state-set_some true true now s m = refl
rc_state-set_some true false now s m = refl
rc_state-set_some false true now s m = refl
rc_state-set_some false false now s m = refl

pub rc_state_remote : (m : NodeManager) → m.rcmode ≡ "remote" → rc_state m ≡ m.state
unfolding rc_state
rc_state_remote m r = rw r

pub rc_state_local : (m : NodeManager) → m.rcmode ≡ "local" → rc_state m ≡ m.rc_fsm.curstate
unfolding rc_state
rc_state_local m r = rw r

-- In remote mode `enter_state` leaves every thread of the profile, and the report, in the new state.
pub enter_state-InStep :
    (now : ℕ) (s : RcState) (m : NodeManager)
    → m.rcmode ≡ "remote"
    → InStep (enter_state now s m) × (rc_state (enter_state now s m) ≡ s)
unfolding rc_state_do
enter_state-InStep now s m r =
    let t = record m { state = s } in
    let e = rc_state_remote t r in
    (rc_state_do-InStep now s t (inr r) e, rc_state-set_some (computes t) (stores t) now s t ∙ e)

AllIn-same : (s t : RcState) (ps qs : List RcState) → s ≡ t → ps ≡ qs → AllIn s ps → AllIn t qs
AllIn-same s t ps qs e f h = rw⁻¹ (e, f) h

-- Nothing but the members read here matters.
pub InStep-keep :
    (m t : NodeManager)
    → InStep m
    → t.rcmode ≡ m.rcmode
    → t.profile ≡ m.profile
    → t.reader ≡ m.reader
    → t.parsers ≡ m.parsers
    → t.writer.rcstate ≡ m.writer.rcstate
    → rc_state t ≡ rc_state m
    → InStep t
InStep-keep m t i a b c d e f = record {
  mode = rw a i.mode;
  reading = λ h. c ∙ i.reading (rw (← b) h) ∙ sym f;
  parsing = λ h.
      AllIn-same (rc_state m) (rc_state t) m.parsers t.parsers (sym f) (sym d)
        (i.parsing (rw (← b) h));
  writing = λ h. e ∙ i.writing (rw (← b) h) ∙ sym f;
}

write_setup-InStep : (q : Request) (m : NodeManager) → InStep m → InStep (write_setup q m).0
unfolding write_setup set_store rc_state
write_setup-InStep q m i =
    let stored = λ (b : Bool).
      InStep-keep m (record m { writer = set_store b m.writer }) i refl refl refl refl refl refl in
    if_both (λ (r : NodeManager × NodeReply). InStep r.0) (not (stores m)) _ _ (λ _. i)
      λ _.
        if_both (λ (r : NodeManager × NodeReply). InStep r.0) (same q.variable "store") _ _
          (λ _. stored true)
          λ _.
            if_both (λ (r : NodeManager × NodeReply). InStep r.0) (same q.variable "nostore") _ _
              (λ _. stored false) λ _. i

pub is_remote-eq : (m : NodeManager) → not (is_remote m) ≡ false → m.rcmode ≡ "remote"
is_remote-eq m e = ground (arith, eq_iff m.rcmode "remote")

write_rc-InStep : (now : ℕ) (q : Request) (m : NodeManager) → InStep m → InStep (write_rc now q m).0
unfolding write_rc
write_rc-InStep now q m i =
    if_both (λ (r : NodeManager × NodeReply). InStep r.0) (not (is_remote m)) _ _ (λ _. i)
      λ e.
        if_both (λ (r : NodeManager × NodeReply). InStep r.0) (not (same q.variable "status")) _ _
          (λ _. i)
          λ _. elim (Option-cases (state_of_value q.value)) [
            | inl f ↦ rw f i
            | inr (s, f) ↦ rw f ((enter_state-InStep now s m (is_remote-eq m e)).0)
          ]

by_channel-InStep :
    (now : ℕ) (c : Channel) (o : Operation) (q : Request) (m : NodeManager)
    → InStep m
    → InStep (by_channel now c o q m).0
by_channel-InStep now rc read q m i = i
by_channel-InStep now rc write q m i = write_rc-InStep now q m i
by_channel-InStep now setup read q m i = i
by_channel-InStep now setup write q m i = write_setup-InStep q m i

-- Whatever message arrives, and however it is answered, every thread that the node's profile runs is
-- afterwards in the state that the node reports, if that was so before.
pub handle_request-InStep :
    (now : ℕ) (q : Option Request) (m : NodeManager) → InStep m → InStep (handle_request now q m).0
unfolding handle_request
handle_request-InStep now none m i = i
handle_request-InStep now (some q) m i =
    if_both (λ (r : NodeManager × NodeReply). InStep r.0) (not (is_nm q.module_of)) _ _ (λ _. i)
      λ _. by_channel-InStep now q.channel q.operation q m i

same_state-eq : (s t : RcState) → same_state s t ≡ true → s ≡ t
same_state-eq s t h = ground arith

-- A command that leads to no event leaves the state alone.
process-still :
    (r : RcFsm) (c : RcCommand)
    → (is_reset c
        || (is_ok (Rc.process r c).1 && not (same_state (Rc.process r c).0.curstate r.curstate)))
      ≡ false
    → (Rc.process r c).0.curstate ≡ r.curstate
process-still r c h =
    let p = process_refused r c in
    let e = same_state-eq (Rc.process r c).0.curstate r.curstate in ground (arith, p.0, e)

set_some_none :
    (c st : Bool) (now : ℕ) (s : RcState) (m : NodeManager)
    → c ≡ false
    → st ≡ false
    → InStep m
    → InStep (set_some c st now s m)
set_some_none false false now s m h k i = i
set_some_none false true now s m h k i = cc
set_some_none true st now s m h k i = cc

pub is_local-true : (m : NodeManager) → m.rcmode ≡ "local" → is_local m ≡ true
is_local-true m l = rw l

pub is_local-false : (m : NodeManager) → m.rcmode ≡ "remote" → is_local m ≡ false
is_local-false m r = rw r

and_true : (a b : Bool) → b ≡ true → (a && b) ≡ a
and_true a b h = ground arith

and_false : (a b : Bool) → b ≡ false → (a && b) ≡ false
and_false a b h = ground arith

rc_event_do-InStep :
    (now : ℕ) (m : NodeManager) (f : RcFsm)
    → InStep m
    → InStep (rc_event_do now (record m { rc_fsm = f }))
unfolding rc_event_do
rc_event_do-InStep now m f i =
    let t = record m { rc_fsm = f } in
    elim i.mode [
      | inl l ↦
          set_some-InStep (computes t && is_local t) (stores t && is_local t) now f.curstate t
            (and_true (computes t) (is_local t) (is_local-true t l))
            (and_true (stores t) (is_local t) (is_local-true t l)) (inl l) (rc_state_local t l)
      | inr r ↦
          set_some_none (computes t && is_local t) (stores t && is_local t) now f.curstate t
            (and_false (computes t) (is_local t) (is_local-false t r))
            (and_false (stores t) (is_local t) (is_local-false t r))
            (InStep-keep m t i refl refl refl refl refl
              (rc_state_remote t r ∙ sym (rc_state_remote m r)))
    ]

still-InStep :
    (m : NodeManager) (f : RcFsm)
    → InStep m
    → f.curstate ≡ m.rc_fsm.curstate
    → InStep (record m { rc_fsm = f })
unfolding rc_state
still-InStep m f i e =
    InStep-keep m (record m { rc_fsm = f }) i refl refl refl refl refl
      (ap (λ s. if is_remote m then m.state else s) e)

-- A command of the node's own run control, whether it is accepted or not, leaves every thread that
-- the node's profile runs in the state that the node reports, if they were.
pub rc_process-InStep :
    (now : ℕ) (c : RcCommand) (m : NodeManager) → InStep m → InStep (rc_process now c m).0
unfolding rc_process
rc_process-InStep now c m i =
    let fsm = (Rc.process m.rc_fsm c).0 in
    if_both InStep
      (is_reset c
        || (is_ok (Rc.process m.rc_fsm c).1 && not (same_state fsm.curstate m.rc_fsm.curstate)))
      (rc_event_do now (record m { rc_fsm = fsm })) (record m { rc_fsm = fsm })
      (λ _. rc_event_do-InStep now m fsm i) λ e. still-InStep m fsm i (process-still m.rc_fsm c e)
