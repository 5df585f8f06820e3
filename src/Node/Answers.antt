-- ===== src/Node/Answers.antt =====
-- The answers of `handle_request` of src/nodemanager/FzNodeManager.cpp, and what they do to the node.
use fz_daq.Prelude.{
  ℕ, ◌≡◌, ◌≢◌, refl, ap, ◌∙◌, inl, inr, true, not, Option, none, some, same, Option-cases, if_both,
}
use fz_daq.Rc.{RcState}
use fz_daq.Rcs.{Channel, Operation, Request, read, write, rc, setup, nm, rcs_ok, rcs_deny, answer}
use fz_daq.Writer.{set_store}
use fz_daq.Node.{
  NodeManager, NodeReply, response, perfdata, is_remote, is_nm, stores, rc_state, handle_request,
  read_rc, write_rc, write_setup, enter_state, state_of_value, by_channel, label, granted,
}
use fz_daq.Node.InStep.{enter_state-InStep}

-- The request reads, or writes, the run control state of a node manager.
pub record Status (o : Operation) (q : Request) : Type 0 where
  pub to_node : q.module_of ≡ nm
  pub run_control : q.channel ≡ rc
  pub operated : q.operation ≡ o
  pub named : q.variable ≡ "status"

-- A node and the same with another value of the writer's `store`.
abbrev pub OnlyStoring : NodeManager → NodeManager → Type 0
OnlyStoring m t = t ≡ record m { writer = record m.writer { storing = t.writer.storing } }

write_rc_local :
    (now : ℕ) (q : Request) (m : NodeManager)
    → m.rcmode ≡ "local"
    → write_rc now q m ≡ (m, response (answer rcs_deny "FzDAQ Run Control set to local mode"))
unfolding write_rc
write_rc_local now q m l = rw l

write_setup-OnlyStoring : (q : Request) (m : NodeManager) → OnlyStoring m (write_setup q m).0
unfolding write_setup set_store
write_setup-OnlyStoring q m =
    if_both (λ (r : NodeManager × NodeReply). OnlyStoring m r.0) (not (stores m)) _ _ (λ _. refl)
      λ _.
        if_both (λ (r : NodeManager × NodeReply). OnlyStoring m r.0) (same q.variable "store") _ _
          (λ _. refl)
          λ _.
            if_both (λ (r : NodeManager × NodeReply). OnlyStoring m r.0) (same q.variable "nostore")
              _ _ (λ _. refl) λ _. refl

by_channel_local :
    (now : ℕ) (c : Channel) (o : Operation) (q : Request) (m : NodeManager)
    → m.rcmode ≡ "local"
    → OnlyStoring m (by_channel now c o q m).0
by_channel_local now rc read q m l = refl
by_channel_local now rc write q m l = rw (write_rc_local now q m l) refl
by_channel_local now setup read q m l = refl
by_channel_local now setup write q m l = write_setup-OnlyStoring q m

-- In local mode no message changes anything of a node but whether its writer stores.
pub handle_request_local :
    (now : ℕ) (q : Option Request) (m : NodeManager)
    → m.rcmode ≡ "local"
    → OnlyStoring m (handle_request now q m).0
unfolding handle_request
handle_request_local now none m l = refl
handle_request_local now (some q) m l =
    if_both (λ (r : NodeManager × NodeReply). OnlyStoring m r.0) (not (is_nm q.module_of)) _ _
      (λ _. refl) λ _. by_channel_local now q.channel q.operation q m l

read_rc_status :
    (q : Request) (m : NodeManager)
    → q.variable ≡ "status"
    → read_rc q m ≡ response (record granted { value = label (rc_state m) })
unfolding read_rc
read_rc_status q m e = rw e

write_rc_status :
    (now : ℕ) (q : Request) (m : NodeManager) (s : RcState)
    → m.rcmode ≡ "remote"
    → q.variable ≡ "status"
    → state_of_value q.value ≡ some s
    → write_rc now q m ≡ (enter_state now s m, response granted)
unfolding write_rc
write_rc_status now q m s r e f =
    let P = λ (x : NodeManager × NodeReply). x ≡ (enter_state now s m, response granted) in
    let remote : is_remote m ≡ true = rw r in
    let named : same q.variable "status" ≡ true = rw e in
    if_both P (not (is_remote m)) _ _ (λ h. absurd (cc))
      λ _. if_both P (not (same q.variable "status")) _ _ (λ h. absurd (cc)) λ _. rw f refl

-- A request of run control to the node manager goes to its part by the operation.
to_run_control :
    (now : ℕ) (o : Operation) (q : Request) (m : NodeManager)
    → Status o q
    → handle_request now (some q) m ≡ by_channel now rc o q m
unfolding handle_request
to_run_control now o q m s = rw (s.to_node, s.run_control, s.operated)

Status-answer :
    (now : ℕ) (q : Request) (m : NodeManager)
    → Status read q
    → handle_request now (some q) m ≡ (m, response (record granted { value = label (rc_state m) }))
Status-answer now q m s =
    to_run_control now read q m s ∙ ap (λ r. (m, r)) (read_rc_status q m s.named)

pub Status-taken :
    (now : ℕ) (q : Request) (m : NodeManager) (s : RcState)
    → m.rcmode ≡ "remote"
    → Status write q
    → state_of_value q.value ≡ some s
    → handle_request now (some q) m ≡ (enter_state now s m, response granted)
Status-taken now q m s r w e =
    to_run_control now write q m w ∙ write_rc_status now q m s r w.named e

-- In remote mode, once a state has been written that the node knows the name of, the node answers a
-- request to read it with that state.
pub Status-written-read :
    (now : ℕ) (q p : Request) (m : NodeManager) (s : RcState)
    → m.rcmode ≡ "remote"
    → Status write q
    → state_of_value q.value ≡ some s
    → Status read p
    → (handle_request now (some p) (handle_request now (some q) m).0).1
      ≡ response (record granted { value = label s })
Status-written-read now q p m s r w e g =
    let taken = ap (λ (x : NodeManager × NodeReply). x.0) (Status-taken now q m s r w e) in
    let answered =
      ap (λ (x : NodeManager × NodeReply). x.1)
        (Status-answer now p (handle_request now (some q) m).0 g) in
    answered
    ∙ ap (λ (t : NodeManager). response (record granted { value = label (rc_state t) })) taken
    ∙ ap (λ (t : RcState). response (record granted { value = label t }))
        (enter_state-InStep now s m r).1

-- An error is a response whose code is not OK.
abbrev pub IsError : NodeReply → Type 0
IsError (response r) = r.errorcode ≢ rcs_ok
IsError (perfdata r) = ⊥

abbrev Keeps : NodeManager → NodeManager × NodeReply → Type 0
Keeps m r = IsError r.1 → r.0 ≡ m

write_setup-Keeps : (q : Request) (m : NodeManager) → Keeps m (write_setup q m)
unfolding write_setup
write_setup-Keeps q m =
    if_both (Keeps m) (not (stores m)) _ _ (λ _ _. refl)
      λ _.
        if_both (Keeps m) (same q.variable "store") _ _ (λ _ e. absurd (e refl))
          λ _.
            if_both (Keeps m) (same q.variable "nostore") _ _ (λ _ e. absurd (e refl)) λ _ _. refl

write_rc-Keeps : (now : ℕ) (q : Request) (m : NodeManager) → Keeps m (write_rc now q m)
unfolding write_rc
write_rc-Keeps now q m =
    if_both (Keeps m) (not (is_remote m)) _ _ (λ _ _. refl)
      λ _.
        if_both (Keeps m) (not (same q.variable "status")) _ _ (λ _ _. refl)
          λ _. elim (Option-cases (state_of_value q.value)) [
            | inl f ↦ rw f (λ _. refl)
            | inr (s, f) ↦ rw f (λ e. absurd (e refl))
          ]

by_channel-Keeps :
    (now : ℕ) (c : Channel) (o : Operation) (q : Request) (m : NodeManager)
    → Keeps m (by_channel now c o q m)
by_channel-Keeps now rc read q m e = refl
by_channel-Keeps now rc write q m e = write_rc-Keeps now q m e
by_channel-Keeps now setup read q m e = refl
by_channel-Keeps now setup write q m e = write_setup-Keeps q m e

-- A message that is answered with an error leaves the node as it was.
pub handle_request-IsError :
    (now : ℕ) (q : Option Request) (m : NodeManager)
    → IsError (handle_request now q m).1
    → (handle_request now q m).0 ≡ m
unfolding handle_request
handle_request-IsError now none m = λ _. refl
handle_request-IsError now (some q) m =
    if_both (Keeps m) (not (is_nm q.module_of)) _ _ (λ _ _. refl)
      λ _. by_channel-Keeps now q.channel q.operation q m
