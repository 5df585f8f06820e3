-- ===== src/Writer/Life.antt =====
-- The life of a writer: what its thread and its callers do to it in whatever order, by
-- src/writer/FzWriter.cpp, against what it promises to store.
use fz_daq.Prelude.{
  String, ℕ, ◌+◌, ◌≡◌, ◌≢◌, refl, sym, ap, ◌∙◌, List, [], ◌∷◌, ◌++◌, Bool, true, false, ◌&&◌, not,
  Option, none, some, if◌then◌else◌, ltb, length, Bool-cases, if_both, inl, inr, arith,
}
use mathlib.Core.List.{append_assoc}
use fz_daq.Rc.{RcState, idle}
use fz_daq.Writer.{
  EventFile, Writer, setup_newdir, setup_newfile, new_run, add_message, store_message, take_message,
  set_rcstate, set_store, set_eventfilesize, set_eventdirsize, new_writer, writer_round, is_running,
  halted, u64,
}
use fz_daq.Writer.Store.{stored, take_message-stored, new_run-stored, append_nil}

-- What can happen to a writer.
pub data Op : Type 0 where
  round : ℕ → Option (List ℕ) → Op
  state : ℕ → RcState → Op
  storing : Bool → Op
  file_limit dir_limit : ℕ → Op

abbrev pub perform : Op → Writer × ℕ × ℕ → Writer × ℕ × ℕ
perform (round now m) t = writer_round now m t
perform (state now s) (w, bytes, events) = (set_rcstate now s w, bytes, events)
perform (storing b) (w, bytes, events) = (set_store b w, bytes, events)
perform (file_limit k) (w, bytes, events) = (set_eventfilesize k w, bytes, events)
perform (dir_limit k) (w, bytes, events) = (set_eventdirsize k w, bytes, events)

abbrev pub perform_all : List Op → Writer × ℕ × ℕ → Writer × ℕ × ℕ
perform_all [] t = t
perform_all (o ∷ ops) t = perform_all ops (perform o t)

-- What is promised to be stored: the messages that come while it is running and told to store, in
-- order, whatever the limits.
abbrev pub promised : List Op → RcState → Bool → List (List ℕ)
promised [] s b = []
promised (round now (some m) ∷ ops) s b =
    if is_running s && b then m ∷ promised ops s b else promised ops s b
promised (round now none ∷ ops) s b = promised ops s b
promised (state now c ∷ ops) s b = promised ops c b
promised (storing c ∷ ops) s b = promised ops s c
promised (file_limit k ∷ ops) s b = promised ops s b
promised (dir_limit k ∷ ops) s b = promised ops s b

-- Two writers that differ in none of these.
abbrev Alike : Writer → Writer → Type 0
Alike v w = (v.rcstate ≡ w.rcstate) × (v.storing ≡ w.storing)

if-Alike : (b : Bool) (v w t : Writer) → Alike v t → Alike w t → Alike (if b then v else w) t
if-Alike true v w t h k = h
if-Alike false v w t h k = k

store_message-Alike : (now : ℕ) (m : List ℕ) (w : Writer) → Alike (store_message now m w) w
unfolding store_message new_run setup_newfile setup_newdir
store_message-Alike now m w =
    if-Alike (ltb w.event_dir_size (u64 (w.dsize + length m))) _ _ w (refl, refl)
      (if-Alike (ltb w.event_file_size (u64 (w.esize + length m))) _ _ w (refl, refl) (refl, refl))

pub take_message-Alike :
    (now : ℕ) (m : List ℕ) (w : Writer) (bytes events : ℕ)
    → Alike (take_message now m (w, bytes, events)).0 w
unfolding take_message
take_message-Alike now m w bytes events =
    let r = record w.report {
      in_bytes = u64 (w.report.in_bytes + length m);
      in_events = u64 (w.report.in_events + 1);
    } in
    let t = record w { report = r } in
    if-Alike w.storing (store_message now m t) t w (store_message-Alike now m t) (refl, refl)

add_message-opened : (m : List ℕ) (fs : List EventFile) → fs ≢ [] → add_message m fs ≢ []
unfolding add_message
add_message-opened m [] h = absurd (h refl)
add_message-opened m (f ∷ fs) h = λ e. cc

if-opened :
    (b : Bool) (v w : Writer) → v.files ≢ [] → w.files ≢ [] → (if b then v else w).files ≢ []
if-opened true v w h k = h
if-opened false v w h k = k

store_message-opened :
    (now : ℕ) (m : List ℕ) (w : Writer) → w.files ≢ [] → (store_message now m w).files ≢ []
unfolding store_message new_run setup_newfile setup_newdir
store_message-opened now m w h =
    if-opened (ltb w.event_dir_size (u64 (w.dsize + length m))) _ _ (λ e. cc)
      (if-opened (ltb w.event_file_size (u64 (w.esize + length m))) _ _ (λ e. cc)
        (add_message-opened m w.files h))

take_message-opened :
    (now : ℕ) (m : List ℕ) (w : Writer) (bytes events : ℕ)
    → w.files ≢ []
    → (take_message now m (w, bytes, events)).0.files ≢ []
unfolding take_message
take_message-opened now m w bytes events h =
    let r = record w.report {
      in_bytes = u64 (w.report.in_bytes + length m);
      in_events = u64 (w.report.in_events + 1);
    } in
    let t = record w { report = r } in
    if-opened w.storing (store_message now m t) t (store_message-opened now m t h) h

new_run-opened : (now : ℕ) (w : Writer) → (new_run now w).files ≢ []
unfolding new_run setup_newfile
new_run-opened now w = λ e. cc

-- The messages stored so far and those still to come.
abbrev Keeps : List (List ℕ) → List Op → Writer × ℕ × ℕ → Type 0
Keeps ms ops t = (t.0.files ≢ []) × (stored t.0.files ++ promised ops t.0.rcstate t.0.storing ≡ ms)

set_rcstate-stored :
    (now : ℕ) (c : RcState) (w : Writer)
    → w.files ≢ []
    → ((set_rcstate now c w).files ≢ []) × (stored (set_rcstate now c w).files ≡ stored w.files)
unfolding set_rcstate
set_rcstate-stored now c w h =
    if_both (λ (t : Writer). (t.files ≢ []) × (stored t.files ≡ stored w.files))
      (halted w.rcstate && is_running c) _ w
      (λ _.
        if_both (λ (t : Writer). (t.files ≢ []) × (stored t.files ≡ stored w.files))
          (not w.start_newdir && w.storing) (new_run now w) w
          (λ _. (new_run-opened now w, new_run-stored now w)) λ _. (h, refl))
      λ _. (h, refl)

set_rcstate-storing :
    (now : ℕ) (c : RcState) (w : Writer) → (set_rcstate now c w).storing ≡ w.storing
unfolding set_rcstate new_run setup_newfile setup_newdir
set_rcstate-storing now c w = ground arith

set_rcstate-rcstate : (now : ℕ) (c : RcState) (w : Writer) → (set_rcstate now c w).rcstate ≡ c
unfolding set_rcstate
set_rcstate-rcstate now c w = refl

-- A writer in the same state, in front of the same operations.
Keeps-Alike :
    (ms : List (List ℕ)) (ops : List Op) (v w : Writer) (counts : ℕ × ℕ)
    → Alike v w
    → v.files ≢ []
    → stored v.files ++ promised ops w.rcstate w.storing ≡ ms
    → Keeps ms ops (v, counts.0, counts.1)
Keeps-Alike ms ops v w counts a h e = (
  h,
  ap (λ s. stored v.files ++ promised ops s v.storing) a.0
      ∙ ap (λ b. stored v.files ++ promised ops w.rcstate b) a.1
      ∙ e,
)

taken-Keeps :
    (ms : List (List ℕ)) (ops : List Op) (now : ℕ) (m : List ℕ) (w : Writer) (bytes events : ℕ)
    → is_running w.rcstate ≡ true
    → Keeps ms (round now (some m) ∷ ops) (w, bytes, events)
    → Keeps ms ops (take_message now m (w, bytes, events))
taken-Keeps ms ops now m w bytes events r (h, e) =
    let v = (take_message now m (w, bytes, events)).0 in
    let rest = promised ops w.rcstate w.storing in
    let both : (b : Bool) → w.storing ≡ b → (is_running w.rcstate && w.storing) ≡ b =
      λ b f. rw (r, f) refl in
    let st = take_message-stored now m w bytes events h in
    Keeps-Alike ms ops v w (0, 0) (take_message-Alike now m w bytes events)
      (take_message-opened now m w bytes events h)
      (elim (Bool-cases w.storing) [
        | inl f ↦
            ap (λ xs. xs ++ rest) (st.0 f)
            ∙ append_assoc (stored w.files) (m ∷ []) rest
            ∙ ap (λ b. stored w.files ++ (if b then m ∷ rest else rest)) (sym (both true f))
            ∙ e
        | inr f ↦
            ap (λ fs. stored fs ++ rest) (st.1 f)
            ∙ ap (λ b. stored w.files ++ (if b then m ∷ rest else rest)) (sym (both false f))
            ∙ e
      ])

perform-Keeps :
    (ms : List (List ℕ)) (o : Op) (ops : List Op) (t : Writer × ℕ × ℕ)
    → Keeps ms (o ∷ ops) t
    → Keeps ms ops (perform o t)
unfolding writer_round set_store set_eventfilesize set_eventdirsize
perform-Keeps ms (round now none) ops t k = k
perform-Keeps ms (round now (some m)) ops (w, bytes, events) k =
    elim (Bool-cases (is_running w.rcstate)) [
      | inl r ↦ rw r (taken-Keeps ms ops now m w bytes events r k)
      | inr r ↦ rw r (
        k.0,
        ap
              (λ b.
                stored w.files
                ++ (if b && w.storing
                    then m ∷ promised ops w.rcstate w.storing
                    else promised ops w.rcstate w.storing))
              (sym r)
            ∙ k.1,
      )
    ]
perform-Keeps ms (state now c) ops (w, bytes, events) k =
    let s = set_rcstate-stored now c w k.0 in
    (
      s.0,
      ap (λ xs. xs ++ promised ops (set_rcstate now c w).rcstate (set_rcstate now c w).storing) s.1
          ∙ ap (λ b. stored w.files ++ promised ops (set_rcstate now c w).rcstate b)
              (set_rcstate-storing now c w)
          ∙ ap (λ x. stored w.files ++ promised ops x w.storing) (set_rcstate-rcstate now c w)
          ∙ k.1,
    )
perform-Keeps ms (storing b) ops (w, bytes, events) k = k
perform-Keeps ms (file_limit n) ops (w, bytes, events) k = k
perform-Keeps ms (dir_limit n) ops (w, bytes, events) k = k

perform_all-Keeps :
    (ms : List (List ℕ)) (ops : List Op) (t : Writer × ℕ × ℕ)
    → Keeps ms ops t
    → Keeps ms [] (perform_all ops t)
perform_all-Keeps ms [] t k = k
perform_all-Keeps ms (o ∷ ops) t k =
    perform_all-Keeps ms ops (perform o t) (perform-Keeps ms o ops t k)

-- From the constructor on, whatever rounds, changes of state, of storing and of the limits follow in
-- whatever order: the files hold, one after the other in the order they were opened, exactly the
-- messages that came while the writer was running and told to store, in the order they came; and
-- there is always a file.
pub perform_all-promised :
    (ops : List Op) (now id : ℕ) (there : List String) (unset : Writer)
    → let w = (perform_all ops (new_writer now id there unset, 0, 0)).0 in
      (stored w.files ≡ promised ops idle true) × (w.files ≢ [])
unfolding new_writer setup_newdir setup_newfile
perform_all-promised ops now id there unset =
    let t : Writer × ℕ × ℕ = (new_writer now id there unset, 0, 0) in
    let w = (perform_all ops t).0 in
    let k = perform_all-Keeps (promised ops idle true) ops t (λ e. cc, refl) in
    (sym (append_nil (stored w.files)) ∙ k.1, k.0)
