-- ===== src/Writer/Store.antt =====
-- What is stored: `process` of src/writer/FzWriter.cpp.
use fz_daq.Prelude.{
  ℕ, ◌+◌, ◌≡◌, ◌≢◌, refl, sym, ap, ◌∙◌, List, [], ◌∷◌, ◌++◌, Bool, true, false, arith, length, ltb,
  if◌then◌else◌,
}
use mathlib.Core.List.{append_assoc}
use fz_daq.Writer.{
  Writer, EventFile, add_message, setup_newfile, setup_newdir, new_run, store_message, take_message,
  u64,
}

-- The messages of all files, in the order of the files.
abbrev pub stored : List EventFile → List (List ℕ)
stored [] = []
stored (f ∷ fs) = stored fs ++ f.messages

pub append_nil : (xs : List (List ℕ)) → xs ++ [] ≡ xs
append_nil [] = refl
append_nil (x ∷ xs) = ap (λ ys. x ∷ ys) (append_nil xs)

add_message-stored :
    (m : List ℕ) (fs : List EventFile) → fs ≢ [] → stored (add_message m fs) ≡ stored fs ++ m ∷ []
unfolding add_message
add_message-stored m [] h = absurd (h refl)
add_message-stored m (f ∷ fs) h = sym (append_assoc (stored fs) f.messages (m ∷ []))

setup_newfile-stored : (now : ℕ) (w : Writer) → stored (setup_newfile now w).files ≡ stored w.files
unfolding setup_newfile
setup_newfile-stored now w = append_nil (stored w.files)

pub new_run-stored : (now : ℕ) (w : Writer) → stored (new_run now w).files ≡ stored w.files
unfolding new_run setup_newdir
new_run-stored now w = setup_newfile-stored now (setup_newdir w).0

if-stored :
    (b : Bool) (v w : Writer) (ms : List (List ℕ))
    → stored v.files ≡ ms
    → stored w.files ≡ ms
    → stored (if b then v else w).files ≡ ms
if-stored true v w ms h k = h
if-stored false v w ms h k = k

store_message-stored :
    (now : ℕ) (m : List ℕ) (w : Writer)
    → w.files ≢ []
    → stored (store_message now m w).files ≡ stored w.files ++ m ∷ []
unfolding store_message
store_message-stored now m w h =
    let t = record w {
      files = add_message m w.files;
      esize = u64 (w.esize + length m);
      dsize = u64 (w.dsize + length m);
    } in
    let put = add_message-stored m w.files h in
    if-stored (ltb t.event_dir_size t.dsize) (new_run now t) _ _ (new_run-stored now t ∙ put) (
      if-stored (ltb t.event_file_size t.esize) (record (setup_newfile now t) { esize = 0 }) t _
        (setup_newfile-stored now t ∙ put) put)

if-spied :
    (b : Bool) (v w : Writer) (ms : List (List ℕ))
    → v.spied ≡ ms
    → w.spied ≡ ms
    → (if b then v else w).spied ≡ ms
if-spied true v w ms h k = h
if-spied false v w ms h k = k

-- Storing publishes nothing.
store_message-spied : (now : ℕ) (m : List ℕ) (w : Writer) → (store_message now m w).spied ≡ w.spied
unfolding store_message new_run setup_newdir setup_newfile
store_message-spied now m w =
    if-spied (ltb w.event_dir_size (u64 (w.dsize + length m))) _ _ w.spied refl
      (if-spied (ltb w.event_file_size (u64 (w.esize + length m))) _ _ w.spied refl refl)

-- While there is a file, a message is put behind all those stored before, in whichever file,
-- exactly once if the writer is storing and not at all if it is not; it is published in either case.
pub take_message-stored :
    (now : ℕ) (m : List ℕ) (w : Writer) (bytes events : ℕ)
    → w.files ≢ []
    → let t = (take_message now m (w, bytes, events)).0 in
      (w.storing ≡ true → stored t.files ≡ stored w.files ++ m ∷ [])
      × (w.storing ≡ false → t.files ≡ w.files)
      × (t.spied ≡ w.spied ++ m ∷ [])
unfolding take_message
take_message-stored now m w bytes events h =
    let r = record w.report {
      in_bytes = u64 (w.report.in_bytes + length m);
      in_events = u64 (w.report.in_events + 1);
    } in
    let t = record w { report = r } in
    let spied =
      if-spied w.storing (store_message now m t) t w.spied (store_message-spied now m t) refl in
    (
      λ e. rw e (store_message-stored now m (record w { storing = true; report = r }) h),
      λ e. ground (arith, e),
      ap (λ ms. ms ++ m ∷ []) spied,
    )
