-- ===== src/Writer/Sizes.antt =====
-- How large files become: the limits of `process` of src/writer/FzWriter.cpp.
use fz_daq.Prelude.{
  ℕ, not, ◌&&◌, ◌+◌, ◌*◌, ◌<◌, ◌≤◌, ◌≡◌, ◌≢◌, refl, ◌⊎◌, List, [], ◌∷◌, ◌++◌, Bool, true, false,
  arith, length, ltb, if◌then◌else◌, inl, inr,
}
use fz_daq.Rc.{RcState}
use fz_daq.Writer.{
  Writer, EventFile, add_message, setup_newfile, setup_newdir, new_run, store_message, u64,
  set_rcstate, halted, is_running,
}

abbrev pub bytes : List (List ℕ) → ℕ
bytes [] = 0
bytes (m ∷ ms) = length m + bytes ms

-- The bytes that messages take in a file, where four bytes of length stand before each.
abbrev pub disk_bytes : List (List ℕ) → ℕ
disk_bytes [] = 0
disk_bytes (m ∷ ms) = 4 + length m + disk_bytes ms

abbrev count : List (List ℕ) → ℕ
count [] = 0
count (m ∷ ms) = 1 + count ms

-- All messages but the last stay within the limit, and are longer than it in the file by four bytes
-- for each message at most.
abbrev pub Fits : ℕ → List (List ℕ) → Type 0
Fits limit ms =
    (ms ≡ [])
    ⊎ ((before : List (List ℕ)) × (last : List ℕ) × (ms ≡ before ++ last ∷ [])
        × (bytes before ≤ limit)
        × (disk_bytes before ≤ limit + 4 * count before))

abbrev pub AllFit : ℕ → List EventFile → Type 0
AllFit limit [] = Unit {0}
AllFit limit (f ∷ fs) = Fits limit f.messages × AllFit limit fs

-- The bytes of the messages in the file that is open, without their lengths.
abbrev pub open_bytes : List EventFile → ℕ
open_bytes [] = 0
open_bytes (f ∷ fs) = bytes f.messages

-- The open file's size, in bytes of messages without their lengths, is known and within the limit, the
-- run's too, and no file has gone over the limit by more than its last message and four bytes for
-- each message before.
pub record Sized (w : Writer) : Type 0 where
  pub has_file : w.files ≢ []
  pub known : w.esize ≡ open_bytes w.files
  pub small : w.esize ≤ w.event_file_size
  pub small_run : w.dsize ≤ w.event_dir_size
  pub all_fit : AllFit w.event_file_size w.files

bytes-append : (ms : List (List ℕ)) (m : List ℕ) → bytes (ms ++ m ∷ []) ≡ bytes ms + length m
bytes-append [] m = omega arith
bytes-append (n ∷ ms) m = omega (arith, bytes-append ms m)

disk_bytes-bytes : (ms : List (List ℕ)) → disk_bytes ms ≡ bytes ms + 4 * count ms
disk_bytes-bytes [] = refl
disk_bytes-bytes (m ∷ ms) = omega (arith, disk_bytes-bytes ms)

add_message-AllFit :
    (limit : ℕ) (m : List ℕ) (fs : List EventFile)
    → open_bytes fs ≤ limit
    → AllFit limit fs
    → AllFit limit (add_message m fs)
unfolding add_message
add_message-AllFit limit m [] h a = tt
add_message-AllFit limit m (f ∷ fs) h a =
    (inr (f.messages, m, refl, h, omega (arith, disk_bytes-bytes f.messages, h)), a.1)

add_message-open_bytes :
    (m : List ℕ) (fs : List EventFile)
    → fs ≢ []
    → (add_message m fs ≢ []) × (open_bytes (add_message m fs) ≡ open_bytes fs + length m)
unfolding add_message
add_message-open_bytes m [] h = absurd (h refl)
add_message-open_bytes m (f ∷ fs) h = (λ e. cc, bytes-append f.messages m)

if-Sized :
    (b : Bool) (v w : Writer)
    → (b ≡ true → Sized v)
    → (b ≡ false → Sized w)
    → Sized (if b then v else w)
if-Sized true v w h k = h refl
if-Sized false v w h k = k refl

-- While the limits and a message together fit in 64 bits: storing a message keeps the size of the
-- open file, counted in bytes of messages without the four bytes of length before each, known and
-- within its limit, that of the run within its limit, and in every file the messages but the last
-- within the limit, and their bytes on the disk within the limit and four for each of them.
pub store_message-Sized :
    (now : ℕ) (m : List ℕ) (w : Writer)
    → w.event_file_size + length m < 18446744073709551616
    → w.event_dir_size + length m < 18446744073709551616
    → Sized w
    → Sized (store_message now m w)
unfolding store_message new_run setup_newfile setup_newdir
store_message-Sized now m w h k s =
    let t = record w {
      files = add_message m w.files;
      esize = u64 (w.esize + length m);
      dsize = u64 (w.dsize + length m);
    } in
    let known = s.known in
    let small = s.small in
    let small_run = s.small_run in
    let put = add_message-open_bytes m w.files s.has_file in
    let fit = add_message-AllFit w.event_file_size m w.files (omega arith) s.all_fit in
    if-Sized (ltb t.event_dir_size t.dsize) (new_run now t) _
      (λ e. record {
        has_file = λ f. cc;
        known = refl;
        small = omega arith;
        small_run = omega arith;
        all_fit = (inl refl, fit);
      })
      λ e.
        if-Sized (ltb t.event_file_size t.esize) (record (setup_newfile now t) { esize = 0 }) t
          (λ f. record {
            has_file = λ g. cc;
            known = refl;
            small = omega arith;
            small_run = ground arith;
            all_fit = (inl refl, fit);
          })
          λ f. record {
            has_file = put.0;
            known = ground (arith, put.1);
            small = ground arith;
            small_run = ground arith;
            all_fit = fit;
          }

new_run-Sized : (now : ℕ) (w : Writer) → Sized w → Sized (new_run now w)
unfolding new_run setup_newfile setup_newdir
new_run-Sized now w s = record {
  has_file = λ f. cc;
  known = refl;
  small = omega arith;
  small_run = omega arith;
  all_fit = (inl refl, s.all_fit);
}

-- A change of the run control state, with the new run that a start may begin, keeps the sizes known
-- and the files within the limits in the same way.
pub set_rcstate-Sized : (now : ℕ) (c : RcState) (w : Writer) → Sized w → Sized (set_rcstate now c w)
unfolding set_rcstate
set_rcstate-Sized now c w s =
    let n = new_run-Sized now w s in
    let t = if not w.start_newdir && w.storing then new_run now w else w in
    let sized : Sized t =
      if-Sized (not w.start_newdir && w.storing) (new_run now w) w (λ e. n) (λ e. s) in
    let v = if halted w.rcstate && is_running c then record t { start_newdir = false } else w in
    let kept : Sized v =
      if-Sized (halted w.rcstate && is_running c) (record t { start_newdir = false }) w
        (λ e. record {
          has_file = sized.has_file;
          known = sized.known;
          small = sized.small;
          small_run = sized.small_run;
          all_fit = sized.all_fit;
        })
        (λ e. s) in
    record {
      has_file = kept.has_file;
      known = kept.known;
      small = kept.small;
      small_run = kept.small_run;
      all_fit = kept.all_fit;
    }
