-- ===== src/Writer.antt =====
-- Where events are stored: class FzWriter of src/writer/FzWriter.cpp. The directories and files
-- are part of the state; a file holds messages, the unit that `WriteDataset` writes. Opening a file
-- and writing to it are taken to succeed.
pub mod Store
mod Runs
pub mod Life
mod Sizes
mod Tests
use fz_daq.Prelude.{
  ℕ, suc, ◌+◌, ◌*◌, ◌%◌, List, [], ◌∷◌, ◌++◌, Bool, true, false, ◌&&◌, ◌||◌, not, ltb,
  if◌then◌else◌, String, same, length, Option, none, some,
}
use fz_daq.Rc.{RcState, idle, ready, running, paused}

-- A file of a run's directory: the time and the number of its name, and its messages.
pub record EventFile : Type 0 where
  pub dir : String
  pub time : ℕ
  pub file_id : ℕ
  pub messages : List (List ℕ)

pub record WriterReport : Type 0 where
  pub in_bytes : ℕ
  pub out_bytes : ℕ
  pub in_events : ℕ
  pub out_events : ℕ

-- What the member `runtag` is used for: the name of a run's directory, which is the tag and the number
-- in six digits or more; and the number that `sscanf` reads of a directory's name that contains the
-- tag, if it reads one.
pub record RunTag : Type 0 where
  pub run_name : ℕ → String
  pub number_in : String → Option ℕ

-- The members of the class and the static variable of `setup_newdir`; a directory is given by its
-- name in `basedir`. The directories that are there and the files written are in `dirs` and `files`,
-- the latest first: the first file is the one that `output` is open on. What is published to the event spy is in
-- `spied`, in order.
pub record Writer : Type 0 where
  pub runtag : RunTag
  pub event_file_size : ℕ
  pub event_dir_size : ℕ
  pub esize : ℕ
  pub dsize : ℕ
  pub fileid : ℕ
  pub dirid : ℕ
  pub dirstr : String
  pub firstrun : Bool
  pub start_newdir : Bool
  pub storing : Bool
  pub rcstate : RcState
  pub report : WriterReport
  pub dirs : List String
  pub files : List EventFile
  pub spied : List (List ℕ)

abbrev pub dir_ok : ℕ
dir_ok = 0

abbrev pub dir_exists : ℕ
dir_exists = 1

abbrev pub u32 : ℕ → ℕ
u32 n = n % 4294967296

abbrev pub u64 : ℕ → ℕ
u64 n = n % 18446744073709551616

unfoldable pub setup_newfile : ℕ → Writer → Writer
setup_newfile now w = record w {
  files = record { dir = w.dirstr; time = now; file_id = w.fileid; messages = [] } ∷ w.files;
  fileid = u32 (w.fileid + 1);
}

unfoldable pub mem : String → List String → Bool
mem n [] = false
mem n (m ∷ ms) = let rest = mem n ms in if same n m then true else rest

-- A number that is read and is larger takes the place of the largest.
unfoldable pub larger : ℕ → Option ℕ → ℕ
larger max none = max
larger max (some num) = if ltb max num then num else max

-- The largest number so far, over the rest of the directories.
unfoldable pub max_runid : RunTag → ℕ → List String → ℕ
unfolding larger
max_runid tag max [] = max
max_runid tag max (name ∷ names) = max_runid tag (larger max (tag.number_in name)) names

-- `get_max_runid`: the scan of the directory's entries.
abbrev pub get_max_runid : Writer → ℕ
get_max_runid w = max_runid w.runtag w.dirid w.dirs

-- `mkdir` makes the directory unless it is there; the call returns the status.
unfoldable pub setup_newdir : Writer → Writer × ℕ
unfolding max_runid mem
setup_newdir w =
    let id = if w.firstrun then u32 (get_max_runid w + 1) else w.dirid in
    let name = w.runtag.run_name id in
    let there = mem name w.dirs in
    (
      record w {
        firstrun = false;
        dirstr = name;
        dirid = u32 (id + 1);
        dirs = if there then w.dirs else name ∷ w.dirs;
      },
      if there then dir_exists else dir_ok,
    )

-- `pb->WriteDataset(output, msg_str)`
unfoldable pub add_message : List ℕ → List EventFile → List EventFile
add_message m [] = []
add_message m (f ∷ fs) = record f { messages = f.messages ++ m ∷ [] } ∷ fs

-- A new directory and a new file in it.
unfoldable pub new_run : ℕ → Writer → Writer
unfolding setup_newfile setup_newdir
new_run now w = record (setup_newfile now (setup_newdir w).0) { esize = 0; dsize = 0 }

-- The message is stored and the sizes are compared with their limits.
unfoldable pub store_message : ℕ → List ℕ → Writer → Writer
unfolding add_message setup_newfile new_run
store_message now m w =
    let t = record w {
      files = add_message m w.files;
      esize = u64 (w.esize + length m);
      dsize = u64 (w.dsize + length m);
    } in
    if ltb t.event_dir_size t.dsize
    then new_run now t
    else if ltb t.event_file_size t.esize
    then record (setup_newfile now t) { esize = 0 }
    else t

-- The body of `if(rc)` in `process`, with the two local variables that keep the last counts.
unfoldable pub take_message : ℕ → List ℕ → Writer × ℕ × ℕ → Writer × ℕ × ℕ
unfolding store_message
take_message now m (w, last_out_bytes, last_out_events) =
    let r = record w.report {
      in_bytes = u64 (w.report.in_bytes + length m);
      in_events = u64 (w.report.in_events + 1);
    } in
    let bytes = if w.storing then u64 (w.report.out_bytes + length m) else last_out_bytes in
    let events = if w.storing then u64 (w.report.out_events + 1) else last_out_events in
    let t = record w { report = r } in
    let s = if w.storing then store_message now m t else t in
    (
      record s {
        report = record s.report { out_bytes = bytes; out_events = events };
        spied = s.spied ++ m ∷ [];
      },
      bytes,
      events,
    )

abbrev pub halted : RcState → Bool
halted ready = true
halted paused = true
halted _ = false

abbrev pub is_running : RcState → Bool
is_running running = true
is_running _ = false

unfoldable pub set_rcstate : ℕ → RcState → Writer → Writer
unfolding new_run
set_rcstate now s w =
    let t = if not w.start_newdir && w.storing then new_run now w else w in
    record (if halted w.rcstate && is_running s then record t { start_newdir = false } else w) {
      rcstate = s;
    }

unfoldable pub set_store : Bool → Writer → Writer
set_store value w = record w { storing = value }

unfoldable pub set_eventfilesize : ℕ → Writer → Writer
set_eventfilesize size w = record w { event_file_size = size }

unfoldable pub set_eventdirsize : ℕ → Writer → Writer
set_eventdirsize size w = record w { event_dir_size = size }

-- The constructor, over the directories that are there. It does not set the sizes, the limits and
-- the number of the file, which are those of `unset`, and so is what becomes of the runtag given.
unfoldable pub new_writer : ℕ → ℕ → List String → Writer → Writer
unfolding setup_newdir setup_newfile
new_writer now id there unset =
    setup_newfile now
      (setup_newdir (record unset {
        dirid = u32 id;
        firstrun = true;
        start_newdir = true;
        storing = true;
        rcstate = idle;
        report = record { in_bytes = 0; out_bytes = 0; in_events = 0; out_events = 0 };
        dirs = there;
        files = [];
        spied = [];
      })).0

-- A round of `process`, with the message that `recv` gets in time, if any.
unfoldable pub writer_round : ℕ → Option (List ℕ) → Writer × ℕ × ℕ → Writer × ℕ × ℕ
unfolding take_message
writer_round now none t = t
writer_round now (some m) (w, last_out_bytes, last_out_events) =
    if is_running w.rcstate
    then take_message now m (w, last_out_bytes, last_out_events)
    else (w, last_out_bytes, last_out_events)
