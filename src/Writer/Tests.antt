-- ===== src/Writer/Tests.antt =====
-- Messages and starts at concrete limits, and the writer's theorems at them.
use Prim.Native.String.{◌++◌, len}
use fz_daq.Prelude.{
  ℕ, zero, suc, String, ◌≡◌, ◌≢◌, refl, List, none, some, [], ◌∷◌, true, false, arith, inr,
}
use fz_daq.Rc.{ready, paused, running}
use fz_daq.Writer.{
  RunTag, Writer, EventFile, mem, setup_newdir, setup_newfile, new_run, add_message, store_message,
  set_rcstate, new_writer,
}
use fz_daq.Writer.Life.{Op, round, state, storing, perform_all, perform_all-promised}
use fz_daq.Writer.Store.{stored}
use fz_daq.Writer.Sizes.{Sized, store_message-Sized}

-- A run's name is as many letters as its number says, and the number that is read is their count.
abbrev tally : ℕ → String
tally zero = ""
tally (suc n) = "i" ++ tally n

abbrev tallied : RunTag
tallied = record { run_name = tally; number_in = λ name. some (len name) }

abbrev first_file : EventFile
first_file = record { dir = "iii"; time = 100; file_id = 0; messages = (7 ∷ 8 ∷ []) ∷ [] }

-- Files of two bytes at most, runs of three; one message is stored.
abbrev writing : Writer
writing = record {
  runtag = tallied;
  event_file_size = 2;
  event_dir_size = 3;
  esize = 2;
  dsize = 2;
  fileid = 1;
  dirid = 4;
  dirstr = "iii";
  firstrun = false;
  start_newdir = false;
  storing = true;
  rcstate = paused;
  report = record { in_bytes = 2; out_bytes = 2; in_events = 1; out_events = 1 };
  dirs = "iii" ∷ "i" ∷ [];
  files = first_file ∷ [];
  spied = [];
}

-- The second message goes to the first file, and then a new file is opened in the same run.
next_file :
    (store_message 101 (9 ∷ []) writing).files
    ≡ record { dir = "iii"; time = 101; file_id = 1; messages = [] }
      ∷ record first_file { messages = (7 ∷ 8 ∷ []) ∷ (9 ∷ []) ∷ [] }
      ∷ []
unfolding store_message add_message setup_newfile
next_file = refl

next_run : (set_rcstate 102 running writing).dirs ≡ "iiii" ∷ "iii" ∷ "i" ∷ []
unfolding set_rcstate new_run setup_newdir setup_newfile mem
next_run = refl

writing-Sized : Sized writing
writing-Sized = record {
  has_file = λ e. cc;
  known = refl;
  small = omega arith;
  small_run = omega arith;
  all_fit = (inr ([], 7 ∷ 8 ∷ [], refl, omega arith, omega arith), tt);
}

store_message-Sized_example : Sized (store_message 101 (9 ∷ []) writing)
store_message-Sized_example =
    store_message-Sized 101 (9 ∷ []) writing (omega arith) (omega arith) writing-Sized

-- A message before the start, one while running, one while not storing, and one after a new start.
abbrev some_ops : List Op
some_ops =
    round 1 (some (1 ∷ []))
    ∷ state 2 ready
    ∷ state 3 running
    ∷ round 4 (some (2 ∷ []))
    ∷ round 5 none
    ∷ storing false
    ∷ round 6 (some (3 ∷ []))
    ∷ storing true
    ∷ state 7 paused
    ∷ state 8 running
    ∷ round 9 (some (4 ∷ []))
    ∷ []

perform_all-promised_example :
    let w = (perform_all some_ops (new_writer 0 0 ("iii" ∷ "i" ∷ []) writing, 0, 0)).0 in
    (stored w.files ≡ (2 ∷ []) ∷ (4 ∷ []) ∷ []) × (w.files ≢ [])
perform_all-promised_example = perform_all-promised some_ops 0 0 ("iii" ∷ "i" ∷ []) writing
