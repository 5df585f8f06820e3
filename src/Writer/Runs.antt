-- ===== src/Writer/Runs.antt =====
-- Run directories: `setup_newdir` and `get_max_runid` of src/writer/FzWriter.cpp.
use fz_daq.Prelude.{ℕ, ◌+◌, ◌<◌, ◌≡◌, List, [], ◌∷◌, if◌then◌else◌, String, Option, none, some}
use fz_daq.Writer.{RunTag, Writer, get_max_runid}

-- The number that is read of a run's name is the run's: so it is for a tag that is not empty and has
-- no digit.
abbrev pub IsPlain : RunTag → Type 0
IsPlain tag = (n : ℕ) → n < 2147483648 → tag.number_in (tag.run_name n) ≡ some n

-- The number that is read, if there is one, is below `n`.
abbrev Lower : ℕ → Option ℕ → Type 0
Lower n none = Unit {0}
Lower n (some k) = k < n

-- Every number that is read of the names is below `n`.
abbrev pub Below : RunTag → ℕ → List String → Type 0
Below tag n [] = Unit {0}
Below tag n (d ∷ ds) = Lower n (tag.number_in d) × Below tag n ds

-- The next run number is above those of all directories: for the first run of the program by the
-- scan of the disk.
abbrev pub next_id : Writer → ℕ
next_id w = if w.firstrun then get_max_runid w + 1 else w.dirid
