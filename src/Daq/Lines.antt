-- ===== src/Daq/Lines.antt =====
-- The console's lines, one after another: the loop of src/main/FzDAQ-mt.cpp.
use fz_daq.Prelude.{
  ℕ, ◌≡◌, inl, inr, Bool, true, false, ◌&&◌, ◌||◌, String, same, if◌then◌else◌, Result, ok, err,
  ◌>>=◌, arith, if_both, Bool-cases,
}
use fz_daq.Rc.{RcCommand, configure, start, stop, reset}
use fz_daq.Node.{is_local}
use fz_daq.Daq.{
  Command, help, status, store, nostore, stats, rec, quit, unknown, control, Console, Turn,
  has_writer, command_of, do_command, keep_line, is_unknown_command, run_command, run_line,
}
use fz_daq.Daq.Commands.{Fits, Fits-line, Able, After, Grounded, do_command-After}

both : (a b : Bool) → (a && b) ≡ true → (a ≡ true) × (b ≡ true)
both a b e = (ground arith, ground arith)

first : (a b d : Bool) → (a && b && d) ≡ true → a ≡ true
first a b d e = ground arith

last : (a b d : Bool) → (a && b && d) ≡ true → d ≡ true
last a b d e = ground arith

-- A property of every command that a line may stand for.
pub command_of-all :
    (P : Command → Type 0) (line : String) (c : Console)
    → P help
    → P status
    → ((x : RcCommand) → is_local c.nm ≡ true → P (control x))
    → (is_local c.nm ≡ true → has_writer c ≡ true → P store)
    → (is_local c.nm ≡ true → has_writer c ≡ true → P nostore)
    → P stats
    → P rec
    → P quit
    → P unknown
    → P (command_of line c)
unfolding command_of
command_of-all P line c h s k w n st r q u =
    if_both P (same line "help") _ _ (λ _. h)
      λ _.
        if_both P (same line "status") _ _ (λ _. s)
          λ _.
            if_both P (is_local c.nm && same line "configure") _ _
              (λ e. k configure (both (is_local c.nm) (same line "configure") e).0)
              λ _.
                if_both P (is_local c.nm && same line "start") _ _
                  (λ e. k start (both (is_local c.nm) (same line "start") e).0)
                  λ _.
                    if_both P (is_local c.nm && same line "stop") _ _
                      (λ e. k stop (both (is_local c.nm) (same line "stop") e).0)
                      λ _.
                        if_both P (is_local c.nm && same line "reset") _ _
                          (λ e. k reset (both (is_local c.nm) (same line "reset") e).0)
                          λ _.
                            if_both P (is_local c.nm && same line "store" && has_writer c) _ _
                              (λ e.
                                w (first (is_local c.nm) (same line "store") (has_writer c) e)
                                  (last (is_local c.nm) (same line "store") (has_writer c) e))
                              λ _.
                                if_both P (is_local c.nm && same line "nostore" && has_writer c) _ _
                                  (λ e.
                                    n (first (is_local c.nm) (same line "nostore") (has_writer c) e)
                                      (last (is_local c.nm) (same line "nostore") (has_writer c) e))
                                  λ _.
                                    if_both P (same line "stats") _ _ (λ _. st)
                                      λ _.
                                        if_both P (same line "rec") _ _ (λ _. r)
                                          λ _.
                                            if_both P (same line "quit") quit unknown (λ _. q)
                                              λ _. u

command_of-Grounded : (line : String) (c : Console) → Grounded (command_of line c) c
command_of-Grounded line c =
    command_of-all (λ x. Grounded x c) line c tt tt (λ x _. tt) (λ _ h. h) (λ _ h. h) tt tt tt tt

kept_line-After :
    (line : String) (x : Command) (c : Console) (r : Result Turn)
    → After x c r
    → After x c (r >>= λ t. ok (keep_line line (is_unknown_command x) t))
unfolding keep_line
kept_line-After line x c (ok t) f = (
  if_both (λ (u : Turn). Fits u.console) (t.left || is_unknown_command x) t
      (record t { console = record t.console { lastcmd = line } }) (λ _. f.0)
      (λ _. Fits-line t.console line f.0),
  f.1,
)
kept_line-After line x c (err e) f = f

unknown-Able :
    (again : Bool) (x : Command) (c : Console) → (again && is_unknown_command x) ≡ true → Able x c
unknown-Able again rec c e = ground arith
unknown-Able again help c e = tt
unknown-Able again status c e = tt
unknown-Able again (control x) c e = tt
unknown-Able again store c e = tt
unknown-Able again nostore c e = tt
unknown-Able again stats c e = tt
unknown-Able again quit c e = tt
unknown-Able again unknown c e = tt

run_command-After :
    (now : ℕ) (again : Bool) (line : String) (x : Command) (c : Console)
    → Grounded x c
    → Fits c
    → After x c (run_command now again line x c)
unfolding run_command
run_command-After now again line x c g f =
    if_both (After x c) (again && is_unknown_command x) _ _ (λ e. (f, unknown-Able again x c e))
      λ _. kept_line-After line x c (do_command now x c) (do_command-After now x c g f)

-- The command that a line stands for; the empty line stands for none.
abbrev pub asked : String → Console → Command
asked line c =
    if same line "" then unknown else command_of (if same line "r" then c.lastcmd else line) c

-- Whatever line is typed, when the node's threads are in the state that it reports and the program's
-- flags are those of its profile: the line does what it does without a fault and leaves it so,
-- except that `rec`, typed or repeated, uses a pointer to no reader exactly when the profile has
-- none.
pub run_line-After :
    (now : ℕ) (line : String) (c : Console) → Fits c → After (asked line c) c (run_line now line c)
unfolding run_line
run_line-After now line c f = elim (Bool-cases (same line "")) [
  | inl e ↦ rw e (f, tt)
  | inr e ↦ rw e (elim (Bool-cases (same line "r")) [
    | inl d ↦ rw d (
        run_command-After now true c.lastcmd (command_of c.lastcmd c) c
          (command_of-Grounded c.lastcmd c) f)
    | inr d ↦
        rw d (run_command-After now false line (command_of line c) c (command_of-Grounded line c) f)
  ])
]
