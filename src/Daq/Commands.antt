-- ===== src/Daq/Commands.antt =====
-- What the console's lines do to a node: the loop of src/main/FzDAQ-mt.cpp over the node manager.
use fz_daq.Prelude.{
  ℕ, zero, suc, ◌≡◌, ◌≤◌, refl, sym, ap, ◌∙◌, List, [], ◌∷◌, Bool, true, false, ◌||◌, String, same,
  Result, ok, err, ◌>>=◌, dangling, Gives, Gives-bind, length, arith, if_both,
}
use fz_daq.Rc.{RcCommand, configure, start, stop, reset}
use fz_daq.Writer.{set_store}
use fz_daq.Node.{NodeManager, computes, stores, rc_state, rc_process}
use fz_daq.Node.InStep.{InStep, InStep-keep, rc_process-InStep}
use fz_daq.Node.Report.{Traffic, FsmTraffic}
use fz_daq.Daq.Kept.{Kept, kept, rc_process-Kept}
use fz_daq.Daq.{
  Command, help, status, store, nostore, stats, rec, quit, unknown, control, Console, Turn, Shown,
  has_writer, parser_rows, show_compute, show_stats, stays, record_by, store_by, control_by,
  do_command,
}

-- The program's flags are those of the node's profile, the node's threads are in the state that it
-- reports, and the report has the threads that the program has, if there is a report.
pub record Fits (c : Console) : Type 0 where
  pub step : InStep c.nm
  pub profile : c.profile ≡ c.nm.profile
  pub compute : c.iscompute ≡ computes c.nm
  pub storage : c.isstorage ≡ stores c.nm
  pub parsers :
      c.nm.report_init ≡ true → c.iscompute ≡ true → c.nthreads ≤ length c.nm.nodereport.parsers
  pub fsms : c.nm.report_init ≡ true → c.iscompute ≡ true → c.nthreads ≤ length c.nm.nodereport.fsms

parser_rows-Gives :
    (n : ℕ) (ps : List Traffic) (fs : List FsmTraffic)
    → n ≤ length ps
    → n ≤ length fs
    → Gives (λ rows. length rows ≡ n) (parser_rows n ps fs)
unfolding parser_rows
parser_rows-Gives zero ps fs h k = refl
parser_rows-Gives (suc n) [] fs h k = absurd (omega arith)
parser_rows-Gives (suc n) (p ∷ ps) [] h k = absurd (omega arith)
parser_rows-Gives (suc n) (p ∷ ps) (f ∷ fs) h k =
    Gives-bind (λ rows. length rows ≡ n) (λ rows. length rows ≡ suc n) (parser_rows n ps fs) _
      (parser_rows-Gives n ps fs (omega arith) (omega arith)) λ rows e. ap suc e

abbrev Any : List Shown → Type 0
Any _ = Unit {0}

show_compute-Gives :
    (c : Console) → Fits c → c.nm.report_init ≡ true → Gives Any (show_compute c c.nm.nodereport)
unfolding show_compute
show_compute-Gives c f r =
    if_both (Gives Any) c.iscompute _ _
      (λ e.
        Gives-bind (λ rows. length rows ≡ c.nthreads) Any
          (parser_rows c.nthreads c.nm.nodereport.parsers c.nm.nodereport.fsms) _
          (parser_rows-Gives c.nthreads c.nm.nodereport.parsers c.nm.nodereport.fsms (f.parsers r e)
            (f.fsms r e))
          λ rows _. tt)
      λ _. tt

show_stats-Gives : (c : Console) → Fits c → Gives Any (show_stats c)
unfolding show_stats
show_stats-Gives c f =
    if_both (Gives Any) c.nm.report_init _ _
      (λ r.
        Gives-bind Any Any (show_compute c c.nm.nodereport) _ (show_compute-Gives c f r) λ _ _. tt)
      λ _. tt

-- Nothing but these members matters.
pub Fits-keep :
    (c : Console) (t : NodeManager) → Fits c → Kept c.nm t → InStep t → Fits (record c { nm = t })
Fits-keep c t f k i = record {
  step = i;
  profile = f.profile ∙ sym k.profile;
  compute = f.compute ∙ ap (λ p. same p "compute" || same p "all") (sym k.profile);
  storage = f.storage ∙ ap (λ p. same p "storage" || same p "all") (sym k.profile);
  parsers = λ r e. rw k.report (f.parsers (sym k.init ∙ r) e);
  fsms = λ r e. rw k.report (f.fsms (sym k.init ∙ r) e);
}

pub Fits-line : (c : Console) (line : String) → Fits c → Fits (record c { lastcmd = line })
Fits-line c line f = record {
  step = f.step;
  profile = f.profile;
  compute = f.compute;
  storage = f.storage;
  parsers = f.parsers;
  fsms = f.fsms;
}

pub process-Fits :
    (now : ℕ) (x : RcCommand) (c : Console)
    → Fits c
    → Fits (record c { nm = (rc_process now x c.nm).0 })
process-Fits now x c f =
    Fits-keep c (rc_process now x c.nm).0 f (rc_process-Kept now x c.nm).0
      (rc_process-InStep now x c.nm f.step)

control_by-Fits : (now : ℕ) (x : RcCommand) (c : Console) → Fits c → Fits (control_by now x c).0
unfolding control_by
control_by-Fits now start c f =
    process-Fits now start (record c { nm = (rc_process now configure c.nm).0 })
      (process-Fits now configure c f)
control_by-Fits now reset c f = process-Fits now reset c f
control_by-Fits now configure c f = process-Fits now configure c f
control_by-Fits now stop c f = process-Fits now stop c f

or_comm : (a b : Bool) → (a || b) ≡ (b || a)
or_comm a b = ground arith

-- A `rec` is of a program with a reader.
abbrev pub Able : Command → Console → Type 0
Able rec c = c.iscompute ≡ true
Able _ c = Unit {0}

-- What a command comes to: the program as it should be, where `rec` has a reader, or the fault of a
-- `rec` without one.
abbrev pub After : Command → Console → Result Turn → Type 0
After x c (ok t) = Fits t.console × Able x c
After x c (err e) = (x ≡ rec) × (c.iscompute ≡ false) × (e ≡ dangling)

store_by-After :
    (val : Bool) (x : Command) (c : Console) (shown : List Shown)
    → Able x c
    → has_writer c ≡ true
    → Fits c
    → After x c (store_by val c >>= λ d. stays d shown)
unfolding store_by set_store rc_state
store_by-After val x c shown q h f =
    let s : c.isstorage ≡ true =
      f.storage
      ∙ ap (λ p. same p "storage" || same p "all") (sym f.profile)
      ∙ or_comm (same c.profile "storage") (same c.profile "all")
      ∙ h in
    let t = record c.nm { writer = set_store val c.nm.writer } in
    if_both (λ (r : Result Console). After x c (r >>= λ d. stays d shown)) c.isstorage
      (ok (record c { nm = t })) (err dangling)
      (λ _. (
        Fits-keep c t f (kept c.nm t refl refl refl refl)
            (InStep-keep c.nm t f.step refl refl refl refl refl refl),
        q,
      ))
      λ e. cc

-- The program's own flag does not matter.
record_flag-Fits : (c : Console) (val : Bool) → Fits c → Fits (record c { rec = val })
record_flag-Fits c val f = record {
  step = f.step;
  profile = f.profile;
  compute = f.compute;
  storage = f.storage;
  parsers = f.parsers;
  fsms = f.fsms;
}

record_by-After :
    (val : Bool) (c : Console) (shown : List Shown)
    → Fits c
    → After rec c (record_by val c >>= λ d. stays (record d { rec = val }) shown)
unfolding record_by rc_state
record_by-After val c shown f =
    let t = record c.nm { recording = val } in
    let g =
      Fits-keep c t f (kept c.nm t refl refl refl refl)
        (InStep-keep c.nm t f.step refl refl refl refl refl refl) in
    if_both (λ (r : Result Console). After rec c (r >>= λ d. stays (record d { rec = val }) shown))
      c.iscompute (ok (record c { nm = t })) (err dangling)
      (λ e. (record_flag-Fits (record c { nm = t }) val g, e)) λ e. (refl, e, refl)

shown-After :
    (c : Console) (r : Result (List Shown))
    → Fits c
    → Gives Any r
    → After stats c (r >>= λ shown. stays c shown)
shown-After c (ok shown) f h = (f, tt)
shown-After c (err e) f h = elim h [ ]

stats-After : (c : Console) → Fits c → After stats c (show_stats c >>= λ shown. stays c shown)
stats-After c f = shown-After c (show_stats c) f (show_stats-Gives c f)

-- A command that writes to disk is one of a program with a writer.
abbrev pub Grounded : Command → Console → Type 0
Grounded store c = has_writer c ≡ true
Grounded nostore c = has_writer c ≡ true
Grounded _ c = Unit {0}

pub do_command-After :
    (now : ℕ) (x : Command) (c : Console) → Grounded x c → Fits c → After x c (do_command now x c)
unfolding do_command
do_command-After now help c g f = (f, tt)
do_command-After now status c g f = (f, tt)
do_command-After now (control x) c g f = (control_by-Fits now x c f, tt)
do_command-After now store c g f = store_by-After true store c _ tt g f
do_command-After now nostore c g f = store_by-After false nostore c _ tt g f
do_command-After now stats c g f = stats-After c f
do_command-After now rec c g f =
    if_both (After rec c) c.rec _ _ (λ _. record_by-After false c _ f)
      λ _. record_by-After true c _ f
do_command-After now quit c g f = (f, tt)
do_command-After now unknown c g f = (f, tt)
