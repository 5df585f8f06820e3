-- ===== src/Daq/Session.antt =====
-- A whole session of the program, from its start on: src/main/FzDAQ-mt.cpp over the node manager.
use fz_daq.Prelude.{
  ℕ, ◌*◌, ◌<◌, ◌≤◌, ◌≡◌, refl, sym, ap, ◌∙◌, zero, suc, Bool-cases, inl, inr, List, [], ◌∷◌, Bool,
  true, ◌||◌, Option, none, some, String, same, ltb, Result, ok, err, length, arith, if_both,
  Returns,
}
use fz_daq.Fsm.State.{FsmReport}
use fz_daq.Rc.{RcState, idle}
use fz_daq.Rcs.{Request}
use fz_daq.Writer.{Writer, take_message, set_eventfilesize, set_eventdirsize}
use fz_daq.Node.{NodeManager, new_node, handle_request, perfdata_round, computes, stores}
use fz_daq.Node.Report.{NodeReport, Reading, ParserReport, parsers_traffic, fsms_traffic}
use fz_daq.Node.Reach.{request, sampled, stored, step-InStep, new_node-InStep}
use fz_daq.Daq.{Console, Turn, Command, run_line}
use fz_daq.Daq.Commands.{Fits, After, Fits-keep}
use fz_daq.Daq.Kept.{kept, handle_request-Kept}
use fz_daq.Daq.Lines.{run_line-After, asked}
use fz_daq.Daq.Setup.{
  System, Options, plan_of, StoragePlan, Plan, Start, go, stop_with, set_sizes, sized, threads,
  begin,
}
use fz_daq.Daq.Setup.Plans.{Goes, Goes-then, Fitting, Planned, plan_of-Planned}

set_sizes-idle :
    (p : StoragePlan) (w : Writer) → w.rcstate ≡ idle → Goes (λ v. v.rcstate ≡ idle) (set_sizes p w)
unfolding set_sizes set_eventfilesize set_eventdirsize
set_sizes-idle p w h =
    if_both (Goes (λ (v : Writer). v.rcstate ≡ idle)) (ltb p.esize p.dsize) _ _ (λ _. h) λ _. tt

sized-idle :
    (p : Option StoragePlan) (w : Writer)
    → w.rcstate ≡ idle
    → Goes (λ v. v.rcstate ≡ idle) (sized p w)
unfolding sized
sized-idle none w h = h
sized-idle (some p) w h = set_sizes-idle p w h

-- The program that starts fits its node.
begin-Fits :
    (mode : Option String) (host : String) (r : NodeReport) (n : ℕ) (unset : RcState)
    (recording : Bool) (wr : Writer) (p : Plan)
    → Fitting p.role
    → wr.rcstate ≡ idle
    → Goes Fits (begin mode host r n unset recording wr p)
unfolding begin new_node
begin-Fits mode host r n unset recording wr p f h =
    Goes-then (λ w. w.rcstate ≡ idle) Fits (sized p.storage wr) _ (sized-idle p.storage wr h)
      λ w e. record {
        step = new_node-InStep mode host p.role.profile r (threads 0 p.compute) unset recording w e;
        profile = refl;
        compute = f.0;
        storage = f.1;
        parsers = λ i. cc;
        fsms = λ i. cc;
      }

length-parsers_traffic :
    (n : ℕ) (t1 t0 : List (ParserReport × FsmReport))
    → n ≤ length t1
    → n ≤ length t0
    → (n ≤ length (parsers_traffic t1 t0)) × (n ≤ length (fsms_traffic t1 t0))
unfolding parsers_traffic fsms_traffic
length-parsers_traffic zero t1 t0 h k = (omega arith, omega arith)
length-parsers_traffic (suc n) [] t0 h k = absurd (omega arith)
length-parsers_traffic (suc n) (x ∷ t1) [] h k = absurd (omega arith)
length-parsers_traffic (suc n) ((p1, f1) ∷ t1) ((p0, f0) ∷ t0) h k =
    let i = length-parsers_traffic n t1 t0 (omega (arith, h)) (omega (arith, k)) in
    (omega (arith, i.0), omega (arith, i.1))

-- What happens in a session: a line is typed, a message arrives, a second of the report passes, with
-- a reading of each of the threads of a program that computes, or the writer gets a message.
pub data Session (c : Console) : Console → Type 0 where
  begun : Session c c
  typed :
      {d : Console} (now : ℕ) (line : String) (t : Turn)
      → Session c d
      → run_line now line d ≡ ok t
      → Session c t.console
  asked_by :
      {d : Console} (now : ℕ) (q : Option Request)
      → Session c d
      → Session c (record d { nm = (handle_request now q d.nm).0 })
  measured :
      {d : Console} (t0 t1 : Reading)
      → Session c d
      → (d.iscompute ≡ true → d.nthreads ≤ length t0.parsers)
      → (d.iscompute ≡ true → d.nthreads ≤ length t1.parsers)
      → Session c (record d { nm = perfdata_round t0 t1 d.nm })
  received :
      {d : Console} (now : ℕ) (x : List ℕ) (bytes events : ℕ)
      → Session c d
      → Session c (record d {
        nm = record d.nm { writer = (take_message now x (d.nm.writer, bytes, events)).0 };
      })

perfdata_round-Kept :
    (t0 t1 : Reading) (m : NodeManager)
    → ((perfdata_round t0 t1 m).profile ≡ m.profile)
      × (computes m ≡ true
          → ((perfdata_round t0 t1 m).nodereport.parsers ≡ parsers_traffic t1.parsers t0.parsers)
            × ((perfdata_round t0 t1 m).nodereport.fsms ≡ fsms_traffic t1.parsers t0.parsers))
unfolding perfdata_round
perfdata_round-Kept t0 t1 m = (
  refl,
  λ c.
      rw c (elim (Bool-cases (stores m)) [ inl s ↦ rw s (refl, refl) | inr s ↦ rw s (refl, refl) ]),
)

measured-Fits :
    (t0 t1 : Reading) (c : Console)
    → Fits c
    → (c.iscompute ≡ true → c.nthreads ≤ length t0.parsers)
    → (c.iscompute ≡ true → c.nthreads ≤ length t1.parsers)
    → Fits (record c { nm = perfdata_round t0 t1 c.nm })
measured-Fits t0 t1 c f h k =
    let m = perfdata_round t0 t1 c.nm in
    let (p, r) = perfdata_round-Kept t0 t1 c.nm in
    record {
      step = step-InStep f.step (sampled t0 t1);
      profile = f.profile ∙ sym p;
      compute = f.compute ∙ ap (λ q. same q "compute" || same q "all") (sym p);
      storage = f.storage ∙ ap (λ q. same q "storage" || same q "all") (sym p);
      parsers = λ i e.
          rw (r (sym f.compute ∙ e)).0
            (length-parsers_traffic c.nthreads t1.parsers t0.parsers (k e) (h e)).0;
      fsms = λ i e.
          rw (r (sym f.compute ∙ e)).1
            (length-parsers_traffic c.nthreads t1.parsers t0.parsers (k e) (h e)).1;
    }

After-Fits :
    (x : Command) (c : Console) (t : Turn) (r : Result Turn)
    → r ≡ ok t
    → After x c r
    → Fits t.console
After-Fits x c t (ok u) e a = let b : t ≡ u = cc in rw b a.0
After-Fits x c t (err f) e a = cc

-- From a program that fits its node on, whatever lines, messages, readings and events come in
-- whatever order, as long as each reading is of all the threads of a program that computes: it fits
-- its node.
pub session-Fits : {c d : Console} → Fits c → Session c d → Fits d
session-Fits f begun = f
session-Fits f (typed {d} now line t s e) =
    After-Fits (asked line d) d t (run_line now line d) e
      (run_line-After now line d (session-Fits f s))
session-Fits f (asked_by {d} now q s) =
    let g = session-Fits f s in
    Fits-keep d (handle_request now q d.nm).0 g (handle_request-Kept now q d.nm)
      (step-InStep g.step (request now q))
session-Fits f (measured {d} t0 t1 s h k) = measured-Fits t0 t1 d (session-Fits f s) h k
session-Fits f (received {d} now x bytes events s) =
    let g = session-Fits f s in
    Fits-keep d _ g (kept _ _ refl refl refl refl) (step-InStep g.step (stored now x bytes events))

Returns-at : {A : Type 0} (P : A → Type 0) (m : Result A) (a : A) → m ≡ ok a → Returns P m → P a
Returns-at P (ok b) a e h = let f : a ≡ b = cc in rw f h
Returns-at P (err x) a e h = cc

Goes-at : {A : Type 0} (P : A → Type 0) (m : Start A) (a : A) → m ≡ go a → Goes P m → P a
Goes-at P (go b) a e h = let f : a ≡ b = cc in rw f h
Goes-at P (stop_with x) a e h = cc

-- A program that has a plan and starts by it, with a writer that is idle; whatever lines, messages,
-- readings and events then come in whatever order, as long as each reading, if the program computes,
-- is of all its parsers: its flags are those of the node's profile, every thread that the profile runs
-- is in the state that the node reports, and a report that is there has the traffic of all parsers.
pub program-Fits :
    (s : System) (o : Options) (p : Plan) (mode : Option String) (host : String) (r : NodeReport)
    (n : ℕ) (unset : RcState) (recording : Bool) (wr : Writer) (c d : Console)
    → plan_of s o ≡ ok (go p)
    → wr.rcstate ≡ idle
    → begin mode host r n unset recording wr p ≡ go c
    → Session c d
    → Fits d
program-Fits s o p mode host r n unset recording wr c d e h b t =
    let planned =
      Goes-at (Planned o) (go p) p refl
        (Returns-at (Goes (Planned o)) (plan_of s o) (go p) e (plan_of-Planned s o)) in
    session-Fits
      (Goes-at Fits (begin mode host r n unset recording wr p) c b
        (begin-Fits mode host r n unset recording wr p planned.0 h))
      t

-- A program that stores starts with the sizes of the configuration in bytes, a directory's larger
-- than a file's, if they are below 4295 million bytes.
pub begin_sizes :
    (mode : Option String) (host : String) (r : NodeReport) (n : ℕ) (unset : RcState)
    (recording : Bool) (wr : Writer) (p : Plan) (q : StoragePlan)
    → p.storage ≡ some q
    → q.dsize < 4295
    → Goes
        (λ c.
          (c.nm.writer.event_file_size ≡ q.esize * 1000000)
          × (c.nm.writer.event_dir_size ≡ q.dsize * 1000000)
          × (c.nm.writer.event_file_size < c.nm.writer.event_dir_size))
        (begin mode host r n unset recording wr p)
unfolding begin sized set_sizes set_eventfilesize set_eventdirsize new_node
begin_sizes mode host r n unset recording wr p q e h =
    rw e (elim (Bool-cases (ltb q.esize q.dsize)) [
      | inl f ↦ rw f (
          let lt : q.esize < q.dsize = ground (arith, f) in
          (omega (arith, h, lt), omega (arith, h), omega (arith, h, lt)))
      | inr f ↦ rw f tt
    ])
