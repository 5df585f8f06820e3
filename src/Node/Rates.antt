-- ===== src/Node/Rates.antt =====
-- The rates that a node reports: `process_perfdata` of src/nodemanager/FzNodeManager.cpp.
use fz_daq.Prelude.{
  ℕ, suc, ◌+◌, ◌%◌, ◌<◌, ◌≡◌, ◌∙◌, refl, ap, List, [], ◌∷◌, ◌++◌, true, length, if◌then◌else◌,
  arith, if_both,
}
use fz_daq.Fsm.State.{FsmReport}
use fz_daq.Node.{
  NodeManager, computes, stores, rc_state, label, perfdata_round, compute_report, storage_report,
  begin_report,
}
use fz_daq.Node.Report.{NodeReport, ParserReport, Reading, bandwidth, parsers_traffic, fsms_traffic}

-- The rate is by how much a counter of 64 bits grew, also when it wrapped in between; what does not
-- fit in 32 bits is cut off.
pub bandwidth_exact :
    (t0 grown : ℕ)
    → t0 < 18446744073709551616
    → grown < 18446744073709551616
    → bandwidth ((t0 + grown) % 18446744073709551616) t0 ≡ grown % 4294967296
unfolding bandwidth
bandwidth_exact t0 grown h k = omega arith

-- The two lists of the report, against the number of parsers.
parsers_traffic-length :
    (t1 t0 : List (ParserReport × FsmReport))
    → length t1 ≡ length t0
    → (length (parsers_traffic t1 t0) ≡ length t0) × (length (fsms_traffic t1 t0) ≡ length t0)
unfolding parsers_traffic fsms_traffic
parsers_traffic-length [] [] h = (refl, refl)
parsers_traffic-length [] (p ∷ t0) h = absurd (omega arith)
parsers_traffic-length (p ∷ t1) [] h = absurd (omega arith)
parsers_traffic-length (p ∷ t1) (q ∷ t0) h =
    let ih = parsers_traffic-length t1 t0 (omega arith) in (ap suc ih.0, ap suc ih.1)

abbrev Told : NodeManager → NodeReport → Type 0
Told m r =
    (r.status ≡ label (rc_state m))
    × (length r.parsers ≡ length m.parsers)
    × (length r.fsms ≡ length m.parsers)

-- A round of a node that computes, from two readings of all its parsers, sends a report behind the
-- earlier ones that names the node's state and has an entry for each parser and for each machine.
pub perfdata_round-length :
    (t0 t1 : Reading) (m : NodeManager)
    → computes m ≡ true
    → length t0.parsers ≡ length m.parsers
    → length t1.parsers ≡ length m.parsers
    → let r = (perfdata_round t0 t1 m).nodereport in
      ((perfdata_round t0 t1 m).pushed ≡ m.pushed ++ r ∷ [])
      × (r.status ≡ label (rc_state m))
      × (length r.parsers ≡ length m.parsers)
      × (length r.fsms ≡ length m.parsers)
unfolding perfdata_round compute_report storage_report
perfdata_round-length t0 t1 m c h k =
    let l = parsers_traffic-length t1.parsers t0.parsers (omega arith) in
    let r1 = if computes m then compute_report t0 t1 (begin_report m) else begin_report m in
    let q =
      if_both (Told m) (computes m) (compute_report t0 t1 (begin_report m)) (begin_report m)
        (λ _. (refl, l.0 ∙ h, l.1 ∙ h)) (λ e. absurd (cc)) in
    let told =
      if_both (Told m) (stores m) (storage_report m.writer.storing t0 t1 r1) r1 (λ _. q) (λ _. q) in
    (refl, told.0, told.1, told.2)
