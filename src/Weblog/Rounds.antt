-- ===== src/Weblog/Rounds.antt =====
-- What a round of `process_weblog` of src/controller/weblog.cpp posts.
use fz_daq.Prelude.{
  ℕ, zero, suc, ◌+◌, ◌≤◌, ◌<◌, ◌≡◌, refl, sym, ap, ◌∙◌, List, [], ◌∷◌, ◌++◌, Bool, true, false,
  Option, none, some, String, length, ok, ◌>>=◌, Gives, arith, ◌%◌,
}
use fz_daq.Node.Report.{NodeReport, FsmTraffic, Traffic}
use mathlib.Core.List.{append-nil}
use fz_daq.Weblog.{
  Post, Totals, no_totals, add_totals, reader_fields, writer_fields, post_row, opened, closed,
  post_reader, post_readers, post_writer, post_writers, weblog_round,
}
use fz_daq.Weblog.Lines.{Row}
use fz_daq.Weblog.Runs.{Wide, post_rows, Posted, post_rows-Posted}

-- The totals of the first `n` machines.
abbrev pub totals_of : ℕ → List FsmTraffic → Totals → Totals
totals_of zero fs t = t
totals_of (suc n) [] t = t
totals_of (suc n) (f ∷ fs) t = totals_of n fs (record {
  state_invalid = (t.state_invalid + f.state_invalid) % 4294967296;
  events_empty = (t.events_empty + f.events_empty) % 4294967296;
  events_good = (t.events_good + f.events_good) % 4294967296;
  events_bad = (t.events_bad + f.events_bad) % 4294967296;
})

add_totals-ok :
    (n : ℕ) (fs : List FsmTraffic) (t : Totals)
    → n ≤ length fs
    → add_totals n fs t ≡ ok (totals_of n fs t)
unfolding add_totals
add_totals-ok zero fs t h = refl
add_totals-ok (suc n) [] t h = absurd (omega arith)
add_totals-ok (suc n) (f ∷ fs) t h = add_totals-ok n fs _ (omega arith)

abbrev with_reader : NodeReport → Option Traffic → List Row
with_reader rep none = []
with_reader rep (some r) =
    reader_fields rep.hostname r (totals_of rep.parser_num rep.fsms no_totals) ∷ []

-- A row for each node that has a reader.
abbrev pub reader_rows : List NodeReport → List Row
reader_rows [] = []
reader_rows (rep ∷ nodes) = with_reader rep rep.reader ++ reader_rows nodes

abbrev with_writer : NodeReport → Option Traffic → List Row
with_writer rep none = []
with_writer rep (some w) = writer_fields rep.hostname w ∷ []

-- For every node of the map the writer's row of the one report, if that has a writer.
abbrev pub writer_rows : List NodeReport → NodeReport → List Row
writer_rows [] rep = []
writer_rows (node ∷ nodes) rep = with_writer rep rep.writer ++ writer_rows nodes rep

abbrev pub last_of : NodeReport → List NodeReport → NodeReport
last_of rep [] = rep
last_of rep (node ∷ nodes) = last_of node nodes

-- The reports have the machines of the parsers that they count.
abbrev pub Complete : List NodeReport → Type 0
Complete [] = Unit {0}
Complete (rep ∷ nodes) = (rep.parser_num ≤ length rep.fsms) × Complete nodes

abbrev run_rows : String → List Row → Bool × Post → Bool × Post
run_rows category [] s = s
run_rows category (l ∷ ls) (send, p) = (true, post_rows category (l ∷ ls) (opened send p))

run_rows-first :
    (category : String) (l : Row) (ms : List Row) (s : Bool × Post)
    → run_rows category ms (run_rows category (l ∷ []) s) ≡ run_rows category (l ∷ ms) s
run_rows-first category l [] s = refl
run_rows-first category l (m ∷ ms) s = refl

-- The two loops, as runs of rows.
post_reader-run :
    (rep : NodeReport) (o : Option Traffic) (rest : List Row) (s : Bool × Post)
    → rep.parser_num ≤ length rep.fsms
    → (t : Bool × Post) × (post_reader rep o s ≡ ok t)
      × (run_rows "daq_reader" rest t ≡ run_rows "daq_reader" (with_reader rep o ++ rest) s)
unfolding post_reader
post_reader-run rep none rest s h = (s, refl, refl)
post_reader-run rep (some r) rest s h =
    let l = reader_fields rep.hostname r (totals_of rep.parser_num rep.fsms no_totals) in
    (
      run_rows "daq_reader" (l ∷ []) s,
      ap
          (λ x. x >>= λ t.
            ok (true, post_row "daq_reader" (reader_fields rep.hostname r t) (opened s.0 s.1)))
          (add_totals-ok rep.parser_num rep.fsms no_totals h),
      run_rows-first "daq_reader" l rest s,
    )

post_readers-run :
    (nodes : List NodeReport) (rep : NodeReport) (s : Bool × Post)
    → Complete nodes
    → post_readers nodes (rep, s.0, s.1)
      ≡ ok (
        last_of rep nodes,
        (run_rows "daq_reader" (reader_rows nodes) s).0,
        (run_rows "daq_reader" (reader_rows nodes) s).1,
      )
unfolding post_readers
post_readers-run [] rep s h = refl
post_readers-run (node ∷ nodes) rep s h =
    let (t, e, f) = post_reader-run node node.reader (reader_rows nodes) s h.0 in
    ap (λ x. x >>= λ t. post_readers nodes (node, t.0, t.1)) e
    ∙ post_readers-run nodes node t h.1
    ∙ ap (λ (u : Bool × Post). ok (last_of node nodes, u.0, u.1)) f

post_writer-run :
    (rep : NodeReport) (o : Option Traffic) (rest : List Row) (s : Bool × Post)
    → run_rows "daq_writer" rest (post_writer rep o s)
      ≡ run_rows "daq_writer" (with_writer rep o ++ rest) s
unfolding post_writer
post_writer-run rep none rest s = refl
post_writer-run rep (some w) rest s =
    run_rows-first "daq_writer" (writer_fields rep.hostname w) rest s

post_writers-run :
    (nodes : List NodeReport) (rep : NodeReport) (s : Bool × Post)
    → post_writers nodes rep s ≡ run_rows "daq_writer" (writer_rows nodes rep) s
unfolding post_writers
post_writers-run [] rep s = refl
post_writers-run (node ∷ nodes) rep s =
    post_writers-run nodes rep (post_writer rep rep.writer s)
    ∙ post_writer-run rep rep.writer (writer_rows nodes rep) s

closed-Posted :
    (k : ℕ) (category : String) (rows : List Row) (p : Post)
    → 0 < k
    → k + 2 ≤ p.max_php
    → Wide k rows
    → p.form ≡ []
    → Posted category rows p (closed (run_rows category rows (false, p)))
closed-Posted k category [] p h m w f = ([], sym (append-nil p.posted), refl, tt, f, refl, refl)
closed-Posted k category (l ∷ ls) p h m w f = post_rows-Posted k category (l ∷ ls) p h m w

with_reader-Wide :
    (rep : NodeReport) (o : Option Traffic) (rest : List Row)
    → Wide 9 rest
    → Wide 9 (with_reader rep o ++ rest)
unfolding reader_fields
with_reader-Wide rep none rest h = h
with_reader-Wide rep (some r) rest h = (refl, h)

reader_rows-Wide : (nodes : List NodeReport) → Wide 9 (reader_rows nodes)
reader_rows-Wide [] = tt
reader_rows-Wide (rep ∷ nodes) =
    with_reader-Wide rep rep.reader (reader_rows nodes) (reader_rows-Wide nodes)

with_writer-Wide :
    (rep : NodeReport) (o : Option Traffic) (rest : List Row)
    → Wide 5 rest
    → Wide 5 (with_writer rep o ++ rest)
unfolding writer_fields
with_writer-Wide rep none rest h = h
with_writer-Wide rep (some w) rest h = (refl, h)

writer_rows-Wide : (nodes : List NodeReport) (rep : NodeReport) → Wide 5 (writer_rows nodes rep)
writer_rows-Wide [] rep = tt
writer_rows-Wide (node ∷ nodes) rep =
    with_writer-Wide rep rep.writer (writer_rows nodes rep) (writer_rows-Wide nodes rep)

-- What a round posts of the nodes and leaves behind.
abbrev pub Round : List NodeReport → NodeReport → Post → NodeReport × Post → Type 0
Round nodes rep p (last, q) =
    (mid : Post) × Posted "daq_reader" (reader_rows nodes) p mid
    × Posted "daq_writer" (writer_rows nodes last) mid q
    × (last ≡ last_of rep nodes)

-- Of reports that have the machines of the parsers that they count, with nothing waiting in the POST
-- and a limit of 11 pairs or more, a round has no fault and posts, in the map's order, a row of
-- each node that has a reader; and then, in place of a row of each node that has a writer, for every
-- node in the map the row of the last node's writer. The POSTs hold whole rows, numbered from 0 in
-- each, with the header's fields, and no more pairs each than the limit.
pub weblog_round-Round :
    (nodes : List NodeReport) (rep : NodeReport) (p : Post)
    → Complete nodes
    → 11 ≤ p.max_php
    → p.form ≡ []
    → Gives (Round nodes rep p) (weblog_round nodes (rep, p))
unfolding weblog_round
weblog_round-Round nodes rep p c m f =
    let s = run_rows "daq_reader" (reader_rows nodes) (false, p) in
    let mid = closed s in
    let last = last_of rep nodes in
    let (a, b, d, w, e, u, x) =
      closed-Posted 9 "daq_reader" (reader_rows nodes) p (omega arith) m (reader_rows-Wide nodes)
        f in
    let later =
      closed-Posted 5 "daq_writer" (writer_rows nodes last) mid (omega arith) (omega (arith, m, x))
        (writer_rows-Wide nodes last) e in
    rw (post_readers-run nodes rep (false, p) c)
      (rw (post_writers-run nodes last (false, mid)) (mid, (a, b, d, w, e, u, x), later, refl))
