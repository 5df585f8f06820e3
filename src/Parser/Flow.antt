-- ===== src/Parser/Flow.antt =====
-- From the reader to a file: a message of src/reader/FzReader.cpp in src/parser/FzParser.cpp, what
-- this sends in src/writer/FzWriter.cpp, and what is read of the files afterwards.
use fz_daq.Prelude.{
  ℕ, ◌+◌, ◌*◌, ◌/◌, ◌%◌, ◌<◌, ◌≡◌, ◌≢◌, refl, ap, ◌∙◌, List, [], ◌∷◌, ◌++◌, map, true, false,
  length, Result, ok, err, Gives, arith,
}
use fz_daq.Event.{FzEvent, EventTree, event_tree}
use fz_daq.Rc.{running}
use fz_daq.Fsm.State.{Fsm, Floats, u32}
use fz_daq.Fsm.Process.{init, import, process, parse_ok}
use fz_daq.Writer.{Writer, take_message}
use fz_daq.Writer.Store.{stored}
use fz_daq.Framing.{Coded, IsCoded}
use fz_daq.Framing.Files.{Fits, AllFit, read_files, take_message-read_files}
use fz_daq.Parser.{
  Parser, Serialize, received, words_of, finish_event, send_set, parse_message, parse_round,
}

-- The bytes of the reader's chunk, the low byte of each word first.
unfoldable pub bytes_of : List ℕ → List ℕ
bytes_of [] = []
bytes_of (w ∷ ws) = w % 256 ∷ w / 256 ∷ bytes_of ws

abbrev pub AllWords : List ℕ → Type 0
AllWords [] = Unit {0}
AllWords (w ∷ ws) = (w < 65536) × AllWords ws

words_of-bytes_of : (ws : List ℕ) → AllWords ws → words_of (bytes_of ws) ≡ ws
unfolding words_of bytes_of
words_of-bytes_of [] a = refl
words_of-bytes_of (w ∷ ws) a =
    let e : w % 256 + 256 * (w / 256) ≡ w = omega arith in rw (e, words_of-bytes_of ws a.1) refl

length-bytes_of : (ws : List ℕ) → length (bytes_of ws) ≡ 2 * length ws
unfolding bytes_of
length-bytes_of [] = refl
length-bytes_of (w ∷ ws) = omega (arith, length-bytes_of ws)

-- The event set is serialized with success, and then, as the library documents, parsed as itself.
pub record IsSerialized (o : Coded (List EventTree)) (serialize : Serialize) (es : List FzEvent)
    : Type 0 where
  pub done : (serialize es).0 ≡ true
  pub parsed : (old : List EventTree) → o.parse (serialize es).1 old ≡ map event_tree es

-- The machine is given the words of the reader's message.
parse_round_words :
    (fl : Floats) (serialize : Serialize) (fuel : ℕ) (ws : List ℕ) (p : Parser) (t : Fsm)
    → p.rcstate ≡ running
    → AllWords ws
    → length ws < 4294967296
    → process fl fuel (import ws (length ws) (init p.evformat p.sm)) ≡ ok (t, parse_ok)
    → t.event_is_empty ≡ false
    → Gives
        (λ q. q.sent ≡ p.sent ++ (serialize (t.ev ∷ [])).1 ∷ [])
        (parse_round fl serialize fuel (received (bytes_of ws)) p)
unfolding parse_round parse_message finish_event send_set
parse_round_words fl serialize fuel ws p t r a l e f =
    let size : u32 (length (bytes_of ws) / 2) ≡ length ws = omega (arith, length-bytes_of ws, l) in
    rw (r, size, words_of-bytes_of ws a) (rw e (rw f refl))

Gives-and :
    {A : Type 0} (P : A → Type 0) (Q : Type 0) (m : Result A)
    → Gives P m
    → Q
    → Gives (λ a. P a × Q) m
Gives-and P Q (ok a) h q = (h, q)
Gives-and P Q (err e) h q = h

module _ (o : Coded (List EventTree)) (c : IsCoded o) (serialize : Serialize) where
  -- An event that the machine parses and finds not to be empty gets to the files: the running parser
  -- sends one message for the words that the reader sent, and once a storing writer has taken this
  -- message, the files of all runs, read in the order they were opened, give what they gave before,
  -- and behind it a set of this one event, exactly as it was parsed. It has to be serialized with
  -- success, and this and the messages stored before are neither empty nor of 2 GB.
  pub event_reaches_files :
      (fl : Floats) (fuel rounds now : ℕ) (ws : List ℕ) (p : Parser) (t : Fsm) (w : Writer)
      (bytes events : ℕ)
      → p.rcstate ≡ running
      → AllWords ws
      → length ws < 4294967296
      → process fl fuel (import ws (length ws) (init p.evformat p.sm)) ≡ ok (t, parse_ok)
      → t.event_is_empty ≡ false
      → IsSerialized o serialize (t.ev ∷ [])
      → Fits (serialize (t.ev ∷ [])).1
      → w.storing ≡ true
      → w.files ≢ []
      → AllFit (stored w.files)
      → length (stored w.files) + 1 < rounds
      → Gives
          (λ q.
            let x = (serialize (t.ev ∷ [])).1 in
            (q.sent ≡ p.sent ++ x ∷ [])
            × (read_files o rounds (take_message now x (w, bytes, events)).0.files []
                ≡ ok (map (λ y. o.parse y []) (stored w.files) ++ (event_tree t.ev ∷ []) ∷ [])))
          (parse_round fl serialize fuel (received (bytes_of ws)) p)
  event_reaches_files fl fuel rounds now ws p t w bytes events r a l e f u fits st fs all n =
      let x = (serialize (t.ev ∷ [])).1 in
      let sent = parse_round_words fl serialize fuel ws p t r a l e f in
      let back =
        take_message-read_files o c rounds now x w bytes events [] st fs fits all n
        ∙ ap (λ (es : List EventTree). ok (map (λ y. o.parse y []) (stored w.files) ++ es ∷ []))
            (u.parsed []) in
      Gives-and _ _ _ sent back
