-- ===== src/Reader/Counts.antt =====
-- What the reader reports, and that it carries on: `udp_handler` of src/reader/FzReader.cpp.
use fz_daq.Prelude.{
  ℕ, ◌+◌, ◌*◌, ◌≡◌, refl, false, List, [], ◌∷◌, ◌++◌, Result, ok, err, ◌>>=◌, length, arith,
  length-append, if◌then◌else◌,
}
use fz_daq.Fsm.Control.Step.{Returns}
use fz_daq.Reader.{
  Reader, wrap, ends_event, record_event, send_event, put_word, put_words, payload, udp_handler,
}
use fz_daq.Reader.Stream.{Returns-bind, Returns-if}

-- The words of some messages.
abbrev pub words_in : List (List ℕ) → ℕ
words_in [] = 0
words_in (m ∷ ms) = length m + words_in ms

-- The report counts the messages sent, as received and as sent, and their bytes, modulo 2^64.
pub record Counted (r : Reader) : Type 0 where
  pub events_in : r.report.in_events ≡ wrap (length r.sent)
  pub events_out : r.report.out_events ≡ wrap (length r.sent)
  pub bytes_out : r.report.out_bytes ≡ wrap (words_in r.sent * 2)

words_in-append :
    (ms : List (List ℕ)) (m : List ℕ) → words_in (ms ++ m ∷ []) ≡ words_in ms + length m
words_in-append [] m = omega arith
words_in-append (n ∷ ms) m = omega (arith, words_in-append ms m)

send_event-Counted : (r : Reader) → Counted r → Counted (send_event r)
unfolding send_event
send_event-Counted r c =
    let i = c.events_in in
    let o = c.events_out in
    let b = c.bytes_out in
    let l = length-append r.sent (r.chunk ∷ []) in
    let w = words_in-append r.sent r.chunk in
    record { events_in = omega arith; events_out = omega arith; bytes_out = omega arith }

record_event-Counted : (r : Reader) → Counted r → Returns Counted (record_event r)
unfolding record_event
record_event-Counted r c = ground (arith, c)

put_word-Counted : (w : ℕ) (r : Reader) → Counted r → Returns Counted (put_word w r)
unfolding put_word
put_word-Counted w r c =
    let t = record r { chunk = r.chunk ++ w ∷ [] } in
    let d : Counted t = record {
      events_in = c.events_in;
      events_out = c.events_out;
      bytes_out = c.bytes_out;
    } in
    Returns-if Counted (ends_event w) _ (ok t)
      (Returns-bind Counted Counted (if t.recording then record_event t else ok t) _
        (Returns-if Counted t.recording (record_event t) (ok t) (record_event-Counted t d) d)
        send_event-Counted)
      d

put_words-Counted : (ws : List ℕ) (r : Reader) → Counted r → Returns Counted (put_words ws r)
unfolding put_words
put_words-Counted [] r c = c
put_words-Counted (w ∷ ws) r c =
    Returns-bind Counted Counted (put_word w r) (put_words ws) (put_word-Counted w r c)
      (put_words-Counted ws)

-- If a datagram is handled without a fault, the counters of events and of bytes sent stay those of
-- the messages sent, whatever is discarded.
pub udp_handler-Counted :
    (memory : ℕ → ℕ) (len : ℕ) (r : Reader) → Counted r → Returns Counted (udp_handler memory len r)
unfolding udp_handler
udp_handler-Counted memory len r c =
    Returns-bind Counted Counted (put_words (payload memory len) r) _
      (put_words-Counted (payload memory len) r c) λ t d. ground (arith, d)

-- The call returns, with `P`.
abbrev pub Yields : (Reader → Type 0) → Result Reader → Type 0
Yields P (ok t) = P t
Yields P (err e) = ⊥

-- Without recording, and with so many bytes counted.
abbrev Plain : ℕ → Reader → Type 0
Plain n r = (r.recording ≡ false) × (r.report.in_bytes ≡ n)

put_word_returns : (n w : ℕ) (r : Reader) → Plain n r → Yields (Plain n) (put_word w r)
unfolding put_word send_event
put_word_returns n w r h = ground arith

Yields-bind :
    (P Q : Reader → Type 0) (m : Result Reader) (f : Reader → Result Reader)
    → Yields P m
    → ((t : Reader) → P t → Yields Q (f t))
    → Yields Q (m >>= f)
Yields-bind P Q (ok t) f h k = k t h
Yields-bind P Q (err e) f h k = elim h [ ]

put_words_returns :
    (n : ℕ) (ws : List ℕ) (r : Reader) → Plain n r → Yields (Plain n) (put_words ws r)
unfolding put_words
put_words_returns n [] r h = h
put_words_returns n (w ∷ ws) r h =
    Yields-bind (Plain n) (Plain n) (put_word w r) (put_words ws) (put_word_returns n w r h)
      (put_words_returns n ws)

-- Where events are not recorded to files, every datagram is handled without a fault, and its bytes
-- are counted.
pub udp_handler_returns :
    (memory : ℕ → ℕ) (len : ℕ) (r : Reader)
    → r.recording ≡ false
    → Yields
        (λ t. (t.recording ≡ false) × (t.report.in_bytes ≡ wrap (r.report.in_bytes + len)))
        (udp_handler memory len r)
unfolding udp_handler
udp_handler_returns memory len r h =
    Yields-bind (Plain r.report.in_bytes) _ (put_words (payload memory len) r) _
      (put_words_returns r.report.in_bytes (payload memory len) r (h, refl)) λ t k. ground arith
