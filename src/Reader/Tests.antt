-- ===== src/Reader/Tests.antt =====
-- Datagrams at concrete words, and the reader's theorems at them.
use fz_daq.Prelude.{ℕ, zero, suc, ◌≡◌, refl, ◌↔◌, true, false, List, [], ◌∷◌, arith, err, bad_index}
use fz_daq.Fsm.Word.{getword_id}
use fz_daq.Fsm.Control.Step.{Returns}
use fz_daq.Reader.{
  Reader, ends_event, payload, buffer_words, put_word, put_words, record_event, send_event,
  udp_handler,
}
use fz_daq.Reader.Stream.{KeepsStream, udp_handler-stream}
use fz_daq.Reader.Framing.{Framed, udp_handler-Framed, ends_event-getword_id}
use fz_daq.Reader.Counts.{Counted, Yields, udp_handler-Counted}

-- The words of a list, and 0 behind it.
abbrev memory_of : List ℕ → ℕ → ℕ
memory_of [] i = 0
memory_of (w ∷ ws) zero = w
memory_of (w ∷ ws) (suc i) = memory_of ws i

-- A sequence number, the end of an event of three words, and the beginning of the next.
abbrev datagram : ℕ → ℕ
datagram = memory_of (1 ∷ 2 ∷ 0xD000 ∷ 0xC807 ∷ 0xE006 ∷ [])

abbrev waiting : Reader
waiting = record {
  chunk = 0xE005 ∷ [];
  fileno = 0;
  recording = false;
  report = record { in_bytes = 0; out_bytes = 0; in_events = 0; out_events = 0 };
  sent = [];
  files = [];
}

cut_once :
    Yields
      (λ t. (t.sent ≡ (0xE005 ∷ 0xD000 ∷ 0xC807 ∷ []) ∷ []) × (t.chunk ≡ 0xE006 ∷ []))
      (udp_handler datagram 10 waiting)
unfolding udp_handler put_words put_word payload buffer_words send_event
cut_once = (refl, refl)

-- When recording, an event of one word faults: its second word stands in the file's name.
one_word_faults :
    udp_handler
      (memory_of (1 ∷ 2 ∷ 0xC807 ∷ []))
      6
      (record waiting { chunk = []; recording = true })
    ≡ err bad_index
unfolding udp_handler put_words put_word payload buffer_words record_event
one_word_faults = refl

udp_handler-stream_example : KeepsStream datagram 10 waiting (udp_handler datagram 10 waiting)
udp_handler-stream_example = udp_handler-stream datagram 10 waiting

waiting-Framed : Framed waiting
waiting-Framed = record { unended = (refl, tt); messages = tt; narrow = omega arith }

udp_handler-Framed_example : Returns Framed (udp_handler datagram 10 waiting)
udp_handler-Framed_example = udp_handler-Framed datagram 10 waiting waiting-Framed

ends_event-getword_id_example : (ends_event 0xC807 ≡ true) ↔ (getword_id 0xC807 ≡ 12)
ends_event-getword_id_example = ends_event-getword_id 0xC807 (omega arith)

waiting-Counted : Counted waiting
waiting-Counted = record { events_in = refl; events_out = refl; bytes_out = refl }

udp_handler-Counted_example : Returns Counted (udp_handler datagram 10 waiting)
udp_handler-Counted_example = udp_handler-Counted datagram 10 waiting waiting-Counted
