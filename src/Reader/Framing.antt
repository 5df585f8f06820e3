-- ===== src/Reader/Framing.antt =====
-- Where the stream is cut: `udp_handler` of src/reader/FzReader.cpp against `getword_id` of
-- src/parser/FzFSM.cpp.
use fz_daq.Prelude.{
  ℕ, ◌<◌, ◌≡◌, refl, ◌↔◌, inl, inr, true, false, List, [], ◌∷◌, ◌++◌, ok, ◌>>=◌, length, arith,
  Bool-cases, ltb, if◌then◌else◌,
}
use fz_daq.Fsm.Word.{getword_id}
use fz_daq.Fsm.Control.Step.{Returns}
use fz_daq.Reader.{
  Reader, max_event_size, ends_event, record_event, send_event, put_word, put_words, payload,
  udp_handler,
}
use fz_daq.Reader.Stream.{Returns-bind, Returns-if}

-- No word of a list ends an event.
abbrev pub Unended : List ℕ → Type 0
Unended [] = Unit {0}
Unended (w ∷ ws) = (ends_event w ≡ false) × Unended ws

-- Words none of which ends an event, and one that does.
abbrev pub Message : List ℕ → Type 0
Message m =
    (body : List ℕ) × (last : ℕ) × (m ≡ body ++ last ∷ []) × Unended body × (ends_event last ≡ true)

abbrev pub Messages : List (List ℕ) → Type 0
Messages [] = Unit {0}
Messages (m ∷ ms) = Message m × Messages ms

abbrev Cut : Reader → Type 0
Cut r = Unended r.chunk × Messages r.sent

-- The chunk is the unfinished beginning of an event, below the size limit, and each message sent
-- is one whole event.
pub record Framed (r : Reader) : Type 0 where
  pub unended : Unended r.chunk
  pub messages : Messages r.sent
  pub narrow : length r.chunk < max_event_size

Unended-append : (ws : List ℕ) (w : ℕ) → Unended ws → ends_event w ≡ false → Unended (ws ++ w ∷ [])
Unended-append [] w h e = (e, tt)
Unended-append (v ∷ ws) w h e = (h.0, Unended-append ws w h.1 e)

Messages-append :
    (ms : List (List ℕ)) (m : List ℕ) → Messages ms → Message m → Messages (ms ++ m ∷ [])
Messages-append [] m h k = (k, tt)
Messages-append (n ∷ ms) m h k = (h.0, Messages-append ms m h.1 k)

-- The cut at a word that ends an event, once it is in the chunk.
send_event-Cut : (r : Reader) → Message r.chunk → Messages r.sent → Cut (send_event r)
unfolding send_event
send_event-Cut r m h = (tt, Messages-append r.sent r.chunk h m)

abbrev Whole : Reader → Type 0
Whole r = Message r.chunk × Messages r.sent

record_event-Whole : (r : Reader) → Whole r → Returns Whole (record_event r)
unfolding record_event
record_event-Whole r h = ground (arith, h)

end_here :
    (t : Reader)
    → Whole t
    → Returns Cut ((if t.recording then record_event t else ok t) >>= λ u. ok (send_event u))
end_here t h =
    Returns-bind Whole Cut (if t.recording then record_event t else ok t) _
      (Returns-if Whole t.recording (record_event t) (ok t) (record_event-Whole t h) h)
      λ u k. send_event-Cut u k.0 k.1

put_word-Cut : (w : ℕ) (r : Reader) → Cut r → Returns Cut (put_word w r)
unfolding put_word
put_word-Cut w r c =
    let t = record r { chunk = r.chunk ++ w ∷ [] } in
    elim (Bool-cases (ends_event w)) [
      | inl e ↦ rw e (end_here t ((r.chunk, w, refl, c.0, e), c.1))
      | inr e ↦ rw e (Unended-append r.chunk w c.0 e, c.1)
    ]

put_words-Cut : (ws : List ℕ) (r : Reader) → Cut r → Returns Cut (put_words ws r)
unfolding put_words
put_words-Cut [] r c = c
put_words-Cut (w ∷ ws) r c =
    Returns-bind Cut Cut (put_word w r) (put_words ws) (put_word-Cut w r c) (put_words-Cut ws)

-- A datagram that is handled without a fault leaves the reader with whole events in its messages
-- and the beginning of one, of less than the size limit, in its chunk, if it was so before.
pub udp_handler-Framed :
    (memory : ℕ → ℕ) (len : ℕ) (r : Reader) → Framed r → Returns Framed (udp_handler memory len r)
unfolding udp_handler
udp_handler-Framed memory len r f =
    Returns-bind Cut Framed (put_words (payload memory len) r) _
      (put_words-Cut (payload memory len) r (f.unended, f.messages))
      λ t h. elim (Bool-cases (ltb (length t.chunk) max_event_size)) [
        | inl e ↦ rw e (record { unended = h.0; messages = h.1; narrow = ground arith })
        | inr e ↦ rw e (record { unended = tt; messages = h.1; narrow = ground arith })
      ]

-- The reader cuts behind the words that are the end of an event to the parser, and no others.
pub ends_event-getword_id : (w : ℕ) → w < 0x10000 → (ends_event w ≡ true) ↔ (getword_id w ≡ 12)
unfolding getword_id
ends_event-getword_id w h = ground arith
