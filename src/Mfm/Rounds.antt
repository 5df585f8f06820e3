-- ===== src/Mfm/Rounds.antt =====
-- What the loop of src/transmitter/main.cpp passes on of the messages that it gets.
use fz_daq.Prelude.{
  ℕ, suc, ◌*◌, ◌<◌, ◌≤◌, ◌≡◌, ◌≢◌, refl, sym, ap, ◌∙◌, inl, inr, List, [], ◌∷◌, ◌++◌, false, ltb,
  if◌then◌else◌, arith, length, Option, none, some, Result, ok, err, Gives, Gives-bind,
}
use mathlib.Core.List.{append_assoc, append-nil}
use fz_daq.Event.{EventTree}
use fz_daq.Tcp.{
  Code, tcp_ok, r_tcp_write, Socket, IsSocket, Transmitter, tcp_write, connect, is_tcp_ok,
}
use fz_daq.Tcp.Transfer.{Passed, tcp_write-Passed, Gives-map}
use fz_daq.Tcp.Sound.{IsSound, tcp_write-ok}
use fz_daq.Mfm.{
  Sets, Message, mfm_size, block_bytes, frame, buffer_size, after_send, transmit_parsed,
  transmit_round, transmit_rounds,
}
use fz_daq.Mfm.Sends.{Rounded, send_open, send-Rounded}
use fz_daq.Mfm.Frames.{
  Sent, Fit, all_frames, all_blocks, read_frames, read_frames-all_frames, frame-length,
}

-- A message that is parsed into an event or more and whose frame fits the buffer, with more fuel than
-- the frame has bytes. A transmitter with a connection ends the round, on any socket that keeps the
-- documented bounds: either the whole frame is passed on and the connection is kept, or only the
-- first bytes of the frame are and the connection is closed and opened again, with whatever comes of
-- that. A transmitter without one does not: the select writes outside its set, unless there is no
-- timeout, when nothing is passed on and a new connection is tried.
pub transmit_round-Transmitted :
    (o : Sets) (fuel : ℕ) (sk : Socket) (opened : Code × ℕ) (m : Message) (x : Transmitter)
    (ev : EventTree) (evs : List EventTree)
    → IsSocket sk
    → o.parse (block_bytes m.memory 0 m.len) ≡ some (ev ∷ evs)
    → mfm_size (o.byte_size (ev ∷ evs)) ≤ buffer_size
    → mfm_size (o.byte_size (ev ∷ evs)) < fuel
    → Rounded x.connection_socket opened
        (frame m.memory (o.byte_size (ev ∷ evs)) ev.trinfo)
        x
        (transmit_round o fuel sk opened m.memory m.len x)
unfolding transmit_round transmit_parsed
transmit_round-Transmitted o fuel sk opened m x ev evs s e h f =
    let size = o.byte_size (ev ∷ evs) in
    let fits : ltb buffer_size (mfm_size size) ≡ false = ground (arith, h) in
    rw (e, fits)
      (send-Rounded fuel sk opened (frame m.memory size ev.trinfo) x s
        (omega (arith, frame-length m.memory size ev.trinfo h, f)))

-- What is sent of a message.
abbrev pub sent_of : Sets → (ℕ → ℕ) → Option (List EventTree) → List Sent
sent_of o memory none = []
sent_of o memory (some []) = []
sent_of o memory (some (ev ∷ evs)) =
    record { memory = memory; size = o.byte_size (ev ∷ evs); infos = ev.trinfo } ∷ []

abbrev pub parsed : Sets → Message → Option (List EventTree)
parsed o m = o.parse (block_bytes m.memory 0 m.len)

abbrev pub all_sent : Sets → List Message → List Sent
all_sent o [] = []
all_sent o (m ∷ ms) = sent_of o m.memory (parsed o m) ++ all_sent o ms

-- No message is parsed into no event at all.
abbrev pub NoEmpty : Sets → List Message → Type 0
NoEmpty o [] = Unit {0}
NoEmpty o (m ∷ ms) = (parsed o m ≢ some []) × NoEmpty o ms

Fit-append : (es fs : List Sent) → Fit (es ++ fs) → Fit es × Fit fs
Fit-append [] fs h = (tt, h)
Fit-append (e ∷ es) fs h = let i = Fit-append es fs h.1 in ((h.0, i.0), i.1)

all_frames-append : (es fs : List Sent) → all_frames (es ++ fs) ≡ all_frames es ++ all_frames fs
all_frames-append [] fs = refl
all_frames-append (e ∷ es) fs =
    ap (λ xs. frame e.memory e.size e.infos ++ xs) (all_frames-append es fs)
    ∙ sym (append_assoc (frame e.memory e.size e.infos) (all_frames es) (all_frames fs))

abbrev Whole : Transmitter → List ℕ → Transmitter × List ℕ → Type 0
Whole x xs (y, out) = (y ≡ x) × (out ≡ xs)

after_send-Whole :
    (opened : Code × ℕ) (xs : List ℕ) (x : Transmitter) (r : Code × ℕ × List ℕ)
    → Passed r_tcp_write xs r
    → r.0 ≡ tcp_ok
    → Whole x xs (after_send opened x r)
unfolding after_send
after_send-Whole (c, s) xs x (code, n, out) (h, inl (e, p)) k =
    (ap (λ k. if is_tcp_ok k then x else (connect c s x).0) e, p)
after_send-Whole (c, s) xs x (code, n, out) (h, inr (inl e, p)) k = cc
after_send-Whole (c, s) xs x (code, n, out) (h, inr (inr e, p)) k = cc

Gives-both :
    {A : Type 0} (P Q : A → Type 0) (m : Result A)
    → Gives P m
    → Gives Q m
    → Gives (λ a. P a × Q a) m
Gives-both P Q (ok a) p q = (p, q)
Gives-both P Q (err e) p q = p

-- ByteSize of what was parsed is the number of bytes that it was parsed from, as it is where the
-- message is the serialisation of what it is parsed into.
abbrev Exact : Sets → Option (List EventTree) → ℕ → Type 0
Exact o none len = Unit {0}
Exact o (some evs) len = o.byte_size evs ≡ len

abbrev pub AllExact : Sets → List Message → Type 0
AllExact o [] = Unit {0}
AllExact o (m ∷ ms) = Exact o (parsed o m) m.len × AllExact o ms

abbrev if_parsed : Option (List EventTree) → List ℕ → List (List ℕ)
if_parsed none bytes = []
if_parsed (some evs) bytes = bytes ∷ []

-- All the bytes of each message that can be parsed.
abbrev pub whole_messages : Sets → List Message → List (List ℕ)
whole_messages o [] = []
whole_messages o (m ∷ ms) =
    if_parsed (parsed o m) (block_bytes m.memory 0 m.len) ++ whole_messages o ms

block-whole :
    (o : Sets) (m : Message) (p : Option (List EventTree)) (fs : List Sent)
    → p ≢ some []
    → Exact o p m.len
    → all_blocks (sent_of o m.memory p ++ fs)
      ≡ if_parsed p (block_bytes m.memory 0 m.len) ++ all_blocks fs
block-whole o m none fs h e = refl
block-whole o m (some []) fs h e = absurd (h refl)
block-whole o m (some (ev ∷ evs)) fs h e = ap (λ n. block_bytes m.memory 0 n ∷ all_blocks fs) e

blocks-whole :
    (o : Sets) (ms : List Message)
    → NoEmpty o ms
    → AllExact o ms
    → all_blocks (all_sent o ms) ≡ whole_messages o ms
blocks-whole o [] h e = refl
blocks-whole o (m ∷ ms) h e =
    block-whole o m (parsed o m) (all_sent o ms) h.0 e.0
    ∙ ap (λ bs. if_parsed (parsed o m) (block_bytes m.memory 0 m.len) ++ bs)
        (blocks-whole o ms h.1 e.1)

-- The largest frame takes this much fuel.
abbrev pub enough : ℕ
enough = 4194305

module _ (o : Sets) (sk : Socket) (opened : Code × ℕ) (s : IsSound sk) (number : ℕ) where
  transmit_parsed-Whole :
      (memory : ℕ → ℕ) (p : Option (List EventTree)) (x : Transmitter)
      → x.connection_socket ≡ some number
      → p ≢ some []
      → Fit (sent_of o memory p)
      → Gives
          (Whole x (all_frames (sent_of o memory p)))
          (transmit_parsed o enough sk opened memory p x)
  unfolding transmit_parsed
  transmit_parsed-Whole memory none x c h f = (refl, refl)
  transmit_parsed-Whole memory (some []) x c h f = absurd (h refl)
  transmit_parsed-Whole memory (some (ev ∷ evs)) x c h f =
      let size = o.byte_size (ev ∷ evs) in
      let xs = frame memory size ev.trinfo in
      let fits : ltb buffer_size (mfm_size size) ≡ false = ground (arith, f.0) in
      let fuel : length xs < enough = omega (arith, frame-length memory size ev.trinfo f.0, f.0) in
      rw (fits, append-nil xs, send_open enough number sk xs x c)
        (Gives-bind (λ r. Passed r_tcp_write xs r × (r.0 ≡ tcp_ok)) (Whole x xs)
          (tcp_write enough sk xs (x.timeout * 5)) (λ r. ok (after_send opened x r))
          (Gives-both (Passed r_tcp_write xs) (λ r. r.0 ≡ tcp_ok)
            (tcp_write enough sk xs (x.timeout * 5))
            (tcp_write-Passed sk enough (x.timeout * 5) xs s.socket fuel)
            (tcp_write-ok sk enough (x.timeout * 5) xs s fuel))
          λ r p. after_send-Whole opened xs x r p.0 p.1)

  transmit_rounds-Whole :
      (ms : List Message) (x : Transmitter) (out : List ℕ)
      → x.connection_socket ≡ some number
      → NoEmpty o ms
      → Fit (all_sent o ms)
      → Gives
          (Whole x (out ++ all_frames (all_sent o ms)))
          (transmit_rounds o enough sk opened ms x out)
  unfolding transmit_rounds transmit_round
  transmit_rounds-Whole [] x out c h f = (refl, sym (append-nil out))
  transmit_rounds-Whole (m ∷ ms) x out c h f =
      let es = sent_of o m.memory (parsed o m) in
      let (f1, f2) = Fit-append es (all_sent o ms) f in
      Gives-bind (Whole x (all_frames es)) (Whole x (out ++ all_frames (all_sent o (m ∷ ms))))
        (transmit_parsed o enough sk opened m.memory (parsed o m) x)
        (λ r. transmit_rounds o enough sk opened ms r.0 (out ++ r.1))
        (transmit_parsed-Whole m.memory (parsed o m) x c h.0 f1)
        λ r w.
          let whole : out ++ all_frames (es ++ all_sent o ms)
              ≡ (out ++ all_frames es) ++ all_frames (all_sent o ms) =
            ap (λ ys. out ++ ys) (all_frames-append es (all_sent o ms))
            ∙ sym (append_assoc out (all_frames es) (all_frames (all_sent o ms))) in
          rw (whole, w.0, w.1) (transmit_rounds-Whole ms x (out ++ all_frames es) c h.1 f2)

-- Over a connection that never fails and keeps the documented bounds, whatever messages come, as long
-- as none is parsed into no event at all, every frame fits the buffer, and ByteSize of what is parsed
-- is the message's length: the loop ends each round with the transmitter as it was, and a reader that
-- goes by the lengths in the frames alone gets, from all the bytes passed on, every message that
-- could be parsed, in order and with all its bytes.
pub transmit_rounds-read_frames :
    (o : Sets) (sk : Socket) (opened : Code × ℕ) (ms : List Message) (x : Transmitter) (s : ℕ)
    → IsSound sk
    → x.connection_socket ≡ some s
    → NoEmpty o ms
    → Fit (all_sent o ms)
    → AllExact o ms
    → Gives
        (λ r.
          (r.0 ≡ x) × (read_frames (suc (length (all_sent o ms))) r.1 ≡ some (whole_messages o ms)))
        (transmit_rounds o enough sk opened ms x [])
transmit_rounds-read_frames o sk opened ms x s k c h f e =
    Gives-map (Whole x (all_frames (all_sent o ms))) _ _
      (transmit_rounds-Whole o sk opened k s ms x [] c h f)
      λ r w.
        (w.0, rw w.1 (read_frames-all_frames (all_sent o ms) f ∙ ap some (blocks-whole o ms h e)))
