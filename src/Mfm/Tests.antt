-- ===== src/Mfm/Tests.antt =====
-- Frames of concrete events, and the theorems at them.
use fz_daq.Prelude.{
  ℕ, ◌+◌, ◌*◌, ◌/◌, ◌%◌, ◌≡◌, ◌==◌, refl, List, [], ◌∷◌, true, ltb, Option, none, some,
  if◌then◌else◌, length, Gives, arith, suc, err, bad_index,
}
use fz_daq.Event.{FzTrigInfo, EventTree}
use fz_daq.Tcp.{Socket, IsSocket, Transmitter, r_tcp_connect, disconnect, send, write_closed}
use fz_daq.Tcp.Sound.{IsSound}
use fz_daq.Mfm.{Sets, Message, frame, block_bytes, transmit_round, transmit_parsed, transmit_rounds}
use fz_daq.Mfm.Fields.{place_all}
use fz_daq.Mfm.Trigger.{no_words}
use fz_daq.Mfm.Frames.{big_endian, field, frame-trigger, read_frames}
use fz_daq.Mfm.Sends.{Transmitted}
use fz_daq.Mfm.Rounds.{all_sent, enough, transmit_round-Transmitted, transmit_rounds-read_frames}

abbrev bytes_here : ℕ → ℕ
bytes_here i = (i + 65) % 256

abbrev info : ℕ → ℕ → FzTrigInfo
info id value = record { id = id; attr = ""; value = value }

-- The words of the centrum, out of order and with other information between them.
abbrev infos : List FzTrigInfo
infos =
    info 0x202 0x3FFFFFFF
    ∷ info 0x100 7
    ∷ info 0x201 0x12345678
    ∷ info 0x203 0x2ABCDEF0
    ∷ info 0x200 5
    ∷ []

abbrev tree : EventTree
tree = record { ec = 3; regid = 1; blocks = []; trinfo = infos }

-- An empty message is no event, and every other one is the same event, of as many bytes.
abbrev sets : Sets
sets = record {
  parse = λ bs. if length bs == 0 then none else some (tree ∷ []);
  byte_size = λ evs. 3;
}

abbrev three : Message
three = record { memory = bytes_here; len = 3 }

abbrev nothing : Message
nothing = record { memory = bytes_here; len = 0 }

abbrev connected : Transmitter
connected = record { connection_socket = some 4; timeout = 10 }

-- A socket that is always ready and passes at most nine bytes at a time.
abbrev slow : Socket
slow = record { ready = λ i. true; passes = λ i k. some (if ltb 9 k then 9 else k) }

some_inj : (m n : ℕ) → ◌≡◌ {A = Option ℕ} (some m) (some n) → m ≡ n
some_inj m n e = cc

slow-IsSocket : IsSocket slow
slow-IsSocket = record {
  at_most = λ i k n e. let f = some_inj (if ltb 9 k then 9 else k) n e in ground arith;
  at_least = λ i k n e p. let f = some_inj (if ltb 9 k then 9 else k) n e in ground arith;
}

slow-IsSound : IsSound slow
slow-IsSound = record {
  socket = slow-IsSocket;
  always = λ i. refl;
  passes_some = λ i k. (if ltb 9 k then 9 else k, refl);
}

-- The same, which fails at the third round.
abbrev broken : Socket
broken = record slow { passes = λ i k. if i == 2 then none else some (if ltb 9 k then 9 else k) }

broken_inj : (i m n : ℕ) → ◌≡◌ {A = Option ℕ} (if i == 2 then none else some m) (some n) → m ≡ n
broken_inj i m n e = ground arith

broken-IsSocket : IsSocket broken
broken-IsSocket = record {
  at_most = λ i k n e. let f = broken_inj i (if ltb 9 k then 9 else k) n e in ground arith;
  at_least = λ i k n e p. let f = broken_inj i (if ltb 9 k then 9 else k) n e in ground arith;
}

frame-trigger_example :
    (big_endian 0 (field 8 6 (frame bytes_here 3 infos))
      ≡ (place_all infos no_words).w0 % 64 * 4398046511104
        + (place_all infos no_words).w1 * 4096
        + (place_all infos no_words).w2 / 262144)
    × (big_endian 0 (field 14 4 (frame bytes_here 3 infos))
        ≡ (place_all infos no_words).w2 % 262144 * 16384 + (place_all infos no_words).w3 / 65536)
    × (big_endian 0 (field 18 2 (frame bytes_here 3 infos)) ≡ (place_all infos no_words).w3 % 65536)
frame-trigger_example = frame-trigger bytes_here 3 infos (
  omega arith,
  refl,
  (omega arith, refl, (omega arith, refl, (omega arith, refl, (omega arith, refl, tt)))),
)

transmit_round-Transmitted_example :
    Gives
      (Transmitted (r_tcp_connect, 0) (frame bytes_here 3 infos) connected)
      (transmit_round sets 100 broken (r_tcp_connect, 0) bytes_here 3 connected)
unfolding block_bytes
transmit_round-Transmitted_example =
    transmit_round-Transmitted sets 100 broken (r_tcp_connect, 0) three connected tree []
      broken-IsSocket refl (omega arith) (omega arith)

-- A reconnection that failed leaves no connection, and the next frame is a fault.
unconnected :
    transmit_round sets 100 slow (r_tcp_connect, 0) bytes_here 3 (disconnect connected)
    ≡ err bad_index
unfolding disconnect transmit_round transmit_parsed frame block_bytes send write_closed
unconnected = refl

transmit_rounds-read_frames_example :
    Gives
      (λ r.
        (r.0 ≡ connected)
        × (read_frames (suc (length (all_sent sets (three ∷ nothing ∷ three ∷ [])))) r.1
            ≡ some ((65 ∷ 66 ∷ 67 ∷ []) ∷ (65 ∷ 66 ∷ 67 ∷ []) ∷ [])))
      (transmit_rounds sets enough slow
        (r_tcp_connect, 0)
        (three ∷ nothing ∷ three ∷ [])
        connected
        [])
unfolding block_bytes
transmit_rounds-read_frames_example =
    transmit_rounds-read_frames sets slow (r_tcp_connect, 0) (three ∷ nothing ∷ three ∷ [])
      connected 4 slow-IsSound refl (λ e. cc, (λ e. cc, (λ e. cc, tt)))
      (omega arith, (omega arith, tt)) (refl, (tt, (refl, tt)))

-- An odd number of bytes: the fourth byte of the data is the one that stands behind the message.
odd_frame : field 24 4 (frame bytes_here 3 infos) ≡ 65 ∷ 66 ∷ 67 ∷ 68 ∷ []
unfolding frame block_bytes
odd_frame = refl
