-- ===== src/Mfm.antt =====
-- The transmitter's program: the loop of src/transmitter/main.cpp, which puts each event that it
-- gets into an MFM frame and sends it over TCP.
mod Fields
mod Trigger
mod Frames
mod Rounds
mod Sends
mod Tests
use fz_daq.Prelude.{
  ℕ, zero, suc, ◌+◌, ◌-◌, ◌*◌, ◌/◌, ◌%◌, List, [], ◌∷◌, ◌++◌, Bool, true, false, ltb, ◌==◌,
  if◌then◌else◌, Option, none, some, Result, ok, err, bad_index, ◌>>=◌, bit_or,
}
use fz_daq.Event.{FzTrigInfo, EventTree}
use fz_daq.Tcp.{Code, Socket, Transmitter, send, connect, is_tcp_ok}

-- `mfmevent[8]` to `mfmevent[19]`, which the trigger information fills.
pub record Header : Type 0 where
  pub b8 : ℕ
  pub b9 : ℕ
  pub b10 : ℕ
  pub b11 : ℕ
  pub b12 : ℕ
  pub b13 : ℕ
  pub b14 : ℕ
  pub b15 : ℕ
  pub b16 : ℕ
  pub b17 : ℕ
  pub b18 : ℕ
  pub b19 : ℕ

abbrev pub cleared : Header
cleared = record {
  b8 = 0;
  b9 = 0;
  b10 = 0;
  b11 = 0;
  b12 = 0;
  b13 = 0;
  b14 = 0;
  b15 = 0;
  b16 = 0;
  b17 = 0;
  b18 = 0;
  b19 = 0;
}

-- `mfmevent[i] |= n`
abbrev pub or_byte : ℕ → ℕ → ℕ
or_byte b n = bit_or b n % 256

-- The body of the loop over the trigger information. `value` is 32 bits wide.
unfoldable pub add_centrum : FzTrigInfo → Header → Header
add_centrum t h =
    let v = t.value in
    if t.id == 0x200
    then record h { b8 = or_byte h.b8 (v % 64 * 4) }
    else if t.id == 0x201
    then record h {
      b8 = or_byte h.b8 (v / 268435456);
      b9 = v / 1048576 % 256;
      b10 = v / 4096 % 256;
      b11 = v / 16 % 256;
      b12 = or_byte h.b12 (v % 16 * 16);
    }
    else if t.id == 0x202
    then record h {
      b12 = or_byte h.b12 (v / 67108864);
      b13 = v / 262144 % 256;
      b14 = v / 1024 % 256;
      b15 = v / 4 % 256;
      b16 = or_byte h.b16 (v % 4 * 64);
    }
    else if t.id == 0x203
    then record h {
      b16 = or_byte h.b16 (v / 16777216);
      b17 = v / 65536 % 256;
      b18 = v / 256 % 256;
      b19 = v % 256;
    }
    else h

unfoldable pub add_centrums : List FzTrigInfo → Header → Header
unfolding add_centrum
add_centrums [] h = h
add_centrums (t ∷ ts) h = add_centrums ts (add_centrum t h)

-- `mfmeventsize`
abbrev pub mfm_size : ℕ → ℕ
mfm_size byte_size = if (24 + byte_size) % 2 == 0 then 24 + byte_size else 24 + byte_size + 1

-- The bytes that `event.data()` points to: `memory i` is the one numbered `i`, also behind the
-- message's end. These are `n` of them from number `i` on.
unfoldable pub block_bytes : (ℕ → ℕ) → ℕ → ℕ → List ℕ
block_bytes memory i zero = []
block_bytes memory i (suc n) = memory i ∷ block_bytes memory (suc i) n

-- The `mfmeventsize` bytes of `mfmevent` that are sent.
unfoldable pub frame : (ℕ → ℕ) → ℕ → List FzTrigInfo → List ℕ
unfolding add_centrums block_bytes
frame memory byte_size infos =
    let n = mfm_size byte_size / 2 in
    let h = add_centrums infos cleared in
    0x41
    ∷ n / 65536 % 256
    ∷ n / 256 % 256
    ∷ n % 256
    ∷ 0
    ∷ 0
    ∷ 0x40
    ∷ 0
    ∷ h.b8
    ∷ h.b9
    ∷ h.b10
    ∷ h.b11
    ∷ h.b12
    ∷ h.b13
    ∷ h.b14
    ∷ h.b15
    ∷ h.b16
    ∷ h.b17
    ∷ h.b18
    ∷ h.b19
    ∷ byte_size % 256
    ∷ byte_size / 256 % 256
    ∷ byte_size / 65536 % 256
    ∷ byte_size / 16777216 % 256
    ∷ block_bytes memory 0 (mfm_size byte_size - 24)

-- What protobuf does: ParseFromArray, if it accepts the bytes, and ByteSize.
pub record Sets : Type 0 where
  pub parse : List ℕ → Option (List EventTree)
  pub byte_size : List EventTree → ℕ

abbrev pub buffer_size : ℕ
buffer_size = 0x400000

-- What is done with the code of a send: a new connection is tried, by what TcpOpen comes to, and the
-- frame is not sent again.
unfoldable pub after_send : Code × ℕ → Transmitter → Code × ℕ × List ℕ → Transmitter × List ℕ
unfolding connect
after_send (open_code, s) x (code, n, out) =
    (if is_tcp_ok code then x else (connect open_code s x).0, out)

-- What the loop does with the events of a message. `ev.ev(0)` of no event and a frame longer than
-- `mfmevent` are out of range.
unfoldable pub transmit_parsed :
    Sets
    → ℕ
    → Socket
    → Code × ℕ
    → (ℕ → ℕ)
    → Option (List EventTree)
    → Transmitter
    → Result (Transmitter × List ℕ)
unfolding frame after_send send
transmit_parsed o fuel sk opened memory none x = ok (x, [])
transmit_parsed o fuel sk opened memory (some []) x = err bad_index
transmit_parsed o fuel sk opened memory (some (ev ∷ evs)) x =
    let size = o.byte_size (ev ∷ evs) in
    if ltb buffer_size (mfm_size size)
    then err bad_index
    else send fuel sk (frame memory size ev.trinfo) x >>= λ r. ok (after_send opened x r)

-- A round of the loop: a message of `len` bytes, and the bytes passed to the system.
unfoldable pub transmit_round :
    Sets → ℕ → Socket → Code × ℕ → (ℕ → ℕ) → ℕ → Transmitter → Result (Transmitter × List ℕ)
unfolding transmit_parsed block_bytes
transmit_round o fuel sk opened memory len x =
    transmit_parsed o fuel sk opened memory (o.parse (block_bytes memory 0 len)) x

-- A message from the reader's socket.
pub record Message : Type 0 where
  pub memory : ℕ → ℕ
  pub len : ℕ

-- The loop for so many messages, with all the bytes passed to the system.
unfoldable pub transmit_rounds :
    Sets
    → ℕ
    → Socket
    → Code × ℕ
    → List Message
    → Transmitter
    → List ℕ
    → Result (Transmitter × List ℕ)
unfolding transmit_round
transmit_rounds o fuel sk opened [] x out = ok (x, out)
transmit_rounds o fuel sk opened (m ∷ ms) x out =
    transmit_round o fuel sk opened m.memory m.len x >>= λ r.
    transmit_rounds o fuel sk opened ms r.0 (out ++ r.1)
