-- ===== src/Tcp.antt =====
-- The TCP transmitter: `TcpRead` and `TcpWrite` of src/transmitter/Tcp.cpp, and class fdtTransmitter
-- of src/transmitter/fdtTransmitter.cpp over them.
pub mod Transfer
pub mod Sound
mod Tests
use fz_daq.Prelude.{
  ℕ, zero, suc, ◌+◌, ◌-◌, ◌*◌, ◌/◌, ◌%◌, ◌<◌, ◌≤◌, ◌≡◌, List, [], ◌∷◌, ◌++◌, Bool, true, false,
  ◌&&◌, ◌||◌, not, ltb, ◌==◌, Option, none, some, if◌then◌else◌, length, take, drop, Result, ok,
  err, out_of_fuel, bad_index,
}

-- The return codes of src/transmitter/fdt.h.
pub data Code : Type 0 where
  tcp_ok r_tcp_socket r_tcp_bind r_tcp_listen r_tcp_timeout r_tcp_accept : Code
  r_tcp_dns r_tcp_connect r_tcp_read r_tcp_write r_fdt_receiver_not_open : Code

-- What the system does at each round of a loop: whether select finds the socket ready in time, and
-- how many bytes of at most so many send or recv passes on, if it does not fail.
pub record Socket : Type 0 where
  pub ready : ℕ → Bool
  pub passes : ℕ → ℕ → Option ℕ

-- The documented bounds of send and recv on a blocking socket: no more bytes than asked for, and one
-- at least if any is asked for.
pub record IsSocket (sk : Socket) : Type 0 where
  pub at_most : (i k n : ℕ) → sk.passes i k ≡ some n → n ≤ k
  pub at_least : (i k n : ℕ) → sk.passes i k ≡ some n → 0 < k → 0 < n

abbrev pub tcp_wind : ℕ
tcp_wind = 32768

-- LongEnUneFois
abbrev pub chunk_size : ℕ → ℕ
chunk_size lg_buffer = if ltb tcp_wind lg_buffer then tcp_wind else lg_buffer

abbrev pub gives_up : ℕ → Socket → ℕ → Bool
gives_up timeout sk i = not (timeout == 0) && not (sk.ready i)

-- The code, `*lg_ecrit_pt`, and the bytes passed to the system, in order; `i` counts the rounds. The
-- buffer holds the `lg_buffer` bytes that are left.
unfoldable pub write_loop : ℕ → ℕ → Socket → ℕ → List ℕ → ℕ → List ℕ → Result (Code × ℕ × List ℕ)
write_loop zero timeout sk i buffer written out = err out_of_fuel
write_loop (suc fuel) timeout sk i buffer written out =
    if gives_up timeout sk i
    then ok (r_tcp_timeout, written, out)
    else elim (sk.passes i (chunk_size (length buffer))) [
      | none ↦ ok (r_tcp_write, written, out)
      | some n ↦
          let rest =
            write_loop fuel timeout sk (suc i) (drop n buffer) (written + n)
              (out ++ take n buffer) in
          if length (drop n buffer) == 0
          then ok (tcp_ok, written + n, out ++ take n buffer)
          else rest
    ]

unfoldable pub tcp_write : ℕ → Socket → List ℕ → ℕ → Result (Code × ℕ × List ℕ)
unfolding write_loop
tcp_write fuel sk buffer timeout = write_loop fuel timeout sk 0 buffer 0 []

-- The code, `*lg_recu_pt`, and the bytes put into the buffer; `incoming` are the bytes that the
-- other side sent and that have not been read, and recv passes on no more than there are.
unfoldable pub read_loop : ℕ → ℕ → Socket → ℕ → List ℕ → ℕ → ℕ → List ℕ → Result (Code × ℕ × List ℕ)
read_loop zero timeout sk i incoming lg_buffer received got = err out_of_fuel
read_loop (suc fuel) timeout sk i incoming lg_buffer received got =
    if gives_up timeout sk i
    then ok (r_tcp_timeout, received, got)
    else elim (sk.passes i (chunk_size lg_buffer)) [
      | none ↦ ok (r_tcp_read, received, got)
      | some n ↦
          let bytes = take n incoming in
          let rest =
            read_loop fuel timeout sk (suc i) (drop n incoming) (lg_buffer - length bytes)
              (received + length bytes) (got ++ bytes) in
          if length bytes == 0
          then ok (r_tcp_read, received, got)
          else if lg_buffer - length bytes == 0
          then ok (tcp_ok, received + length bytes, got ++ bytes)
          else rest
    ]

unfoldable pub tcp_read : ℕ → Socket → List ℕ → ℕ → ℕ → Result (Code × ℕ × List ℕ)
unfolding read_loop
tcp_read fuel sk incoming lg_buffer timeout = read_loop fuel timeout sk 0 incoming lg_buffer 0 []

-- The members of fdtTransmitter; a ConnectionSocket of -1 is `none`.
pub record Transmitter : Type 0 where
  pub connection_socket : Option ℕ
  pub timeout : ℕ

unfoldable pub new_transmitter : Transmitter
new_transmitter = record { connection_socket = none; timeout = 20 }

unfoldable pub set_timeout : ℕ → Transmitter → Transmitter
set_timeout t x = record x { timeout = t }

unfoldable pub is_connected : Transmitter → Bool
is_connected x = elim x.connection_socket [ none ↦ false | some s ↦ true ]

unfoldable pub disconnect : Transmitter → Transmitter
disconnect x = record x { connection_socket = none }

abbrev pub is_tcp_ok : Code → Bool
is_tcp_ok tcp_ok = true
is_tcp_ok _ = false

-- The code and the socket are what TcpOpen comes to.
unfoldable pub connect : Code → ℕ → Transmitter → Transmitter × Code
unfolding disconnect
connect code s x =
    let y = disconnect x in
    (if is_tcp_ok code then record y { connection_socket = some s } else y, code)

-- `TcpWrite` on the socket -1: `FD_SET` writes outside the set; without a timeout there is no select,
-- and the system's send fails.
unfoldable pub write_closed : ℕ → Result (Code × ℕ × List ℕ)
write_closed timeout = if timeout == 0 then ok (r_tcp_write, 0, []) else err bad_index

-- The bytes are passed to `TcpWrite` with a timeout in units of 200 ms.
unfoldable pub send : ℕ → Socket → List ℕ → Transmitter → Result (Code × ℕ × List ℕ)
unfolding tcp_write write_closed
send fuel sk bytes x = elim x.connection_socket [
  | none ↦ write_closed (x.timeout * 5)
  | some s ↦ tcp_write fuel sk bytes (x.timeout * 5)
]

-- The four bytes of an unsigned int, the low one first.
unfoldable pub send_cmd : ℕ → Socket → ℕ → Transmitter → Result (Code × ℕ × List ℕ)
unfolding send
send_cmd fuel sk cmd x =
    send fuel sk (cmd % 256 ∷ cmd / 256 % 256 ∷ cmd / 65536 % 256 ∷ cmd / 16777216 % 256 ∷ []) x

abbrev pub fdt_hello : ℕ
fdt_hello = 0

abbrev pub fdt_disconnect : ℕ
fdt_disconnect = 0xFFFFFFFF

unfoldable pub send_hello : ℕ → Socket → Transmitter → Result (Code × ℕ × List ℕ)
unfolding send_cmd
send_hello fuel sk x = send_cmd fuel sk fdt_hello x

unfoldable pub send_disconnect : ℕ → Socket → Transmitter → Result (Code × ℕ × List ℕ)
unfolding send_cmd
send_disconnect fuel sk x = send_cmd fuel sk fdt_disconnect x
