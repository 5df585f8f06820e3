-- ===== src/Tcp/Tests.antt =====
-- Sockets that pass a few bytes at a time, and the transfer's theorem on them.
use fz_daq.Prelude.{
  ℕ, ◌<◌, ◌≡◌, ◌==◌, refl, List, [], ◌∷◌, true, not, ltb, Option, some, if◌then◌else◌, length, ok,
  Gives, arith,
}
use fz_daq.Tcp.{
  Socket, IsSocket, tcp_ok, r_tcp_timeout, r_tcp_read, r_tcp_write, tcp_write, tcp_read, write_loop,
  read_loop,
}
use fz_daq.Tcp.Transfer.{Passed, tcp_write-tcp_read}

-- A socket that is always ready and passes at most so many bytes at a time.
abbrev slow : ℕ → Socket
slow most = record { ready = λ i. true; passes = λ i k. some (if ltb most k then most else k) }

some_inj : (m n : ℕ) → ◌≡◌ {A = Option ℕ} (some m) (some n) → m ≡ n
some_inj m n e = cc

slow-IsSocket : (most : ℕ) → 0 < most → IsSocket (slow most)
slow-IsSocket most h = record {
  at_most = λ i k n e. let f = some_inj (if ltb most k then most else k) n e in ground arith;
  at_least = λ i k n e p. let f = some_inj (if ltb most k then most else k) n e in ground arith;
}

-- The same, which is not ready in time at the third round.
abbrev late : Socket
late = record (slow 2) { ready = λ i. not (i == 2) }

late-IsSocket : IsSocket late
late-IsSocket = record {
  at_most = (slow-IsSocket 2 (omega arith)).at_most;
  at_least = (slow-IsSocket 2 (omega arith)).at_least;
}

abbrev packet : List ℕ
packet = 1 ∷ 2 ∷ 3 ∷ 4 ∷ 5 ∷ []

written_whole : tcp_write 6 (slow 2) packet 50 ≡ ok (tcp_ok, 5, packet)
unfolding tcp_write write_loop
written_whole = refl

written_late : tcp_write 6 late packet 50 ≡ ok (r_tcp_timeout, 4, 1 ∷ 2 ∷ 3 ∷ 4 ∷ [])
unfolding tcp_write write_loop
written_late = refl

-- The connection ends after four of the five bytes.
read_cut_off : tcp_read 6 (slow 3) (1 ∷ 2 ∷ 3 ∷ 4 ∷ []) 5 0 ≡ ok (r_tcp_read, 4, 1 ∷ 2 ∷ 3 ∷ 4 ∷ [])
unfolding tcp_read read_loop
read_cut_off = refl

tcp_write-tcp_read_example :
    Gives
      (λ w.
        Passed r_tcp_write packet w
        × Gives (Passed r_tcp_read packet) (tcp_read 6 (slow 3) w.2 (length packet) 0))
      (tcp_write 6 late packet 50)
tcp_write-tcp_read_example =
    tcp_write-tcp_read late (slow 3) 6 50 0 packet late-IsSocket (slow-IsSocket 3 (omega arith))
      (omega arith)
