-- ===== src/Mfm/Sends.antt =====
-- What a frame that is sent comes to: `fdtTransmitter::send` in the loop of
-- src/transmitter/main.cpp.
use fz_daq.Prelude.{
  ℕ, ◌*◌, ◌<◌, ◌≡◌, ◌≢◌, refl, ap, ◌⊎◌, inl, inr, List, [], if◌then◌else◌, arith, length, Option,
  none, some, Result, ok, err, Gives, Gives-bind, ◌>>=◌, ◌==◌, Bool-cases, Option-cases, bad_index,
}
use fz_daq.Tcp.{
  Code, r_tcp_write, Socket, IsSocket, Transmitter, send, write_closed, tcp_write, connect,
  is_tcp_ok,
}
use fz_daq.Tcp.Transfer.{IsPrefix, Passed, tcp_write-Passed}
use fz_daq.Mfm.{after_send}

-- The whole frame is passed on and the connection is kept; or only the first bytes of it are, and
-- the connection is what TcpOpen then comes to.
abbrev pub Transmitted : Code × ℕ → List ℕ → Transmitter → Transmitter × List ℕ → Type 0
Transmitted (open_code, s) xs x (y, out) =
    ((out ≡ xs) × (y ≡ x)) ⊎ (IsPrefix out xs × (y ≡ (connect open_code s x).0))

after_send-Transmitted :
    (opened : Code × ℕ) (xs : List ℕ) (x : Transmitter) (r : Code × ℕ × List ℕ)
    → Passed r_tcp_write xs r
    → Transmitted opened xs x (after_send opened x r)
unfolding after_send
after_send-Transmitted (c, s) xs x (code, n, out) (h, inl (e, p)) =
    inl (p, ap (λ k. if is_tcp_ok k then x else (connect c s x).0) e)
after_send-Transmitted (c, s) xs x (code, n, out) (h, inr (inl e, p)) =
    inr (p, ap (λ k. if is_tcp_ok k then x else (connect c s x).0) e)
after_send-Transmitted (c, s) xs x (code, n, out) (h, inr (inr e, p)) =
    inr (p, ap (λ k. if is_tcp_ok k then x else (connect c s x).0) e)

-- What a round comes to on such a socket, or without one: then the select for a frame writes outside
-- the set of sockets; and without a timeout nothing is passed on and a new connection is tried.
abbrev pub Rounded :
    Option ℕ → Code × ℕ → List ℕ → Transmitter → Result (Transmitter × List ℕ) → Type 0
Rounded (some s) opened xs x m = Gives (Transmitted opened xs x) m
Rounded none (open_code, s) xs x m =
    ((x.timeout ≢ 0) × (m ≡ err bad_index))
    ⊎ ((x.timeout ≡ 0) × (m ≡ ok ((connect open_code s x).0, [])))

pub send_open :
    (fuel s : ℕ) (sk : Socket) (xs : List ℕ) (x : Transmitter)
    → x.connection_socket ≡ some s
    → send fuel sk xs x ≡ tcp_write fuel sk xs (x.timeout * 5)
unfolding send
send_open fuel s sk xs x e = rw (e, send) refl

send_closed :
    (fuel : ℕ) (sk : Socket) (xs : List ℕ) (x : Transmitter)
    → x.connection_socket ≡ none
    → send fuel sk xs x ≡ write_closed (x.timeout * 5)
unfolding send
send_closed fuel sk xs x e = rw (e, send) refl

closed-Rounded :
    (fuel : ℕ) (sk : Socket) (opened : Code × ℕ) (xs : List ℕ) (x : Transmitter)
    → x.connection_socket ≡ none
    → Rounded none opened xs x (send fuel sk xs x >>= λ r. ok (after_send opened x r))
unfolding after_send write_closed
closed-Rounded fuel sk (c, s) xs x e = elim (Bool-cases (x.timeout * 5 == 0)) [
  | inl z ↦ rw (send_closed fuel sk xs x e, z) (inr (ground arith, refl))
  | inr z ↦ rw (send_closed fuel sk xs x e, z) (inl (ground arith, refl))
]

open-Rounded :
    (fuel s : ℕ) (sk : Socket) (opened : Code × ℕ) (xs : List ℕ) (x : Transmitter)
    → IsSocket sk
    → length xs < fuel
    → x.connection_socket ≡ some s
    → Gives (Transmitted opened xs x) (send fuel sk xs x >>= λ r. ok (after_send opened x r))
open-Rounded fuel s sk opened xs x k f e = rw (send_open fuel s sk xs x e) (
    Gives-bind (Passed r_tcp_write xs) (Transmitted opened xs x)
      (tcp_write fuel sk xs (x.timeout * 5)) (λ r. ok (after_send opened x r))
      (tcp_write-Passed sk fuel (x.timeout * 5) xs k f)
      λ r p. after_send-Transmitted opened xs x r p)

Rounded-eq :
    {c d : Option ℕ} (opened : Code × ℕ) (xs : List ℕ) (x : Transmitter)
    (m : Result (Transmitter × List ℕ))
    → c ≡ d
    → Rounded d opened xs x m
    → Rounded c opened xs x m
Rounded-eq opened xs x m e h = rw e h

pub send-Rounded :
    (fuel : ℕ) (sk : Socket) (opened : Code × ℕ) (xs : List ℕ) (x : Transmitter)
    → IsSocket sk
    → length xs < fuel
    → Rounded x.connection_socket opened xs x
        (send fuel sk xs x >>= λ r. ok (after_send opened x r))
send-Rounded fuel sk opened xs x k f = elim (Option-cases x.connection_socket) [
  | inl e ↦ Rounded-eq opened xs x _ e (closed-Rounded fuel sk opened xs x e)
  | inr (s, e) ↦ Rounded-eq opened xs x _ e (open-Rounded fuel s sk opened xs x k f e)
]
