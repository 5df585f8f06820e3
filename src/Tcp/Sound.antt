-- ===== src/Tcp/Sound.antt =====
-- A transfer over a connection on which nothing fails: `TcpWrite` of src/transmitter/Tcp.cpp.
use fz_daq.Prelude.{
  ℕ, zero, suc, ◌+◌, ◌<◌, ◌≡◌, refl, inl, inr, List, [], ◌++◌, true, false, ◌==◌, length, take,
  drop, some, Gives, arith, Bool-cases,
}
use fz_daq.Tcp.{tcp_ok, Socket, IsSocket, chunk_size, gives_up, write_loop, tcp_write}
use fz_daq.Tcp.Transfer.{length-drop, chunk_size-pos}

-- A socket that is ready in time at every round and never fails.
pub record IsSound (sk : Socket) : Type 0 where
  pub socket : IsSocket sk
  pub always : (i : ℕ) → sk.ready i ≡ true
  pub passes_some : (i k : ℕ) → (n : ℕ) × (sk.passes i k ≡ some n)

write_loop-ok :
    (sk : Socket) (fuel timeout i : ℕ) (buffer : List ℕ) (written : ℕ) (out : List ℕ)
    → IsSound sk
    → length buffer < fuel
    → Gives (λ r. r.0 ≡ tcp_ok) (write_loop fuel timeout sk i buffer written out)
unfolding write_loop
write_loop-ok sk zero timeout i buffer written out s f = absurd (omega arith)
write_loop-ok sk (suc fuel) timeout i buffer written out s f =
    let go : gives_up timeout sk i ≡ false = ground (arith, s.always i) in
    let (n, x) = s.passes_some i (chunk_size (length buffer)) in
    let l = length-drop n buffer in
    rw (go, x)
      (elim (Bool-cases (length (drop n buffer) == 0)) [
        | inl y ↦ rw y refl
        | inr y ↦ rw y (
            let left : 0 < length (drop n buffer) = ground (arith, y) in
            let some_byte : 0 < n =
              s.socket.at_least i (chunk_size (length buffer)) n x
                (chunk_size-pos (length buffer) (omega (arith, l, left))) in
            write_loop-ok sk fuel timeout (suc i) (drop n buffer) (written + n)
              (out ++ take n buffer) s (omega (arith, l, f, left, some_byte)))
      ])

pub tcp_write-ok :
    (sk : Socket) (fuel timeout : ℕ) (buffer : List ℕ)
    → IsSound sk
    → length buffer < fuel
    → Gives (λ r. r.0 ≡ tcp_ok) (tcp_write fuel sk buffer timeout)
unfolding tcp_write
tcp_write-ok sk fuel timeout buffer s f = write_loop-ok sk fuel timeout 0 buffer 0 [] s f
