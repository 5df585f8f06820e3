-- ===== src/Tcp/Transfer.antt =====
-- What arrives of what is sent: `TcpWrite` and `TcpRead` of src/transmitter/Tcp.cpp, one after the
-- other.
use fz_daq.Prelude.{
  ℕ, zero, suc, ◌+◌, ◌-◌, ◌<◌, ◌≤◌, ◌≡◌, refl, sym, ap, ◌∙◌, ◌⊎◌, inl, inr, List, [], ◌∷◌, ◌++◌,
  ◌==◌, length, length-append, take, drop, Result, ok, err, Gives, arith, if_both, Bool-cases,
  Option-cases,
}
use mathlib.Core.List.{append_assoc}
use fz_daq.Tcp.{
  Code, tcp_ok, r_tcp_timeout, r_tcp_read, r_tcp_write, Socket, IsSocket, chunk_size, gives_up,
  write_loop, tcp_write, read_loop, tcp_read,
}

append_nil : (xs : List ℕ) → xs ++ [] ≡ xs
append_nil [] = refl
append_nil (x ∷ xs) = ap (λ ys. x ∷ ys) (append_nil xs)

take-drop : (n : ℕ) (xs : List ℕ) → take n xs ++ drop n xs ≡ xs
take-drop zero xs = refl
take-drop (suc n) [] = refl
take-drop (suc n) (x ∷ xs) = ap (λ ys. x ∷ ys) (take-drop n xs)

pub length-drop : (n : ℕ) (xs : List ℕ) → length (drop n xs) ≡ length xs - n
length-drop zero xs = omega arith
length-drop (suc n) [] = omega arith
length-drop (suc n) (x ∷ xs) = omega (arith, length-drop n xs)

length-take :
    (n : ℕ) (xs : List ℕ)
    → (length (take n xs) ≤ n) × (length (take n xs) ≡ length xs - (length xs - n))
length-take zero xs = (omega arith, omega arith)
length-take (suc n) [] = (omega arith, omega arith)
length-take (suc n) (x ∷ xs) =
    let ih = length-take n xs in (omega (arith, ih.0), omega (arith, ih.1, ih.0))

no_length : (xs : List ℕ) → length xs ≡ 0 → xs ≡ []
no_length [] h = refl
no_length (x ∷ xs) h = absurd (omega arith)

-- The first bytes of a list.
abbrev pub IsPrefix : List ℕ → List ℕ → Type 0
IsPrefix xs ys = (zs : List ℕ) × (xs ++ zs ≡ ys)

-- All was passed on, or the first bytes only and the code says that the loop gave up.
abbrev pub Passed : Code → List ℕ → Code × ℕ × List ℕ → Type 0
Passed failed all (code, count, bytes) =
    (count ≡ length bytes)
    × (((code ≡ tcp_ok) × (bytes ≡ all))
        ⊎ (((code ≡ r_tcp_timeout) ⊎ (code ≡ failed)) × IsPrefix bytes all))

-- What has been read so far, of so many bytes.
abbrev Got : ℕ → List ℕ → Code × ℕ × List ℕ → Type 0
Got want all (code, count, bytes) =
    (count ≡ length bytes)
    × IsPrefix bytes all
    × (((code ≡ tcp_ok) × (length bytes ≡ want)) ⊎ (code ≡ r_tcp_timeout) ⊎ (code ≡ r_tcp_read))

chunk_size-le : (k : ℕ) → chunk_size k ≤ k
chunk_size-le k = ground arith

pub chunk_size-pos : (k : ℕ) → 0 < k → 0 < chunk_size k
chunk_size-pos k h = ground arith

module _ (sk : Socket) (s : IsSocket sk) where
  write_loop-Passed :
      (fuel timeout i : ℕ) (all buffer : List ℕ) (written : ℕ) (out : List ℕ)
      → length buffer < fuel
      → out ++ buffer ≡ all
      → written ≡ length out
      → Gives (Passed r_tcp_write all) (write_loop fuel timeout sk i buffer written out)
  unfolding write_loop
  write_loop-Passed zero timeout i all buffer written out f e w = absurd (omega arith)
  write_loop-Passed (suc fuel) timeout i all buffer written out f e w =
      if_both (Gives (Passed r_tcp_write all)) (gives_up timeout sk i) _ _
        (λ _. (w, inr (inl refl, (buffer, e))))
        λ _. elim (Option-cases (sk.passes i (chunk_size (length buffer)))) [
          | inl x ↦ rw x (w, inr (inr refl, (buffer, e)))
          | inr (n, x) ↦ rw x (
              let c = chunk_size-le (length buffer) in
              let most = s.at_most i (chunk_size (length buffer)) n x in
              let least = s.at_least i (chunk_size (length buffer)) n x in
              let w2 : written + n ≡ length (out ++ take n buffer) =
                omega
                  (arith, w, c, most, length-append out (take n buffer), length-take n buffer) in
              let e2 : (out ++ take n buffer) ++ drop n buffer ≡ all =
                append_assoc out (take n buffer) (drop n buffer)
                ∙ ap (λ b. out ++ b) (take-drop n buffer)
                ∙ e in
              elim (Bool-cases (length (drop n buffer) == 0)) [
                | inl y ↦ rw y (
                  w2,
                  inl (
                    refl,
                    sym (append_nil (out ++ take n buffer))
                        ∙ ap (λ b. (out ++ take n buffer) ++ b)
                            (sym (no_length (drop n buffer) (ground (arith, y))))
                        ∙ e2,
                  ),
                )
                | inr y ↦ rw y (
                    let left : 0 < length (drop n buffer) = ground (arith, y) in
                    let l = length-drop n buffer in
                    let some_byte : 0 < n =
                      least (chunk_size-pos (length buffer) (omega (arith, l, left))) in
                    write_loop-Passed fuel timeout (suc i) all (drop n buffer) (written + n)
                      (out ++ take n buffer) (omega (arith, l, f, left, some_byte)) e2 w2)
              ])
        ]

  read_loop-Got :
      (fuel timeout i want lg : ℕ) (all incoming : List ℕ) (received : ℕ) (got : List ℕ)
      → lg < fuel
      → got ++ incoming ≡ all
      → received ≡ length got
      → length got + lg ≡ want
      → Gives (Got want all) (read_loop fuel timeout sk i incoming lg received got)
  unfolding read_loop
  read_loop-Got zero timeout i want lg all incoming received got f e r l = absurd (omega arith)
  read_loop-Got (suc fuel) timeout i want lg all incoming received got f e r l =
      if_both (Gives (Got want all)) (gives_up timeout sk i) _ _
        (λ _. (r, (incoming, e), inr (inl refl)))
        λ _. elim (Option-cases (sk.passes i (chunk_size lg))) [
          | inl x ↦ rw x (r, (incoming, e), inr (inr refl))
          | inr (n, x) ↦ rw x (
              let bytes = take n incoming in
              let t = length-take n incoming in
              let most = s.at_most i (chunk_size lg) n x in
              let la = length-append got bytes in
              let few : length bytes ≤ lg = omega (arith, t.0, most, chunk_size-le lg) in
              let e2 : (got ++ bytes) ++ drop n incoming ≡ all =
                append_assoc got bytes (drop n incoming)
                ∙ ap (λ b. got ++ b) (take-drop n incoming)
                ∙ e in
              if_both (Gives (Got want all)) (length bytes == 0) _ _
                (λ _. (r, (incoming, e), inr (inr refl)))
                λ y.
                  if_both (Gives (Got want all)) (lg - length bytes == 0) _ _
                    (λ z. (
                      omega (arith, r, la),
                      (drop n incoming, e2),
                      inl (refl, ground (arith, z, la, l, few)),
                    ))
                    λ z.
                      let some_byte : 0 < length bytes = ground (arith, y) in
                      read_loop-Got fuel timeout (suc i) want (lg - length bytes) all
                        (drop n incoming) (received + length bytes) (got ++ bytes)
                        (omega (arith, f, some_byte, few)) e2 (omega (arith, r, la))
                        (omega (arith, la, l, few)))
        ]

-- A prefix that is as long as the whole.
whole : (xs ys : List ℕ) → IsPrefix xs ys → length xs ≡ length ys → xs ≡ ys
whole xs ys (zs, e) h =
    let z : length zs ≡ 0 = omega (arith, length-append xs zs, ap length e, h) in
    sym (append_nil xs) ∙ ap (λ b. xs ++ b) (sym (no_length zs z)) ∙ e

IsPrefix-trans : (xs ys zs : List ℕ) → IsPrefix xs ys → IsPrefix ys zs → IsPrefix xs zs
IsPrefix-trans xs ys zs (a, e) (b, f) = (a ++ b, sym (append_assoc xs a b) ∙ ap (λ c. c ++ b) e ∙ f)

Passed-IsPrefix :
    (failed : Code) (all : List ℕ) (r : Code × ℕ × List ℕ) → Passed failed all r → IsPrefix r.2 all
Passed-IsPrefix failed all (code, count, bytes) (c, inl (e, f)) = ([], append_nil bytes ∙ f)
Passed-IsPrefix failed all (code, count, bytes) (c, inr (e, f)) = f

Got-Passed :
    (all sent : List ℕ) (r : Code × ℕ × List ℕ)
    → IsPrefix sent all
    → Got (length all) sent r
    → Passed r_tcp_read all r
Got-Passed all sent (code, count, bytes) p (c, q, inl (e, l)) =
    (c, inl (e, whole bytes all (IsPrefix-trans bytes sent all q p) l))
Got-Passed all sent (code, count, bytes) p (c, q, inr e) =
    (c, inr (e, IsPrefix-trans bytes sent all q p))

pub Gives-map :
    {A : Type 0} (P Q : A → Type 0) (m : Result A) → Gives P m → ((a : A) → P a → Q a) → Gives Q m
Gives-map P Q (ok a) h k = k a h
Gives-map P Q (err e) h k = h

pub tcp_write-Passed :
    (sk : Socket) (fuel timeout : ℕ) (buffer : List ℕ)
    → IsSocket sk
    → length buffer < fuel
    → Gives (Passed r_tcp_write buffer) (tcp_write fuel sk buffer timeout)
unfolding tcp_write
tcp_write-Passed sk fuel timeout buffer s f =
    write_loop-Passed sk s fuel timeout 0 buffer buffer 0 [] f refl refl

-- With a socket on each side that keeps the documented bounds of send and recv, for whatever parts
-- the system makes and whatever fails or is late: a write ends after at most a round for each byte
-- and one more, and a read of as many bytes from what the write has passed on ends in as many. Both
-- count what they passed; the write either returns OK and has passed on all the bytes, in order, or
-- returns R_TCP_TIMEOUT or R_TCP_WRITE and has passed on the first of them, and likewise the read,
-- with R_TCP_READ, of the bytes that were to be written.
pub tcp_write-tcp_read :
    (out_sk in_sk : Socket) (fuel timeout late : ℕ) (buffer : List ℕ)
    → IsSocket out_sk
    → IsSocket in_sk
    → length buffer < fuel
    → Gives
        (λ w.
          Passed r_tcp_write buffer w
          × Gives (Passed r_tcp_read buffer) (tcp_read fuel in_sk w.2 (length buffer) late))
        (tcp_write fuel out_sk buffer timeout)
unfolding tcp_write tcp_read
tcp_write-tcp_read out_sk in_sk fuel timeout late buffer s t f =
    Gives-map (Passed r_tcp_write buffer) _ _
      (write_loop-Passed out_sk s fuel timeout 0 buffer buffer 0 [] f refl refl)
      λ w p. (
        p,
        Gives-map (Got (length buffer) w.2) (Passed r_tcp_read buffer) _
            (read_loop-Got in_sk t fuel late 0 (length buffer) (length buffer) w.2 w.2 0 [] f refl
              refl (omega arith))
            λ r g. Got-Passed buffer w.2 r (Passed-IsPrefix r_tcp_write buffer w p) g,
      )
