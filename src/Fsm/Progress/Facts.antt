-- ===== src/Fsm/Progress/Facts.antt =====
-- Where the machine stands in the buffer, and what it means that a call ends further on.
use fz_daq.Prelude.{
  ℕ, Option-cases, inl, inr, zero, suc, ◌+◌, ◌<◌, ◌≤◌, ◌≡◌, List, [], ◌∷◌, length, get_elem?, some,
  arith, Result, ok, err, dangling, over_read, bad_index, out_of_fuel, ◌>>=◌,
}
use fz_daq.Fsm.State.{Fsm, u32, word, next_event_word, fmt_tag}

-- The call ends, in the sense of the fuel, and a normal return satisfies `P`.
abbrev pub Ends {ℓ} : {A : Type ℓ} → (A → Type 0) → Result A → Type 0
Ends P (ok a) = P a
Ends P (err dangling) = Unit {0}
Ends P (err over_read) = Unit {0}
Ends P (err bad_index) = Unit {0}
Ends P (err out_of_fuel) = ⊥

pub Ends-bind {ℓ κ} :
    {A : Type ℓ} {B : Type κ} (P : A → Type 0) (Q : B → Type 0) (m : Result A) (f : A → Result B)
    → Ends P m
    → ((a : A) → P a → Ends Q (f a))
    → Ends Q (m >>= f)
Ends-bind P Q (ok a) f h k = k a h
Ends-bind P Q (err dangling) f h k = tt
Ends-bind P Q (err over_read) f h k = tt
Ends-bind P Q (err bad_index) f h k = tt
Ends-bind P Q (err out_of_fuel) f h k = elim h [ ]

-- The same buffer of at most `n` words, in the tagged format.
abbrev pub Frame : ℕ → ℕ → Fsm → Type 0
Frame n size s = (length s.event ≡ n) × (s.event_size ≡ size) × (s.evformat ≡ fmt_tag)

-- At the word `i` of the buffer or behind it.
abbrev pub From : ℕ → ℕ → ℕ → Fsm → Type 0
From n size i s = Frame n size s × (i ≤ s.event_index) × (s.event_index < n)

get_elem?-lt {ℓ} :
    {A : Type ℓ} (xs : List A) (i : ℕ) (a : A) → get_elem? xs i ≡ some a → i < length xs
get_elem?-lt [] i a e = cc
get_elem?-lt (x ∷ xs) zero a e = omega arith
get_elem?-lt (x ∷ xs) (suc i) a e = omega (arith, get_elem?-lt xs i a e)

-- A word that can be read lies in the buffer.
pub word-Ends : (s : Fsm) → Ends (λ _. s.event_index < length s.event) (word s)
word-Ends s = elim (Option-cases (get_elem? s.event s.event_index)) [
  | inl e ↦ ground arith
  | inr (w, e) ↦ rw e (get_elem?-lt s.event s.event_index w e)
]

-- The words of a buffer of less than 2^32 words are numbered without a wrap.
pub next-Ends :
    (n size i : ℕ) (s : Fsm)
    → n < 4294967296
    → From n size i s
    → Ends (From n size (suc i)) (next_event_word s)
next-Ends n size i s h f =
    let t = record s { event_index = u32 (s.event_index + 1) } in
    Ends-bind (λ _. t.event_index < length s.event) (From n size (suc i)) (word t) _ (word-Ends t)
      λ w k. ground arith
