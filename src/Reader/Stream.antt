-- ===== src/Reader/Stream.antt =====
-- What becomes of the words: `udp_handler` of src/reader/FzReader.cpp loses none but those it
-- discards.
use fz_daq.Prelude.{
  ℕ, zero, suc, ◌+◌, ◌-◌, ◌/◌, ◌≤◌, ◌≢◌, some, none, get_elem?, ◌≡◌, refl, ap, sym, ◌∙◌, ◌⊎◌, inl,
  inr, Bool, true, false, List, [], ◌∷◌, ◌++◌, Result, ok, err, ◌>>=◌, length, arith, Bool-cases,
  ltb, if◌then◌else◌,
}
use mathlib.Core.List.{append_assoc}
use fz_daq.Fsm.Control.Step.{Returns}
use fz_daq.Reader.{
  Reader, max_event_size, record_event, send_event, put_word, put_words, payload, udp_handler,
  buffer_words, evlen_of, offset_of,
}

-- The words of the messages, and then those of the chunk.
abbrev pub flat : List (List ℕ) → List ℕ → List ℕ
flat [] c = c
flat (m ∷ ms) c = m ++ flat ms c

abbrev pub stream : Reader → List ℕ
stream r = flat r.sent r.chunk

append_nil : (xs : List ℕ) → xs ++ [] ≡ xs
append_nil [] = refl
append_nil (x ∷ xs) = ap (λ ys. x ∷ ys) (append_nil xs)

flat-append : (ms : List (List ℕ)) (c d : List ℕ) → flat ms (c ++ d) ≡ flat ms c ++ d
flat-append [] c d = refl
flat-append (m ∷ ms) c d =
    ap (λ xs. m ++ xs) (flat-append ms c d) ∙ sym (append_assoc m (flat ms c) d)

flat_send : (ms : List (List ℕ)) (c : List ℕ) → flat (ms ++ c ∷ []) [] ≡ flat ms c
flat_send [] c = append_nil c
flat_send (m ∷ ms) c = ap (λ xs. m ++ xs) (flat_send ms c)

pub record_event-keeps :
    (r : Reader) → Returns (λ t. (t.sent ≡ r.sent) × (t.chunk ≡ r.chunk)) (record_event r)
unfolding record_event
record_event-keeps r = ground arith

send_event-stream : (r : Reader) → stream (send_event r) ≡ stream r
unfolding send_event
send_event-stream r = flat_send r.sent r.chunk

-- The rule of composition for a property of the value returned.
pub Returns-bind :
    (P Q : Reader → Type 0) (m : Result Reader) (f : Reader → Result Reader)
    → Returns P m
    → ((t : Reader) → P t → Returns Q (f t))
    → Returns Q (m >>= f)
Returns-bind P Q (ok t) f h k = k t h
Returns-bind P Q (err e) f h k = tt

pub Returns-if :
    (P : Reader → Type 0) (b : Bool) (x y : Result Reader)
    → Returns P x
    → Returns P y
    → Returns P (if b then x else y)
Returns-if P true x y h k = h
Returns-if P false x y h k = k

pub Returns-map :
    (P Q : Reader → Type 0) (m : Result Reader)
    → ((t : Reader) → P t → Q t)
    → Returns P m
    → Returns Q m
Returns-map P Q (ok t) f h = f t h
Returns-map P Q (err e) f h = tt

put_word-stream : (w : ℕ) (r : Reader) → Returns (λ t. stream t ≡ stream r ++ w ∷ []) (put_word w r)
unfolding put_word
put_word-stream w r =
    ground (arith, flat-append r.sent r.chunk (w ∷ []), flat_send r.sent (r.chunk ++ w ∷ []))

one_more : (a b c : List ℕ) (w : ℕ) (ws : List ℕ) → b ≡ a ++ w ∷ [] → c ≡ b ++ ws → c ≡ a ++ w ∷ ws
one_more a b c w ws h k = k ∙ ap (λ xs. xs ++ ws) h ∙ append_assoc a (w ∷ []) ws

put_words-stream :
    (ws : List ℕ) (r : Reader) → Returns (λ t. stream t ≡ stream r ++ ws) (put_words ws r)
unfolding put_words
put_words-stream [] r = sym (append_nil (stream r))
put_words-stream (w ∷ ws) r =
    Returns-bind (λ t. stream t ≡ stream r ++ w ∷ []) (λ t. stream t ≡ stream r ++ w ∷ ws)
      (put_word w r) (put_words ws) (put_word-stream w r)
      λ t h.
        Returns-map (λ u. stream u ≡ stream t ++ ws) (λ u. stream u ≡ stream r ++ w ∷ ws)
          (put_words ws t) (λ u k. one_more (stream r) (stream t) (stream u) w ws h k)
          (put_words-stream ws t)

-- The number of the first word that is kept: the datagram has two or three words before it.
abbrev Begins : (ℕ → ℕ) → ℕ → Type 0
Begins memory k =
    ((k ≡ 3) × ((memory 0 ≡ 0x8080) ⊎ (memory 1 ≡ 0x8080) ⊎ (memory 2 ≡ 0x8080)))
    ⊎ ((k ≡ 2) × (memory 0 ≢ 0x8080) × (memory 1 ≢ 0x8080) × (memory 2 ≢ 0x8080))

-- The words of a datagram of `len` bytes from the one numbered `k` to the last, which may be half a
-- word.
abbrev IsRest : (ℕ → ℕ) → ℕ → ℕ → List ℕ → Type 0
IsRest memory len k ws =
    (length ws ≡ (len + 1) / 2 - k)
    × ((i : ℕ) → get_elem? ws i ≡ (if ltb i (length ws) then some (memory (k + i)) else none))

-- What a handled datagram comes to for the words `ws` of it.
abbrev pub Streamed : Reader → List ℕ → Result Reader → Type 0
Streamed r ws = Returns λ t.
    (stream t ≡ stream r ++ ws)
    ⊎ ((t.chunk ≡ [])
        × ((lost : List ℕ) × (max_event_size ≤ length lost) × (flat t.sent lost ≡ stream r ++ ws)))

-- For the words of the datagram behind its header.
abbrev pub KeepsStream : (ℕ → ℕ) → ℕ → Reader → Result Reader → Type 0
KeepsStream memory len r m =
    (k : ℕ) × (ws : List ℕ) × Begins memory k × IsRest memory len k ws × Streamed r ws m

length-buffer_words : (memory : ℕ → ℕ) (i n : ℕ) → length (buffer_words memory i n) ≡ n
unfolding buffer_words
length-buffer_words memory i zero = refl
length-buffer_words memory i (suc n) = ap suc (length-buffer_words memory (suc i) n)

get_elem?-buffer_words :
    (memory : ℕ → ℕ) (j n i : ℕ)
    → get_elem? (buffer_words memory j n) i ≡ (if ltb i n then some (memory (j + i)) else none)
unfolding buffer_words
get_elem?-buffer_words memory j zero i = ground arith
get_elem?-buffer_words memory j (suc n) zero =
    let first : ltb 0 (suc n) ≡ true = ground arith in
    let e : j + 0 ≡ j = omega arith in rw (first, e) refl
get_elem?-buffer_words memory j (suc n) (suc i) =
    let e : j + suc i ≡ suc j + i = omega arith in
    rw e (get_elem?-buffer_words memory (suc j) n i ∙ ground arith)

payload-IsRest :
    (memory : ℕ → ℕ) (len : ℕ) → IsRest memory len (offset_of memory) (payload memory len)
unfolding payload
payload-IsRest memory len =
    let n = evlen_of len - offset_of memory in
    let h = length-buffer_words memory (offset_of memory) n in
    let e : evlen_of len ≡ (len + 1) / 2 = ground arith in
    (
      h ∙ ap (λ m. m - offset_of memory) e,
      λ i. rw h (get_elem?-buffer_words memory (offset_of memory) n i),
    )

offset_of-Begins : (memory : ℕ → ℕ) → Begins memory (offset_of memory)
offset_of-Begins memory = ground arith

-- If a datagram is handled without a fault, the messages sent and the words kept for the next, put
-- together, grow by all words of the datagram behind its two or three first ones, to the last one
-- and in their order, except that from the size limit on the words kept are discarded.
pub udp_handler-stream :
    (memory : ℕ → ℕ) (len : ℕ) (r : Reader) → KeepsStream memory len r (udp_handler memory len r)
unfolding udp_handler
udp_handler-stream memory len r =
    let ws = payload memory len in
    let streamed : Streamed r ws (udp_handler memory len r) =
      Returns-bind (λ t. stream t ≡ stream r ++ ws) _ (put_words ws r) _ (put_words-stream ws r)
        λ t h. elim (Bool-cases (ltb (length t.chunk) max_event_size)) [
          | inl e ↦ rw e (inl h)
          | inr e ↦ rw e (inr (refl, (t.chunk, ground arith, h)))
        ] in
    (offset_of memory, ws, offset_of-Begins memory, payload-IsRest memory len, streamed)
