-- ===== src/Reader/Rounds.antt =====
-- Rounds of the reader's thread: `process` of src/reader/FzReader.cpp.
use fz_daq.Prelude.{ℕ, List, [], ◌∷◌, Result, ok, err, ◌>>=◌, Returns, if_both}
use fz_daq.Reader.{Reader, ReaderThread, udp_handler, handle_all, reader_round, polls}
use fz_daq.Reader.Stream.{Returns-bind}
use fz_daq.Reader.Framing.{Framed, udp_handler-Framed}
use fz_daq.Reader.Counts.{Counted, udp_handler-Counted}

abbrev Sound : Reader → Type 0
Sound r = Framed r × Counted r

Returns-and :
    {A : Type 0} (P Q : A → Type 0) (m : Result A)
    → Returns P m
    → Returns Q m
    → Returns (λ a. P a × Q a) m
Returns-and P Q (ok a) p q = (p, q)
Returns-and P Q (err e) p q = tt

handle_all-Sound :
    (ds : List ((ℕ → ℕ) × ℕ)) (r : Reader) → Sound r → Returns Sound (handle_all ds r)
unfolding handle_all
handle_all-Sound [] r s = s
handle_all-Sound ((memory, len) ∷ ds) r s =
    Returns-bind Sound Sound (udp_handler memory len r) (handle_all ds)
      (Returns-and Framed Counted (udp_handler memory len r) (udp_handler-Framed memory len r s.0)
        (udp_handler-Counted memory len r s.1))
      λ t k. handle_all-Sound ds t k

in_thread :
    (t : ReaderThread) (m : Result Reader)
    → Returns Sound m
    → Returns (λ u. Sound u.handler) (m >>= λ r. ok (record t { handler = r }))
in_thread t (ok r) s = s
in_thread t (err e) s = tt

-- A round that is not stopped by a fault, with however many datagrams, keeps the messages whole
-- events, the chunk the beginning of one, and the counters those of what was sent.
pub reader_round-Sound :
    (ds : List ((ℕ → ℕ) × ℕ)) (t : ReaderThread)
    → Framed t.handler
    → Counted t.handler
    → Returns (λ u. Framed u.handler × Counted u.handler) (reader_round ds t)
unfolding reader_round
reader_round-Sound ds t f c =
    if_both (Returns (λ (u : ReaderThread). Sound u.handler)) (polls t.rcstate) _ _
      (λ _. in_thread t (handle_all ds t.handler) (handle_all-Sound ds t.handler (f, c)))
      λ _. (f, c)
