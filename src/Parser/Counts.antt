-- ===== src/Parser/Counts.antt =====
-- What a round of src/parser/FzParser.cpp does to the counters and to what was sent, and that it
-- ends.
use fz_daq.Prelude.{
  Fault, ℕ, ◌+◌, ◌/◌, ◌<◌, ◌≤◌, ◌≡◌, ◌≢◌, refl, List, [], ◌∷◌, ◌++◌, true, ◌&&◌, not, ◌==◌, length,
  length-append, Result, ok, err, dangling, out_of_fuel, ◌>>=◌, Returns, arith, if_both,
}
use fz_daq.Fsm.State.{Fsm, Floats, u32, u64, fmt_tag}
use fz_daq.Fsm.Process.{init, import, process, parse_ok}
use fz_daq.Fsm.Progress.Run.{process_tag_ends}
use fz_daq.Fsm.Safety.Run.{process_no_dangling}
use fz_daq.Writer.{is_running}
use fz_daq.Parser.{
  Parser, Serialize, Received, received, timed_out, thrown, words_of, count_message, send_set,
  finish_event, parse_message, parse_round,
}

-- The bytes of all messages sent.
abbrev pub total : List (List ℕ) → ℕ
total [] = 0
total (x ∷ xs) = length x + total xs

-- The counters of what went out are those of what was sent, modulo 2^64.
pub record Counted (p : Parser) : Type 0 where
  pub bytes : p.psr_report.out_bytes ≡ u64 (total p.sent)
  pub events : p.psr_report.out_events ≡ u64 (length p.sent)

total-append : (xs : List (List ℕ)) (x : List ℕ) → total (xs ++ x ∷ []) ≡ total xs + length x
total-append [] x = omega arith
total-append (y ∷ xs) x = omega (arith, total-append xs x)

finish_event-Counted :
    (serialize : Serialize) (p : Parser) (r : Fsm × ℕ)
    → Counted p
    → Counted (finish_event serialize p r)
unfolding finish_event send_set
finish_event-Counted serialize p (t, retval) c =
    if_both Counted (retval == parse_ok && not t.event_is_empty) _ _
      (λ _.
        let x = (serialize (t.ev ∷ [])).1 in
        record {
          bytes = omega (arith, c.bytes, total-append p.sent x);
          events = omega (arith, c.events, length-append p.sent (x ∷ []));
        })
      λ _. record { bytes = c.bytes; events = c.events }

Returns-map :
    {A B : Type 0} (P : B → Type 0) (m : Result A) (f : A → B)
    → ((a : A) → P (f a))
    → Returns P (m >>= λ a. ok (f a))
Returns-map P (ok a) f h = h a
Returns-map P (err e) f h = tt

parse_message-Counted :
    (fl : Floats) (serialize : Serialize) (fuel : ℕ) (m : List ℕ) (p : Parser)
    → Counted p
    → Returns Counted (parse_message fl serialize fuel m p)
unfolding parse_message
parse_message-Counted fl serialize fuel m p c =
    let q = record p { psr_report = count_message m p.psr_report } in
    Returns-map Counted
      (process fl fuel (import (words_of m) (u32 (length m / 2)) (init p.evformat p.sm)))
      (finish_event serialize q)
      λ r. finish_event-Counted serialize q r (record { bytes = c.bytes; events = c.events })

-- Whatever the thread receives, a round that returns keeps its counters of bytes and of events out
-- those of the messages that it sent, modulo 2^64.
pub parse_round-Counted :
    (fl : Floats) (serialize : Serialize) (fuel : ℕ) (r : Received) (p : Parser)
    → Counted p
    → Returns Counted (parse_round fl serialize fuel r p)
unfolding parse_round
parse_round-Counted fl serialize fuel (received m) p c =
    if_both (Returns Counted) (is_running p.rcstate) _ _
      (λ _.
        parse_message-Counted fl serialize fuel m (record p { rc = true })
          (record { bytes = c.bytes; events = c.events }))
      λ _. c
parse_round-Counted fl serialize fuel timed_out p c =
    if_both Counted (is_running p.rcstate) _ _ (λ _. record { bytes = c.bytes; events = c.events })
      λ _. c
parse_round-Counted fl serialize fuel thrown p c =
    if_both (Returns Counted) (is_running p.rcstate && p.rc) _ _
      (λ _. parse_message-Counted fl serialize fuel [] p c) λ _. c

length-words_of : (m : List ℕ) → length (words_of m) ≡ length m / 2
unfolding words_of
length-words_of [] = refl
length-words_of (a ∷ []) = refl
length-words_of (a ∷ b ∷ m) = omega (arith, length-words_of m)

bind-ne :
    {A B : Type 0} (m : Result A) (f : A → B) (e : Fault)
    → m ≢ err e
    → (m >>= λ a. ok (f a)) ≢ err e
bind-ne (ok a) f e h g = cc
bind-ne (err d) f e h g = h (ground (arith, g))

-- In the tagged format a round that receives a message of less than 2^33 bytes ends, for whatever
-- bytes it has and whatever came before, and uses no dangling pointer; a round of the machine's loop
-- for each byte and two more are enough.
pub parse_round_tag_ends :
    (fl : Floats) (serialize : Serialize) (fuel : ℕ) (m : List ℕ) (p : Parser)
    → p.evformat ≡ fmt_tag
    → length m < 8589934592
    → length m + 2 ≤ fuel
    → (parse_round fl serialize fuel (received m) p ≢ err out_of_fuel)
      × (parse_round fl serialize fuel (received m) p ≢ err dangling)
unfolding parse_round parse_message
parse_round_tag_ends fl serialize fuel m p t h k =
    let l = length-words_of m in
    let size : u32 (length m / 2) ≡ length (words_of m) = omega (arith, l, h) in
    let q = record p { rc = true; psr_report = count_message m p.psr_report } in
    let ends =
      process_tag_ends fl (words_of m) p.sm fuel (omega (arith, l, h)) (omega (arith, l, k)) in
    let safe = process_no_dangling fl fuel fmt_tag (length (words_of m)) (words_of m) p.sm in
    rw (size, t)
      (if_both (λ (r : Result Parser). (r ≢ err out_of_fuel) × (r ≢ err dangling))
        (is_running p.rcstate) _ _
        (λ _. (
          bind-ne _ (finish_event serialize (record q { evformat = fmt_tag })) out_of_fuel ends,
          bind-ne _ (finish_event serialize (record q { evformat = fmt_tag })) dangling safe,
        ))
        λ _. (λ e. cc, λ e. cc))
