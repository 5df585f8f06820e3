-- ===== src/Fsm/Control/Table.antt =====
-- The transition table against the list of transitions in the comment of src/parser/FzFSM.h.
use fz_daq.Prelude.{
  ℕ, Option, none, some, ◌≢◌, not, zero, suc, ◌<◌, ◌≤◌, ◌≡◌, refl, ◌⊎◌, Bool, true, false, ◌&&◌,
  ◌||◌, arith, leb, if◌then◌else◌, ◌==◌, List, [], ◌∷◌,
}
use native.Mathlib.Decide.{ℕ_discrete}
use fz_daq.Fsm.Word.{table_entry}

-- One documented transition: its number, the state that it leaves, the words that it is for (from
-- one number to another), and the state that it leads to.
pub record Listed : Type 0 where
  pub trans_id : ℕ
  pub leaves : ℕ
  pub word_from : ℕ
  pub word_to : ℕ
  pub enters : ℕ

abbrev on : ℕ → ℕ → ℕ → ℕ → ℕ → Listed
on t a w v b = record { trans_id = t; leaves = a; word_from = w; word_to = v; enters = b }

-- The list, from 2 on. The words of DATA have the numbers 0 to 7.
abbrev pub listed : List Listed
listed =
    on 2 0 14 14 1
    ∷ on 3 1 9 9 2
    ∷ on 4 2 0 7 3
    ∷ on 5 3 0 7 3
    ∷ on 6 3 16 16 4
    ∷ on 7 4 0 7 5
    ∷ on 8 5 0 7 5
    ∷ on 9 5 16 16 4
    ∷ on 10 5 9 9 2
    ∷ on 11 5 10 10 6
    ∷ on 12 6 11 11 7
    ∷ on 13 7 14 14 1
    ∷ on 14 1 17 17 8
    ∷ on 15 8 10 10 9
    ∷ on 16 9 13 13 10
    ∷ on 17 10 14 14 1
    ∷ on 18 10 12 12 0
    ∷ []

-- The listed transition for a word in a state, and its number: 1 in the idle state and 0 elsewhere
-- if there is none.
abbrev find_listed : ℕ → ℕ → List Listed → Option Listed
find_listed i st [] = none
find_listed i st (l ∷ ls) =
    let rest = find_listed i st ls in
    if l.leaves == st && leb l.word_from i && leb i l.word_to then some l else rest

abbrev pub listed_id : ℕ → ℕ → ℕ
listed_id i st = elim (find_listed i st listed) [
  | none ↦ if st == 0 then 1 else 0
  | some l ↦ l.trans_id
]

-- The next state by the list: without a transition the machine starts over.
abbrev pub next_state : ℕ → ℕ → ℕ
next_state i st = elim (find_listed i st listed) [ none ↦ 0 | some l ↦ l.enters ]

-- The state that a transition starts from; 11 where the number is no transition's.
unfoldable pub source : ℕ → ℕ
source t =
    if t == 2
    then 0
    else if t == 3
    then 1
    else if t == 4
    then 2
    else if t == 5
    then 3
    else if t == 6
    then 3
    else if t == 7
    then 4
    else if t == 8
    then 5
    else if t == 9
    then 5
    else if t == 10
    then 5
    else if t == 11
    then 5
    else if t == 12
    then 6
    else if t == 13
    then 7
    else if t == 14
    then 1
    else if t == 15
    then 8
    else if t == 16
    then 9
    else if t == 17
    then 10
    else if t == 18
    then 10
    else 11

-- A test of the numbers from `n - 1` down, and of the 18 rows and 11 columns of the table.
every : (ℕ → Bool) → ℕ → Bool
every test zero = true
every test (suc last) = if test last then every test last else false

every_cell : (ℕ → ℕ → Bool) → Bool
unfolding every
every_cell test = every (λ row. every (test row) 11) 18

every-at : (test : ℕ → Bool) (n m : ℕ) → m < n → every test n ≡ true → test m ≡ true
unfolding every
every-at test (suc last) m l h = elim (ℕ_discrete m last) [
  | yes e ↦ ground (arith, e)
  | no d ↦ ground (arith, every-at test last m)
]
every-at test zero m l h = absurd (omega arith)

every_cell-at :
    (test : ℕ → ℕ → Bool) (i st : ℕ) → every_cell test ≡ true → i < 18 → st ≤ 10 → test i st ≡ true
unfolding every_cell
every_cell-at test i st h k l =
    every-at (test i) 11 st (omega arith) (every-at (λ row. every (test row) 11) 18 i k h)

-- One entry is 0 or 1, or starts from its column.
fits : ℕ → ℕ → Bool
unfolding source
fits i st = leb (table_entry i st) 1 || st == source (table_entry i st)

fits_all : every_cell fits ≡ true
unfolding every_cell every fits table_entry
fits_all = refl

pub table-source :
    (i st : ℕ) → i < 18 → st ≤ 10 → (table_entry i st ≤ 1) ⊎ (st ≡ source (table_entry i st))
unfolding fits
table-source i st h k = ground (arith, every_cell-at fits i st fits_all h k)

-- The state that a transition's number leads to, where it is one that changes the state.
unfoldable pub target : ℕ → ℕ
target t =
    if t == 2
    then 1
    else if t == 3
    then 2
    else if t == 4
    then 3
    else if t == 5
    then 3
    else if t == 6
    then 4
    else if t == 7
    then 5
    else if t == 8
    then 5
    else if t == 9
    then 4
    else if t == 10
    then 2
    else if t == 11
    then 6
    else if t == 12
    then 7
    else if t == 13
    then 1
    else if t == 14
    then 8
    else if t == 15
    then 9
    else if t == 16
    then 10
    else if t == 17
    then 1
    else 0

agrees : ℕ → ℕ → Bool
unfolding target
agrees i st =
    (i == 8 || table_entry i st == listed_id i st) && target (table_entry i st) == next_state i st

agrees_all : every_cell agrees ≡ true
unfolding every_cell every agrees table_entry
agrees_all = refl

agrees_at : (i st : ℕ) → i < 18 → st ≤ 10 → agrees i st ≡ true
agrees_at i st h k = every_cell-at agrees i st agrees_all h k

both : (i a b c d : ℕ) → ((i == 8 || a == b) && c == d) ≡ true → (i ≢ 8 → a ≡ b) × (c ≡ d)
both i a b c d h = ground arith

-- For every word but EMPTY and every state, the table holds the number of the transition that the
-- list has for them; 1 in the idle state and 0 elsewhere if the list has none.
pub table-listed : (i st : ℕ) → i < 18 → i ≢ 8 → st ≤ 10 → table_entry i st ≡ listed_id i st
unfolding agrees
table-listed i st h n k =
    (both i (table_entry i st) (listed_id i st) (target (table_entry i st)) (next_state i st)
        (agrees_at i st h k)).0
      n

pub target-next : (i st : ℕ) → i < 18 → st ≤ 10 → target (table_entry i st) ≡ next_state i st
unfolding agrees
target-next i st h k =
    (both i (table_entry i st) (listed_id i st) (target (table_entry i st)) (next_state i st)
      (agrees_at i st h k)).1

plain : ℕ → ℕ → Bool
plain i st = leb (table_entry i st) 18 && (not (table_entry i st == 1) || st == 0)

plain_all : every_cell plain ≡ true
unfolding every_cell every plain table_entry
plain_all = refl

plain_parts :
    (a st : ℕ) → (leb a 18 && (not (a == 1) || st == 0)) ≡ true → (a ≤ 18) × (a ≡ 1 → st ≡ 0)
plain_parts a st h = ground arith

-- Every entry is a transition's number; 1 stands in the idle column only.
pub table_plain :
    (i st : ℕ) → i < 18 → st ≤ 10 → (table_entry i st ≤ 18) × (table_entry i st ≡ 1 → st ≡ 0)
unfolding plain
table_plain i st h k = plain_parts (table_entry i st) st (every_cell-at plain i st plain_all h k)
