-- ===== src/Fsm/Word.antt =====
-- Words of an event and the transition table: `getword_id` of src/parser/FzFSM.cpp, the masks and
-- `ttable` of src/parser/FzFSM.h. A mask of low bits, x & (2^k - 1), is x % 2^k.
use fz_daq.Prelude.{
  ℕ, ◌/◌, ◌%◌, ◌*◌, ◌^◌, List, [], ◌∷◌, get_elem?, Option, none, some, ltb, if◌then◌else◌, ◌==◌,
  bit_xor,
}

abbrev pub nibble : ℕ → ℕ → ℕ
nibble n word = word / 2 ^ (n * 4) % 16

abbrev pub bit : ℕ → ℕ → ℕ
bit n word = word / 2 ^ n % 2

unfoldable pub getword_id : ℕ → ℕ
getword_id word =
    let nibble3 = nibble 3 word in
    if ltb nibble3 0x8
    then 0
    else if nibble3 == 0x9
    then (if bit 11 word == 0 then 16 else 9)
    else if nibble3 == 0x8
    then 8
    else if nibble3 == 0xA
    then 10
    else if nibble3 == 0xB
    then 11
    else if nibble3 == 0xC
    then (if bit 11 word == 0 then 17 else 12)
    else if nibble3 == 0xD
    then 13
    else if nibble3 == 0xE
    then 14
    else if nibble3 == 0xF
    then 15
    else 15

abbrev data_row : List ℕ
data_row = 1 ∷ 0 ∷ 4 ∷ 5 ∷ 7 ∷ 8 ∷ 0 ∷ 0 ∷ 0 ∷ 0 ∷ 0 ∷ []

-- The rows by word: eight of DATA, then EMPTY, TELID, LENGTH, CRCFE, REGID, CRCBL, EC, EOE, DETID
-- and BLKID; the columns are the states from idle to S10.
ttable : List (List ℕ)
ttable =
    data_row
    ∷ data_row
    ∷ data_row
    ∷ data_row
    ∷ data_row
    ∷ data_row
    ∷ data_row
    ∷ data_row
    ∷ (0 ∷ 0 ∷ 0 ∷ 0 ∷ 0 ∷ 0 ∷ 0 ∷ 0 ∷ 0 ∷ 0 ∷ 0 ∷ [])
    ∷ (1 ∷ 3 ∷ 0 ∷ 0 ∷ 0 ∷ 10 ∷ 0 ∷ 0 ∷ 0 ∷ 0 ∷ 0 ∷ [])
    ∷ (1 ∷ 0 ∷ 0 ∷ 0 ∷ 0 ∷ 11 ∷ 0 ∷ 0 ∷ 15 ∷ 0 ∷ 0 ∷ [])
    ∷ (1 ∷ 0 ∷ 0 ∷ 0 ∷ 0 ∷ 0 ∷ 12 ∷ 0 ∷ 0 ∷ 0 ∷ 0 ∷ [])
    ∷ (1 ∷ 0 ∷ 0 ∷ 0 ∷ 0 ∷ 0 ∷ 0 ∷ 0 ∷ 0 ∷ 0 ∷ 18 ∷ [])
    ∷ (1 ∷ 0 ∷ 0 ∷ 0 ∷ 0 ∷ 0 ∷ 0 ∷ 0 ∷ 0 ∷ 16 ∷ 0 ∷ [])
    ∷ (2 ∷ 0 ∷ 0 ∷ 0 ∷ 0 ∷ 0 ∷ 0 ∷ 13 ∷ 0 ∷ 0 ∷ 17 ∷ [])
    ∷ (1 ∷ 0 ∷ 0 ∷ 0 ∷ 0 ∷ 0 ∷ 0 ∷ 0 ∷ 0 ∷ 0 ∷ 0 ∷ [])
    ∷ (1 ∷ 0 ∷ 0 ∷ 6 ∷ 0 ∷ 9 ∷ 0 ∷ 0 ∷ 0 ∷ 0 ∷ 0 ∷ [])
    ∷ (1 ∷ 14 ∷ 0 ∷ 0 ∷ 0 ∷ 0 ∷ 0 ∷ 0 ∷ 0 ∷ 0 ∷ 0 ∷ [])
    ∷ []

abbrev entry : Option (List ℕ) → ℕ → ℕ
entry none s = 0
entry (some row) s = elim (get_elem? row s) [ none ↦ 0 | some t ↦ t ]

-- `ttable[word_id][state_id]`; a missing entry, which the code cannot reach, is 0.
unfoldable pub table_entry : ℕ → ℕ → ℕ
unfolding ttable
table_entry w s = entry (get_elem? ttable w) s

-- The fields of a word.
abbrev pub ec_of : ℕ → ℕ
ec_of w = w % 4096

abbrev pub telid_of : ℕ → ℕ
telid_of w = w % 2

abbrev pub feeid_of : ℕ → ℕ
feeid_of w = w / 2 % 16

abbrev pub detid_of : ℕ → ℕ
detid_of w = w / 32 % 8

abbrev pub dtype_of : ℕ → ℕ
dtype_of w = w / 256 % 8

abbrev pub length_of : ℕ → ℕ
length_of w = w % 4096

abbrev pub id_of : ℕ → ℕ
id_of w = w % 2048

-- (word & CRCFE_MASK) >> 4, and the same for CRCBL_MASK.
abbrev pub crc_of : ℕ → ℕ
crc_of w = w / 16 % 256

-- The checksum that is compared: the two bytes of the running one, folded by exclusive or.
unfoldable pub fold_crc : ℕ → ℕ
fold_crc crc = bit_xor (crc % 256) (crc / 256 % 256) % 256
