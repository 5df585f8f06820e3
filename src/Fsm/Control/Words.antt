-- ===== src/Fsm/Control/Words.antt =====
-- What a word is, by its value: `getword_id` of src/parser/FzFSM.cpp.
use fz_daq.Prelude.{ℕ, ◌<◌, ◌≤◌, ◌≡◌, arith}
use fz_daq.Fsm.Word.{getword_id}

-- The kind of a 16-bit word is a matter of its range: data below 0x8000, and a range for each of
-- the other kinds; where the top digit is 9 or C, bit 11 splits the range in two.
pub getword_id_ranges :
    (w : ℕ)
    → w < 0x10000
    → (w < 0x8000 → getword_id w ≡ 0)
      × (0x8000 ≤ w → w < 0x9000 → getword_id w ≡ 8)
      × (0x9000 ≤ w → w < 0x9800 → getword_id w ≡ 16)
      × (0x9800 ≤ w → w < 0xA000 → getword_id w ≡ 9)
      × (0xA000 ≤ w → w < 0xB000 → getword_id w ≡ 10)
      × (0xB000 ≤ w → w < 0xC000 → getword_id w ≡ 11)
      × (0xC000 ≤ w → w < 0xC800 → getword_id w ≡ 17)
      × (0xC800 ≤ w → w < 0xD000 → getword_id w ≡ 12)
      × (0xD000 ≤ w → w < 0xE000 → getword_id w ≡ 13)
      × (0xE000 ≤ w → w < 0xF000 → getword_id w ≡ 14)
      × (0xF000 ≤ w → getword_id w ≡ 15)
unfolding getword_id
getword_id_ranges w h = ground arith

-- Every word has a row of the table.
pub getword_id-lt : (w : ℕ) → getword_id w < 18
unfolding getword_id
getword_id-lt w = ground arith
