-- ===== src/Mfm/Fields.antt =====
-- What the header of an MFM frame says of the trigger: the loop over the trigger information in
-- src/transmitter/main.cpp.
use fz_daq.Prelude.{
  ℕ, zero, suc, ◌+◌, ◌*◌, ◌/◌, ◌%◌, ◌<◌, ◌≡◌, refl, List, [], ◌∷◌, Bool, true, ◌&&◌, ◌==◌,
  if◌then◌else◌, arith,
}
use fz_daq.Event.{FzTrigInfo}
use fz_daq.Mfm.{Header, or_byte}

-- The four words of the centrum.
pub record Centrum : Type 0 where
  pub w0 : ℕ
  pub w1 : ℕ
  pub w2 : ℕ
  pub w3 : ℕ

-- The trigger information gives each word once at most, of 30 bits, and these are the words.
abbrev pub place : FzTrigInfo → Centrum → Centrum
place t c =
    if t.id == 0x200
    then record c { w0 = t.value }
    else if t.id == 0x201
    then record c { w1 = t.value }
    else if t.id == 0x202
    then record c { w2 = t.value }
    else if t.id == 0x203
    then record c { w3 = t.value }
    else c

abbrev pub place_all : List FzTrigInfo → Centrum → Centrum
place_all [] c = c
place_all (t ∷ ts) c = place_all ts (place t c)

-- The word that a piece of information would replace.
abbrev pub slot : FzTrigInfo → Centrum → ℕ
slot t c =
    if t.id == 0x200
    then c.w0
    else if t.id == 0x201
    then c.w1
    else if t.id == 0x202
    then c.w2
    else if t.id == 0x203
    then c.w3
    else 0

abbrev pub Single : List FzTrigInfo → Centrum → Type 0
Single [] c = Unit {0}
Single (t ∷ ts) c = (t.value < 1073741824) × (slot t c ≡ 0) × Single ts (place t c)

all_below : ℕ → (ℕ → Bool) → Bool
all_below zero p = true
all_below (suc n) p = p n && all_below n p

all_below_sound : (n : ℕ) (p : ℕ → Bool) (i : ℕ) → all_below n p ≡ true → i < n → p i ≡ true
unfolding all_below
all_below_sound zero p i h lt = absurd (omega arith)
all_below_sound (suc n) p i h lt = ground (arith, all_below_sound n p i)

-- A byte of two fields, the lower of `m` values, from the one or the other put in first.
abbrev joins : ℕ → ℕ → Bool
joins m i = (or_byte (i % m) (i / m * m) == i) && (or_byte (i / m * m) (i % m) == i)

table4 : all_below 256 (joins 4) ≡ true
unfolding all_below
table4 = refl

table16 : all_below 256 (joins 16) ≡ true
unfolding all_below
table16 = refl

table64 : all_below 256 (joins 64) ≡ true
unfolding all_below
table64 = refl

joins_sound :
    (m : ℕ)
    → all_below 256 (joins m) ≡ true
    → (i lo hi : ℕ) → i % m ≡ lo
    → i / m * m ≡ hi
    → i < 256
    → (or_byte lo hi ≡ i) × (or_byte hi lo ≡ i)
joins_sound m t i lo hi a b lt =
    let j : joins m i ≡ true = all_below_sound 256 (joins m) i t lt in
    rw (← a, ← b) (ground (arith, j))

-- The header's bytes are those of the words placed so far.
pub record Laid (c : Centrum) (h : Header) : Type 0 where
  pub small1 : c.w1 < 1073741824
  pub small2 : c.w2 < 1073741824
  pub small3 : c.w3 < 1073741824
  pub at8 : h.b8 ≡ c.w0 % 64 * 4 + c.w1 / 268435456
  pub at9 : h.b9 ≡ c.w1 / 1048576 % 256
  pub at10 : h.b10 ≡ c.w1 / 4096 % 256
  pub at11 : h.b11 ≡ c.w1 / 16 % 256
  pub at12 : h.b12 ≡ c.w1 % 16 * 16 + c.w2 / 67108864
  pub at13 : h.b13 ≡ c.w2 / 262144 % 256
  pub at14 : h.b14 ≡ c.w2 / 1024 % 256
  pub at15 : h.b15 ≡ c.w2 / 4 % 256
  pub at16 : h.b16 ≡ c.w2 % 4 * 64 + c.w3 / 16777216
  pub at17 : h.b17 ≡ c.w3 / 65536 % 256
  pub at18 : h.b18 ≡ c.w3 / 256 % 256
  pub at19 : h.b19 ≡ c.w3 % 256

pub join8 :
    (v w b : ℕ)
    → w < 1073741824
    → ((b ≡ w / 268435456) → or_byte b (v % 64 * 4) ≡ v % 64 * 4 + w / 268435456)
      × ((b ≡ v % 64 * 4) → or_byte b (w / 268435456) ≡ v % 64 * 4 + w / 268435456)
join8 v w b h =
    let j =
      joins_sound 4 table4 (v % 64 * 4 + w / 268435456) (w / 268435456) (v % 64 * 4)
        (omega (arith, h)) (omega (arith, h)) (omega (arith, h)) in
    (λ e. rw e j.0, λ e. rw e j.1)

pub join12 :
    (v w b : ℕ)
    → w < 1073741824
    → ((b ≡ w / 67108864) → or_byte b (v % 16 * 16) ≡ v % 16 * 16 + w / 67108864)
      × ((b ≡ v % 16 * 16) → or_byte b (w / 67108864) ≡ v % 16 * 16 + w / 67108864)
join12 v w b h =
    let j =
      joins_sound 16 table16 (v % 16 * 16 + w / 67108864) (w / 67108864) (v % 16 * 16)
        (omega (arith, h)) (omega (arith, h)) (omega (arith, h)) in
    (λ e. rw e j.0, λ e. rw e j.1)

pub join16 :
    (v w b : ℕ)
    → w < 1073741824
    → ((b ≡ w / 16777216) → or_byte b (v % 4 * 64) ≡ v % 4 * 64 + w / 16777216)
      × ((b ≡ v % 4 * 64) → or_byte b (w / 16777216) ≡ v % 4 * 64 + w / 16777216)
join16 v w b h =
    let j =
      joins_sound 64 table64 (v % 4 * 64 + w / 16777216) (w / 16777216) (v % 4 * 64)
        (omega (arith, h)) (omega (arith, h)) (omega (arith, h)) in
    (λ e. rw e j.0, λ e. rw e j.1)
