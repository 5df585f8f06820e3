-- ===== src/Mfm/Frames.antt =====
-- What the other side makes of the MFM frames that the loop of src/transmitter/main.cpp builds.
use fz_daq.Prelude.{
  ℕ, zero, suc, ◌+◌, ◌-◌, ◌*◌, ◌/◌, ◌%◌, ◌<◌, ◌≤◌, ◌≡◌, refl, ap, ◌∙◌, List, [], ◌∷◌, ◌++◌, false,
  ◌||◌, ◌==◌, ltb, if◌then◌else◌, arith, inl, inr, Bool-cases, length, length-append, take,
  drop-append, drop, Option, none, some,
}
use fz_daq.Event.{FzTrigInfo}
use fz_daq.Mfm.{mfm_size, block_bytes, frame, buffer_size}
use fz_daq.Mfm.Fields.{Single, place_all}
use fz_daq.Mfm.Trigger.{no_words, add_centrums-fields}

-- `n` bytes from number `at` on.
abbrev pub field : ℕ → ℕ → List ℕ → List ℕ
field at n xs = take n (drop at xs)

abbrev pub big_endian : ℕ → List ℕ → ℕ
big_endian acc [] = acc
big_endian acc (b ∷ bs) = big_endian (acc * 256 + b) bs

abbrev pub little_endian : List ℕ → ℕ
little_endian [] = 0
little_endian (b ∷ bs) = b + 256 * little_endian bs

-- The length of the frame in bytes: the header gives it in units of 16 bits.
abbrev pub frame_length : List ℕ → ℕ
frame_length xs = 2 * big_endian 0 (field 1 3 xs)

-- The data of the first frame, and the bytes after the frame, by the frame's own lengths.
abbrev pub read_frame : List ℕ → Option (List ℕ × List ℕ)
read_frame xs =
    if ltb (length xs) (frame_length xs) || ltb (frame_length xs) 24
    then none
    else some (take (little_endian (field 20 4 xs)) (drop 24 xs), drop (frame_length xs) xs)

-- The data of every frame, with as many steps as there are frames and one.
abbrev pub read_frames : ℕ → List ℕ → Option (List (List ℕ))
read_frames zero xs = none
read_frames (suc n) [] = some []
read_frames (suc n) (x ∷ xs) = elim (read_frame (x ∷ xs)) [
  | none ↦ none
  | some (block, rest) ↦ elim (read_frames n rest) [ none ↦ none | some bs ↦ some (block ∷ bs) ]
]

length-block_bytes : (memory : ℕ → ℕ) (i n : ℕ) → length (block_bytes memory i n) ≡ n
unfolding block_bytes
length-block_bytes memory i zero = refl
length-block_bytes memory i (suc n) = ap suc (length-block_bytes memory (suc i) n)

take-block_bytes :
    (memory : ℕ → ℕ) (i m n : ℕ) (rest : List ℕ)
    → m ≤ n
    → take m (block_bytes memory i n ++ rest) ≡ block_bytes memory i m
unfolding block_bytes
take-block_bytes memory i zero n rest h = refl
take-block_bytes memory i (suc m) zero rest h = absurd (omega arith)
take-block_bytes memory i (suc m) (suc n) rest h =
    ap (λ bs. memory i ∷ bs) (take-block_bytes memory (suc i) m n rest (omega (arith, h)))

mfm_size-even :
    (n : ℕ) → (2 * (mfm_size n / 2) ≡ mfm_size n) × (24 + n ≤ mfm_size n) × (mfm_size n ≤ 25 + n)
mfm_size-even n = ground arith

bytes3 : (n : ℕ) → n < 16777216 → big_endian 0 (n / 65536 % 256 ∷ n / 256 % 256 ∷ n % 256 ∷ []) ≡ n
bytes3 n h = omega (arith, h)

bytes4 :
    (n : ℕ)
    → n < 4294967296
    → little_endian (n % 256 ∷ n / 256 % 256 ∷ n / 65536 % 256 ∷ n / 16777216 % 256 ∷ []) ≡ n
bytes4 n h = omega (arith, h)

frame-lengths :
    (memory : ℕ → ℕ) (size : ℕ) (infos : List FzTrigInfo) (rest : List ℕ)
    → mfm_size size ≤ buffer_size
    → (length (frame memory size infos) ≡ mfm_size size)
      × (frame_length (frame memory size infos ++ rest) ≡ mfm_size size)
      × (little_endian (field 20 4 (frame memory size infos ++ rest)) ≡ size)
unfolding frame
frame-lengths memory size infos rest h =
    let e = mfm_size-even size in
    (
      omega (arith, length-block_bytes memory 0 (mfm_size size - 24), e.1),
      ap (λ n. 2 * n) (bytes3 (mfm_size size / 2) (omega (arith, h))) ∙ e.0,
      bytes4 size (omega (arith, h, e.1)),
    )

pub frame-length :
    (memory : ℕ → ℕ) (size : ℕ) (infos : List FzTrigInfo)
    → mfm_size size ≤ buffer_size
    → length (frame memory size infos) ≡ mfm_size size
frame-length memory size infos h = (frame-lengths memory size infos [] h).0

drop-frame :
    (memory : ℕ → ℕ) (size : ℕ) (infos : List FzTrigInfo) (rest : List ℕ)
    → drop 24 (frame memory size infos ++ rest) ≡ block_bytes memory 0 (mfm_size size - 24) ++ rest
unfolding frame
drop-frame memory size infos rest = refl

read_frame_by :
    (xs block rest : List ℕ) (n size : ℕ)
    → n ≤ length xs
    → 24 ≤ n
    → frame_length xs ≡ n
    → little_endian (field 20 4 xs) ≡ size
    → take size (drop 24 xs) ≡ block
    → drop n xs ≡ rest
    → read_frame xs ≡ some (block, rest)
read_frame_by xs block rest n size h k a b c d =
    let short : (ltb (length xs) (frame_length xs) || ltb (frame_length xs) 24) ≡ false =
      ground (arith, a, h, k) in
    rw short (
      ap some (
        ap (λ s. (take s (drop 24 xs), drop (frame_length xs) xs)) b
        ∙ ap (λ m. (take size (drop 24 xs), drop m xs)) a
        ∙ ap (λ y. (y, drop n xs)) c
        ∙ ap (λ y. (block, y)) d))

read_frame-frame :
    (memory : ℕ → ℕ) (size : ℕ) (infos : List FzTrigInfo) (rest : List ℕ)
    → mfm_size size ≤ buffer_size
    → read_frame (frame memory size infos ++ rest) ≡ some (block_bytes memory 0 size, rest)
read_frame-frame memory size infos rest h =
    let xs = frame memory size infos in
    let (even, most, _) = mfm_size-even size in
    let (len, whole, low) = frame-lengths memory size infos rest h in
    read_frame_by (xs ++ rest) (block_bytes memory 0 size) rest (mfm_size size) size
      (omega (arith, length-append xs rest, len)) (omega (arith, most)) whole low
      (ap (λ ys. take size ys) (drop-frame memory size infos rest)
        ∙ take-block_bytes memory 0 size (mfm_size size - 24) rest (omega (arith, most)))
      (drop-append xs rest (mfm_size size) len)

-- An event that is sent: the memory that its bytes are read from, its size and its trigger
-- information.
pub record Sent : Type 0 where
  pub memory : ℕ → ℕ
  pub size : ℕ
  pub infos : List FzTrigInfo

abbrev pub all_frames : List Sent → List ℕ
all_frames [] = []
all_frames (e ∷ es) = frame e.memory e.size e.infos ++ all_frames es

abbrev pub all_blocks : List Sent → List (List ℕ)
all_blocks [] = []
all_blocks (e ∷ es) = block_bytes e.memory 0 e.size ∷ all_blocks es

abbrev pub Fit : List Sent → Type 0
Fit [] = Unit {0}
Fit (e ∷ es) = (mfm_size e.size ≤ buffer_size) × Fit es

read_frames_step :
    (n : ℕ) (xs block rest : List ℕ) (blocks : List (List ℕ))
    → 0 < length xs
    → read_frame xs ≡ some (block, rest)
    → read_frames n rest ≡ some blocks
    → read_frames (suc n) xs ≡ some (block ∷ blocks)
read_frames_step n [] block rest blocks h a b = absurd (omega arith)
read_frames_step n (x ∷ xs) block rest blocks h a b = rw (a, read_frames) (rw b refl)

-- Whatever events are sent one after the other, each in a frame that fits the buffer: a reader that
-- goes by the lengths in the frames alone gets the data of every event, in order and in full, and
-- nothing else.
pub read_frames-all_frames :
    (es : List Sent) → Fit es → read_frames (suc (length es)) (all_frames es) ≡ some (all_blocks es)
read_frames-all_frames [] h = refl
read_frames-all_frames (e ∷ es) h =
    let xs = frame e.memory e.size e.infos in
    let l = (frame-lengths e.memory e.size e.infos [] h.0).0 in
    read_frames_step (suc (length es)) (xs ++ all_frames es) (block_bytes e.memory 0 e.size)
      (all_frames es) (all_blocks es)
      (omega (arith, l, length-append xs (all_frames es), (mfm_size-even e.size).1))
      (read_frame-frame e.memory e.size e.infos (all_frames es) h.0) (read_frames-all_frames es h.1)

-- Of an event whose trigger information gives each word of the centrum once at most and in 30 bits,
-- in whatever order and whatever else it holds, bytes 8 to 13 of the frame are the timestamp (the low
-- 6 bits of word 0, the whole of word 1 and the high 12 bits of word 2), bytes 14 to 17 the event
-- counter (the low 18 bits of word 2 and the high 14 bits of word 3) and bytes 18 and 19 the CRC (the
-- low 16 bits of word 3), each with the high byte first.
pub frame-trigger :
    (memory : ℕ → ℕ) (size : ℕ) (ts : List FzTrigInfo)
    → Single ts no_words
    → (big_endian 0 (field 8 6 (frame memory size ts))
        ≡ (place_all ts no_words).w0 % 64 * 4398046511104
          + (place_all ts no_words).w1 * 4096
          + (place_all ts no_words).w2 / 262144)
      × (big_endian 0 (field 14 4 (frame memory size ts))
          ≡ (place_all ts no_words).w2 % 262144 * 16384 + (place_all ts no_words).w3 / 65536)
      × (big_endian 0 (field 18 2 (frame memory size ts)) ≡ (place_all ts no_words).w3 % 65536)
unfolding frame
frame-trigger memory size ts s =
    let (a, b, c) = add_centrums-fields ts s in
    (omega (arith, a), omega (arith, b), omega (arith, c))

block_bytes-end :
    (memory : ℕ → ℕ) (i n : ℕ)
    → (drop n (block_bytes memory i n) ≡ [])
      × (drop n (block_bytes memory i (suc n)) ≡ memory (i + n) ∷ [])
unfolding block_bytes
block_bytes-end memory i zero = (refl, ap (λ j. memory j ∷ []) (omega arith))
block_bytes-end memory i (suc n) =
    let e = block_bytes-end memory (suc i) n in (e.0, e.1 ∙ ap (λ j. memory j ∷ []) (omega arith))

-- The frame ends with the data, or, when the data has an odd number of bytes, with the byte that
-- stands behind the data in memory.
pub frame-last :
    (memory : ℕ → ℕ) (size : ℕ) (ts : List FzTrigInfo)
    → drop size (drop 24 (frame memory size ts)) ≡ (if size % 2 == 0 then [] else memory size ∷ [])
unfolding frame
frame-last memory size ts = elim (Bool-cases (size % 2 == 0)) [
  | inl e ↦
      let n : mfm_size size - 24 ≡ size = ground (arith, e) in
      rw e (ap (λ n. drop size (block_bytes memory 0 n)) n ∙ (block_bytes-end memory 0 size).0)
  | inr e ↦
      let n : mfm_size size - 24 ≡ suc size = ground (arith, e) in
      rw e (
        ap (λ n. drop size (block_bytes memory 0 n)) n
        ∙ (block_bytes-end memory 0 size).1
        ∙ ap (λ j. memory j ∷ []) (omega arith))
]
