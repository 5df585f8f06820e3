-- ===== src/Framing.antt =====
-- The framing of event files: class FzProtobuf of src/utils/FzProtobuf.h, which writes them, and the
-- loop of utils/read-fazia-pb.cpp, which reads them. The files are those of the writer.
pub mod Files
mod Tests
use fz_daq.Prelude.{
  ℕ, zero, suc, ◌%◌, ◌<◌, ◌≡◌, List, [], ◌∷◌, ◌++◌, Bool, true, false, ◌&&◌, ◌||◌, not, ltb,
  if◌then◌else◌, length, take, drop, Result, ok, err, out_of_fuel, ◌>>=◌,
}
use fz_daq.Writer.{u32}

-- What the protobuf library does: WriteLittleEndian32, ReadLittleEndian32 on four bytes, and
-- ParseFromCodedStream on the bytes of a message, which it is told to put into a message `M`.
pub record Coded (M : Type 0) : Type 0 where
  pub write_le32 : ℕ → List ℕ
  pub read_le32 : List ℕ → ℕ
  pub parse : List ℕ → M → M

-- What the library documents of these: a 32-bit number takes four bytes, from which it is read as
-- it was written, and parsing clears the message first.
pub record IsCoded {M : Type 0} (o : Coded M) : Type 0 where
  pub four : (n : ℕ) → length (o.write_le32 n) ≡ 4
  pub read-write : (n : ℕ) → n < 4294967296 → o.read_le32 (o.write_le32 n) ≡ n
  pub clears : (x : List ℕ) (old new : M) → o.parse x old ≡ o.parse x new

-- The bytes that are left of a stream that is read, and its flags.
pub record Istream : Type 0 where
  pub left : List ℕ
  pub eof : Bool
  pub fail : Bool

abbrev pub good : Istream → Bool
good s = not s.eof && not s.fail

-- One read of a block, which a stream that is not good refuses; a short read sets both flags.
unfoldable pub read_block : ℕ → Istream → List ℕ × Istream
read_block n s =
    if good s
    then (
      take n s.left,
      record { left = drop n s.left; eof = ltb (length s.left) n; fail = ltb (length s.left) n },
    )
    else ([], record s { fail = true })

-- A number is read from a whole block only; otherwise it stays 0, with which `messageSize` begins.
unfoldable pub read_size : {M : Type 0} → Coded M → Istream → ℕ × Istream
unfolding read_block
read_size o s =
    let (bytes, t) = read_block 4 s in
    if ltb (length bytes) 4 then (0, record t { fail = true }) else (o.read_le32 bytes, t)

-- The result, the stream and the message afterwards. A message has less than 2 GB, above which
-- PushLimit would be given a negative number.
unfoldable pub parse_delimited : {M : Type 0} → Coded M → Istream → M → Bool × Istream × M
unfolding read_size read_block
parse_delimited o s m =
    let (message_size, t) = read_size o s in
    let (bytes, u) = read_block message_size t in
    if ltb 0 message_size then (good u, u, o.parse bytes m) else (t.eof, t, m)

abbrev pub same_bool : Bool → Bool → Bool
same_bool true b = b
same_bool false b = not b

-- while (parse_delimited(input, &EVSET) == input.good()), with the sides from left to right: the
-- messages that the body of the loop gets, on fuel.
unfoldable pub read_file : {M : Type 0} → ℕ → Coded M → Istream → M → Result (List M)
unfolding parse_delimited
read_file zero o s m = err out_of_fuel
read_file (suc fuel) o s m =
    let (result, t, new) = parse_delimited o s m in
    let rest = read_file fuel o t new in
    if same_bool result (good t) then (rest >>= λ ms. ok (new ∷ ms)) else ok []

-- What WriteDataset appends to a file, and so the bytes of one.
unfoldable pub write_dataset : {M : Type 0} → Coded M → List ℕ → List ℕ
write_dataset o message = o.write_le32 (u32 (length message)) ++ message

unfoldable pub file_bytes : {M : Type 0} → Coded M → List (List ℕ) → List ℕ
unfolding write_dataset
file_bytes o [] = []
file_bytes o (x ∷ xs) = write_dataset o x ++ file_bytes o xs

-- A file that is opened, and one that cannot be.
abbrev pub open_file : List ℕ → Istream
open_file bytes = record { left = bytes; eof = false; fail = false }

abbrev pub unopened : Istream
unopened = record { left = []; eof = false; fail = true }
