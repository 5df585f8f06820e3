-- ===== src/Framing/Files.antt =====
-- What is read of an event file: `WriteDataset` and `parse_delimited` of src/utils/FzProtobuf.h, the
-- loop of utils/read-fazia-pb.cpp, and the files of src/writer/FzWriter.cpp.
use fz_daq.Prelude.{
  ℕ, zero, suc, ◌+◌, ◌<◌, ◌≡◌, ◌≢◌, refl, sym, ap, ◌∙◌, List, [], ◌∷◌, ◌++◌, map, true, false, ltb,
  length, length-append, take, drop, take-append, drop-append, Result, ok, err, out_of_fuel, ◌>>=◌,
  arith,
}
use mathlib.Core.List.{append_assoc}
use fz_daq.Writer.{Writer, EventFile, take_message, u32}
use fz_daq.Writer.Store.{stored, take_message-stored}
use fz_daq.Framing.{
  Coded, IsCoded, read_block, read_size, parse_delimited, read_file, write_dataset, file_bytes,
  open_file, unopened,
}

-- A message that the format can hold: not empty, and less than 2 GB.
abbrev pub Fits : List ℕ → Type 0
Fits x = (0 < length x) × (length x < 2147483648)

abbrev pub AllFit : List (List ℕ) → Type 0
AllFit [] = Unit {0}
AllFit (x ∷ xs) = Fits x × AllFit xs

AllFit-append : (xs ys : List (List ℕ)) → AllFit (xs ++ ys) → AllFit xs × AllFit ys
AllFit-append [] ys a = (tt, a)
AllFit-append (x ∷ xs) ys a = let ih = AllFit-append xs ys a.1 in ((a.0, ih.0), ih.1)

AllFit-add : (xs : List (List ℕ)) (x : List ℕ) → AllFit xs → Fits x → AllFit (xs ++ x ∷ [])
AllFit-add [] x a h = (h, tt)
AllFit-add (y ∷ xs) x a h = (a.0, AllFit-add xs x a.1 h)

append_nil : (xs : List ℕ) → xs ++ [] ≡ xs
append_nil [] = refl
append_nil (x ∷ xs) = ap (λ ys. x ∷ ys) (append_nil xs)

length-take : (n : ℕ) (xs : List ℕ) → length xs < n → length (take n xs) ≡ length xs
length-take zero xs h = absurd (omega arith)
length-take (suc n) [] h = refl
length-take (suc n) (x ∷ xs) h = ap suc (length-take n xs (omega arith))

not_short : (n : ℕ) (xs ys : List ℕ) → length xs ≡ n → ltb (length (xs ++ ys)) n ≡ false
not_short n xs ys h = ground (arith, length-append xs ys)

-- Every file of the writer is read, the earliest first, into the same message.
abbrev pub read_files : {M : Type 0} → Coded M → ℕ → List EventFile → M → Result (List M)
read_files o fuel [] m = ok []
read_files o fuel (f ∷ fs) m = read_files o fuel fs m >>= λ ms.
    read_file fuel o (open_file (file_bytes o f.messages)) m >>= λ ns. ok (ms ++ ns)

module _ {M : Type 0} (o : Coded M) (c : IsCoded o) where
  read_size-write :
      (n : ℕ) (rest : List ℕ)
      → n < 4294967296
      → read_size o (open_file (o.write_le32 n ++ rest)) ≡ (n, open_file rest)
  unfolding read_size read_block
  read_size-write n rest h =
      let e : ltb (length (o.write_le32 n)) 4 ≡ false = ground (arith, c.four n) in
      let b = o.write_le32 n in
      rw
        (
          take-append b rest 4 (c.four n),
          drop-append b rest 4 (c.four n),
          not_short 4 b rest (c.four n),
          e,
        )
        (rw (c.read-write n h) refl)

  parse_written :
      (x rest : List ℕ) (m : M)
      → Fits x
      → parse_delimited o (open_file (write_dataset o x ++ rest)) m
        ≡ (true, open_file rest, o.parse x m)
  unfolding parse_delimited write_dataset read_block
  parse_written x rest m h =
      let w : u32 (length x) ≡ length x = omega (arith, h.0, h.1) in
      let p : ltb 0 (length x) ≡ true = ground (arith, h.0) in
      rw (w, append_assoc (o.write_le32 (length x)) x rest)
        (rw (read_size-write (length x) (x ++ rest) (omega (arith, h.1))) (
          rw
            (
              take-append x rest (length x) refl,
              drop-append x rest (length x) refl,
              not_short (length x) x rest refl,
              p,
            )
            refl))

  -- At the end of a file nothing more is parsed, and the loop sees that the stream is not good.
  parse_end :
      (rest : List ℕ) (m : M)
      → length rest < 4
      → parse_delimited o (open_file rest) m
        ≡ (true, record { left = drop 4 rest; eof = true; fail = true }, m)
  unfolding parse_delimited read_size read_block
  parse_end rest m h =
      let e : ltb (length rest) 4 ≡ true = ground (arith, h) in
      let f : ltb (length (take 4 rest)) 4 ≡ true = ground (arith, length-take 4 rest, h) in
      rw (e, f) refl

  map_clears :
      (old new : M) (xs : List (List ℕ)) → map (λ x. o.parse x old) xs ≡ map (λ x. o.parse x new) xs
  map_clears old new [] = refl
  map_clears old new (x ∷ xs) = rw (c.clears x old new, map_clears old new xs) refl

  map-append :
      (xs ys : List (List ℕ)) (m : M)
      → map (λ x. o.parse x m) (xs ++ ys) ≡ map (λ x. o.parse x m) xs ++ map (λ x. o.parse x m) ys
  map-append [] ys m = refl
  map-append (x ∷ xs) ys m = ap (λ zs. o.parse x m ∷ zs) (map-append xs ys m)

  -- A file of messages that are neither empty nor of 2 GB, which may be cut off inside the size of
  -- one more, is read to its end in a round for each and one more: the loop gets every message that
  -- was written, in order, and no other.
  pub read_file-file_bytes :
      (fuel : ℕ) (xs : List (List ℕ)) (rest : List ℕ) (m : M)
      → length xs < fuel
      → AllFit xs
      → length rest < 4
      → read_file fuel o (open_file (file_bytes o xs ++ rest)) m ≡ ok (map (λ x. o.parse x m) xs)
  unfolding read_file file_bytes
  read_file-file_bytes zero xs rest m f a h = absurd (omega arith)
  read_file-file_bytes (suc fuel) [] rest m f a h = rw (parse_end rest m h) refl
  read_file-file_bytes (suc fuel) (x ∷ xs) rest m f a h =
      let ih = read_file-file_bytes fuel xs rest (o.parse x m) (omega arith) a.1 h in
      rw (append_assoc (write_dataset o x) (file_bytes o xs) rest) (
        rw (parse_written x (file_bytes o xs ++ rest) m a.0)
          (rw ih (ap (λ ms. ok (o.parse x m ∷ ms)) (map_clears (o.parse x m) m xs))))

  read_files-stored :
      (fuel : ℕ) (fs : List EventFile) (m : M)
      → length (stored fs) < fuel
      → AllFit (stored fs)
      → read_files o fuel fs m ≡ ok (map (λ x. o.parse x m) (stored fs))
  read_files-stored fuel [] m h a = refl
  read_files-stored fuel (f ∷ fs) m h a =
      let l = length-append (stored fs) f.messages in
      let one =
        ap (λ b. read_file fuel o (open_file b) m) (sym (append_nil (file_bytes o f.messages)))
        ∙ read_file-file_bytes fuel f.messages [] m (omega (arith, l, h))
            (AllFit-append (stored fs) f.messages a).1 (omega arith) in
      rw
        (read_files-stored fuel fs m (omega (arith, l, h))
          (AllFit-append (stored fs) f.messages a).0)
        (rw one (ap ok (sym (map-append (stored fs) f.messages m))))

  -- What a storing writer is given can be read back: if the messages stored before and this one are
  -- neither empty nor of 2 GB, then after it the files of all runs, read in the order they were
  -- opened, give every message stored before, in order, and this one behind them.
  pub take_message-read_files :
      (fuel now : ℕ) (x : List ℕ) (w : Writer) (bytes events : ℕ) (m : M)
      → w.storing ≡ true
      → w.files ≢ []
      → Fits x
      → AllFit (stored w.files)
      → length (stored w.files) + 1 < fuel
      → read_files o fuel (take_message now x (w, bytes, events)).0.files m
        ≡ ok (map (λ y. o.parse y m) (stored w.files) ++ o.parse x m ∷ [])
  take_message-read_files fuel now x w bytes events m s f h a l =
      let t = (take_message now x (w, bytes, events)).0 in
      let e = (take_message-stored now x w bytes events f).0 s in
      let n = length-append (stored w.files) (x ∷ []) in
      read_files-stored fuel t.files m (rw e (omega (arith, n, l)))
        (rw e (AllFit-add (stored w.files) x a h))
      ∙ ap (λ ys. ok (map (λ y. o.parse y m) ys)) e
      ∙ ap ok (map-append (stored w.files) (x ∷ []) m)

-- The loop that reads a file that could not be opened never ends.
pub unopened_hangs :
    {M : Type 0} (o : Coded M) (fuel : ℕ) (m : M) → read_file fuel o unopened m ≡ err out_of_fuel
unfolding read_file parse_delimited read_size read_block
unopened_hangs o zero m = refl
unopened_hangs o (suc fuel) m = rw (unopened_hangs o fuel m) refl
