-- ===== src/Framing/Tests.antt =====
-- Files of bytes, and the theorems on them.
use fz_daq.Prelude.{ℕ, ◌+◌, ◌*◌, ◌/◌, ◌%◌, ◌≡◌, refl, List, [], ◌∷◌, ◌++◌, ok, arith}
use fz_daq.Framing.{Coded, IsCoded, read_file, file_bytes, open_file}
use fz_daq.Framing.Files.{AllFit, read_file-file_bytes}

abbrev number_of : List ℕ → ℕ
number_of (a ∷ b ∷ c ∷ d ∷ []) = a + 256 * b + 65536 * c + 16777216 * d
number_of _ = 0

-- A message is its bytes.
abbrev bytes : Coded (List ℕ)
bytes = record {
  write_le32 = λ n. n % 256 ∷ n / 256 % 256 ∷ n / 65536 % 256 ∷ n / 16777216 % 256 ∷ [];
  read_le32 = number_of;
  parse = λ x old. x;
}

bytes-IsCoded : IsCoded bytes
bytes-IsCoded = record {
  four = λ n. refl;
  read-write = λ n h. omega arith;
  clears = λ x old new. refl;
}

abbrev messages : List (List ℕ)
messages = (10 ∷ 2 ∷ 8 ∷ 7 ∷ []) ∷ (10 ∷ 0 ∷ []) ∷ []

messages-AllFit : AllFit messages
messages-AllFit = ((omega arith, omega arith), ((omega arith, omega arith), tt))

-- Two messages, and two bytes of the size of a third.
read_file-file_bytes_example :
    read_file 3 bytes (open_file (file_bytes bytes messages ++ 5 ∷ 0 ∷ [])) [] ≡ ok messages
read_file-file_bytes_example =
    read_file-file_bytes bytes bytes-IsCoded 3 messages (5 ∷ 0 ∷ []) [] (omega arith)
      messages-AllFit (omega arith)
