-- ===== src/External/EosPackets.antt =====
-- `chain.Encoder` and `chain.Decoder` of github.com/learnforpractice/goeoslib, and its signatures.
use trusted_group.Base.{ℕ, ◌<◌, ◌^◌, ◌≡◌, Bytes, Option, some, ◌++◌, ◌∷◌, length, Outcome}

-- A writer gives the bytes that it appends; a reader takes a value off the front of its input. A
-- `Uint128` is sixteen bytes, an `int32` is a word.
pub record Packer : Type 0 where
  pub pack_uint64 : ℕ → Bytes
  pub pack_int32 : ℕ → Bytes
  pub pack_length : ℕ → Bytes
  pub pack_uint128 : Bytes → Bytes
  pub packed_length : ℕ → ℕ
  pub read_uint64 : Bytes → Option (ℕ × Bytes)
  pub read_int32 : Bytes → Option (ℕ × Bytes)
  pub read_length : Bytes → Option (ℕ × Bytes)
  pub read_name : Bytes → Option (ℕ × Bytes)
  pub read_uint8 : Bytes → Option (ℕ × Bytes)
  pub read_uint128 : Bytes → Option (Bytes × Bytes)
  pub read_bytes : Bytes → Option (Bytes × Bytes)
  pub read_exact : ℕ → Bytes → Option (Bytes × Bytes)
  pub name_of : Bytes → ℕ
  pub sha256 : Bytes → Bytes
  pub sign : Bytes → Bytes → Outcome Bytes
  pub length-pack_uint64 : (n : ℕ) → length (pack_uint64 n) ≡ 8
  pub length-pack_int32 : (n : ℕ) → length (pack_int32 n) ≡ 4
  pub length-pack_length : (n : ℕ) → length (pack_length n) ≡ packed_length n
  pub read_uint64-pack :
      (n : ℕ) (rest : Bytes) → n < 2 ^ 64 → read_uint64 (pack_uint64 n ++ rest) ≡ some (n, rest)
  pub read_int32-pack :
      (n : ℕ) (rest : Bytes) → n < 2 ^ 32 → read_int32 (pack_int32 n ++ rest) ≡ some (n, rest)
  pub read_length-pack :
      (n : ℕ) (rest : Bytes) → n < 2 ^ 32 → read_length (pack_length n ++ rest) ≡ some (n, rest)
  pub read_name-pack :
      (n : ℕ) (rest : Bytes) → n < 2 ^ 64 → read_name (pack_uint64 n ++ rest) ≡ some (n, rest)
  pub read_uint8-pack : (b : ℕ) (rest : Bytes) → read_uint8 (b ∷ rest) ≡ some (b, rest)
  pub read_uint128-raw :
      (b rest : Bytes) → length b ≡ 16 → read_uint128 (b ++ rest) ≡ some (b, rest)
  pub pack_uint128-raw : (b : Bytes) → length b ≡ 16 → pack_uint128 b ≡ b
  pub read_bytes-pack :
      (b rest : Bytes)
      → length b < 2 ^ 32
      → read_bytes (pack_length (length b) ++ (b ++ rest)) ≡ some (b, rest)
  pub read_exact-append : (b rest : Bytes) → read_exact (length b) (b ++ rest) ≡ some (b, rest)
