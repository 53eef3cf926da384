-- ===== src/External/Packets.antt =====
-- `common.Encoder` and `common.Decoder` of github.com/MixinNetwork/mixin, and the identifiers of
-- github.com/gofrs/uuid.
use trusted_group.Base.{ℕ, ◌≤◌, ◌<◌, ◌^◌, Bytes, Bool, true, ◌≡◌, Option, some, ◌++◌, length}
use trusted_group.External.Amounts.{Integers}

module _ ⦃ints : Integers⦄ where
  open ints use {Integer}

  -- A writer gives the bytes that it appends; a reader takes a value off the front of its input, or
  -- fails. `fits_int` says which numbers `WriteInt` writes: on the others it panics.
  pub record Wire : Type 1 where
    pub fits_int : ℕ → Bool
    pub write_int : ℕ → Bytes
    pub write_uint64 : ℕ → Bytes
    pub write_integer : Integer → Bytes
    pub read_exact : ℕ → Bytes → Option (Bytes × Bytes)
    pub read_int : Bytes → Option (ℕ × Bytes)
    pub read_uint64 : Bytes → Option (ℕ × Bytes)
    pub read_integer : Bytes → Option (Integer × Bytes)
    pub read_bytes : Bytes → Option (Bytes × Bytes)
    pub Uuid : Type 0
    pub uuid_from_string : Bytes → Option Uuid
    pub uuid_from_bytes : Bytes → Option Uuid
    pub uuid_bytes : Uuid → Bytes
    pub uuid_string : Uuid → Bytes
    pub fits_small : (n : ℕ) → n ≤ 256 → fits_int n ≡ true
    pub read_exact-append : (b rest : Bytes) → read_exact (length b) (b ++ rest) ≡ some (b, rest)
    pub read_int-write_int :
        (n : ℕ) (rest : Bytes) → fits_int n ≡ true → read_int (write_int n ++ rest) ≡ some (n, rest)
    pub read_uint64-write_uint64 :
        (n : ℕ) (rest : Bytes) → n < 2 ^ 64 → read_uint64 (write_uint64 n ++ rest) ≡ some (n, rest)
    pub read_integer-write_integer :
        (a : Integer) (rest : Bytes) → read_integer (write_integer a ++ rest) ≡ some (a, rest)
    pub read_bytes-write :
        (b rest : Bytes)
        → fits_int (length b) ≡ true
        → read_bytes (write_int (length b) ++ (b ++ rest)) ≡ some (b, rest)
    pub length-uuid_bytes : (u : Uuid) → length (uuid_bytes u) ≡ 16
    pub length-uuid_string : (u : Uuid) → length (uuid_string u) ≡ 36
    pub uuid_from_bytes-uuid_bytes : (u : Uuid) → uuid_from_bytes (uuid_bytes u) ≡ some u
    pub uuid_from_string-uuid_string : (u : Uuid) → uuid_from_string (uuid_string u) ≡ some u
