-- ===== src/Encoding/Messages.antt =====
-- mvm/encoding/event.go
use trusted_group.Base.{ℕ, zero, suc, Bytes, ltb, length, List, [], ◌∷◌, ◌++◌}
use trusted_group.Base.{Outcome, ok, bad_input, ◌>>=◌, ◌>>◌, panic_if, of_option}
use trusted_group.External.{Integers, Wire}
use trusted_group.Encoding.Common.{put_int, write_uuid, write_bytes, read_uuid}

module _ ⦃ints : Integers⦄ where
  open ints use {Integer}

  -- `nil` and the empty slice are both `[]`. `Threshold` is a Go `int` that is never negative here:
  -- it is read by `ReadInt`, or converted from an unsigned count.
  pub record Event : Type 0 where
    pub process : Bytes
    pub asset : Bytes
    pub members : List Bytes
    pub threshold : ℕ
    pub amount : Integer
    pub extra : Bytes
    pub timestamp : ℕ
    pub nonce : ℕ
    pub signature : Bytes

module _ ⦃ints : Integers⦄ ⦃wire : Wire⦄ where
  open wire use {write_uint64, write_integer, read_int, read_uint64, read_integer, read_bytes}

  -- `for _, m := range e.Members { writeUUID(enc, m) }`
  unfoldable pub write_members : Bytes → List Bytes → Outcome Bytes
  write_members enc [] = ok enc
  write_members enc (m ∷ ms) = do enc' ← write_uuid enc m; write_members enc' ms

  unfoldable pub encode_event : Event → Outcome Bytes
  encode_event e = do
    enc ← write_uuid [] e.process
    enc ← write_uuid (enc ++ write_uint64 e.nonce) e.asset
    enc ← write_bytes (enc ++ write_integer e.amount) e.extra
    panic_if (ltb 64 (length e.members))
    enc ← put_int (enc ++ write_uint64 e.timestamp) (length e.members)
    enc ← write_members enc e.members
    panic_if (ltb (length e.members) e.threshold)
    enc ← put_int enc e.threshold
    write_bytes enc e.signature

  -- `for i := 0; i < ml; i++ { … members[i] = m }`
  unfoldable pub read_members : ℕ → Bytes → Outcome (List Bytes × Bytes)
  read_members zero dec = ok ([], dec)
  read_members (suc n) dec = do
    (m, dec) ← read_uuid dec
    (ms, dec) ← read_members n dec
    ok (m ∷ ms, dec)

  unfoldable pub decode_event : Bytes → Outcome Event
  decode_event b = do
    (process, dec) ← read_uuid b
    (nonce, dec) ← of_option bad_input (read_uint64 dec)
    (asset, dec) ← read_uuid dec
    (amount, dec) ← of_option bad_input (read_integer dec)
    (extra, dec) ← of_option bad_input (read_bytes dec)
    (timestamp, dec) ← of_option bad_input (read_uint64 dec)
    (ml, dec) ← of_option bad_input (read_int dec)
    (members, dec) ← read_members ml dec
    (threshold, dec) ← of_option bad_input (read_int dec)
    (sig, dec) ← of_option bad_input (read_bytes dec)
    ok (record {
      process = process;
      asset = asset;
      members = members;
      threshold = threshold;
      amount = amount;
      extra = extra;
      timestamp = timestamp;
      nonce = nonce;
      signature = sig;
    })
