-- ===== src/Encoding/Operations.antt =====
-- mvm/encoding/operation.go
use trusted_group.Base.{ℕ, Bytes, []}
use trusted_group.Base.{Outcome, ok, bad_input, ◌>>=◌, of_option}
use trusted_group.External.{Integers, Wire}
use trusted_group.Encoding.Common.{put_int, write_uuid, write_bytes, read_uuid}

abbrev pub purpose_group_event : ℕ
purpose_group_event = 1

abbrev pub purpose_add_process : ℕ
purpose_add_process = 11

pub record Operation : Type 0 where
  pub purpose : ℕ
  pub process : Bytes
  pub platform : Bytes
  pub address : Bytes
  pub extra : Bytes

module _ ⦃ints : Integers⦄ ⦃wire : Wire⦄ where
  open wire use {read_int, read_bytes}

  unfoldable pub encode_operation : Operation → Outcome Bytes
  encode_operation o = do
    enc ← put_int [] o.purpose
    enc ← write_uuid enc o.process
    enc ← write_bytes enc o.platform
    enc ← write_bytes enc o.address
    write_bytes enc o.extra

  unfoldable pub decode_operation : Bytes → Outcome Operation
  decode_operation b = do
    (purpose, dec) ← of_option bad_input (read_int b)
    (process, dec) ← read_uuid dec
    (platform, dec) ← of_option bad_input (read_bytes dec)
    (address, dec) ← of_option bad_input (read_bytes dec)
    (extra, dec) ← of_option bad_input (read_bytes dec)
    ok (record {
      purpose = purpose;
      process = process;
      platform = platform;
      address = address;
      extra = extra;
    })
