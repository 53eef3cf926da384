-- ===== src/Encoding/Common.antt =====
-- The readers and writers of mvm/encoding/event.go that both kinds of message use.
use trusted_group.Base.{ℕ, Bytes, ltb, length, ◌++◌, some, none, if◌then◌else◌}
use trusted_group.Base.{Outcome, ok, panic, bad_uuid, bad_input, ◌>>=◌, of_option}
use trusted_group.External.{Integers, Wire}

abbrev pub event_extra_max_size : ℕ
event_extra_max_size = 256

module _ ⦃ints : Integers⦄ ⦃wire : Wire⦄ where
  open wire use {
    fits_int, write_int, read_exact, uuid_from_string, uuid_from_bytes, uuid_bytes, uuid_string,
  }

  -- `enc.WriteInt(n)`, with the panic that the library makes of a number that does not fit.
  unfoldable pub put_int : Bytes → ℕ → Outcome Bytes
  put_int enc n = if fits_int n then ok (enc ++ write_int n) else panic

  unfoldable pub write_uuid : Bytes → Bytes → Outcome Bytes
  write_uuid enc id = elim (uuid_from_string id) [
    | none ↦ panic
    | some uid ↦ ok (enc ++ uuid_bytes uid)
  ]

  unfoldable pub write_bytes : Bytes → Bytes → Outcome Bytes
  write_bytes enc b =
      if ltb event_extra_max_size (length b)
      then panic
      else do enc' ← put_int enc (length b); ok (enc' ++ b)

  unfoldable pub read_uuid : Bytes → Outcome (Bytes × Bytes)
  read_uuid dec = do
    (b, rest) ← of_option bad_input (read_exact 16 dec)
    id ← of_option bad_uuid (uuid_from_bytes b)
    ok (uuid_string id, rest)
