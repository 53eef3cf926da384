-- ===== src/Eos/Structs/Processes.antt =====
-- `AddProcess` of mvm/eos/structs.go, with its signatures.
use trusted_group.Base.{
  ℕ, zero, suc, ◌/◌, ◌%◌, Bytes, List, [], ◌∷◌, ◌++◌, Option, none, some, length, take, drop,
  Outcome, ok, panic, ◌>>=◌,
}
use trusted_group.External.{Packer, Integers, Wire}
use trusted_group.Eos.Structs.{Reader, got, measured, pack_signatures}

pub record EosAddProcess : Type 0 where
  pub address : ℕ
  pub process : Bytes
  pub signatures : List Bytes

module _ ⦃packer : Packer⦄ where
  open packer use {pack_uint64, read_name, read_exact, name_of, sha256, sign}

  unfoldable pub pack_add_process : EosAddProcess → Bytes
  unfolding pack_signatures
  pack_add_process t =
      pack_uint64 t.address
      ++ (t.process ++ (length t.signatures % 256 ∷ pack_signatures t.signatures))

  -- The receiver keeps the signatures that it has.
  unfoldable pub read_add_process : EosAddProcess → Reader EosAddProcess
  read_add_process t i = do
    (address, i) ← got (read_name i)
    (process, i) ← got (read_exact 16 i)
    ok (record t { address = address; process = process }, i)

  unfoldable pub unpack_add_process : EosAddProcess → Bytes → Outcome (EosAddProcess × ℕ)
  unfolding read_add_process
  unpack_add_process t message = measured (read_add_process t) message

  unfoldable pub add_process_without_signatures : EosAddProcess → Bytes
  add_process_without_signatures t = pack_uint64 t.address ++ t.process

  unfoldable pub digest_add_process : EosAddProcess → Bytes
  unfolding add_process_without_signatures
  digest_add_process t = sha256 (add_process_without_signatures t)

  unfoldable pub sign_add_process : Bytes → EosAddProcess → Outcome Bytes
  unfolding digest_add_process
  sign_add_process key t = sign key (digest_add_process t)

  -- The signatures of `NewAddProcess`: pieces of 65 bytes, as many as there are whole ones.
  unfoldable pub cut_signatures : ℕ → Bytes → List Bytes
  cut_signatures zero b = []
  cut_signatures (suc n) b = take 65 b ∷ cut_signatures n (drop 65 b)

  module _ ⦃ints : Integers⦄ ⦃wire : Wire⦄ where
    open wire use {uuid_from_string, uuid_bytes}

    -- `uuidToBytes` of mvm/eos/utils.go
    abbrev uuid_or_panic : Option wire.Uuid → Outcome Bytes
    uuid_or_panic none = panic
    uuid_or_panic (some u) = ok (uuid_bytes u)

    unfoldable pub new_add_process : Bytes → Bytes → Bytes → Outcome EosAddProcess
    unfolding cut_signatures
    new_add_process address process signatures = do
      b ← uuid_or_panic (uuid_from_string process)
      ok (record {
        address = name_of address;
        process = b;
        signatures = cut_signatures (length signatures / 65) signatures;
      })
