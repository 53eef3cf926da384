-- ===== src/Eos/Structs/Room.antt =====
-- `Size` of the structs of mvm/eos/structs.go: the room that the encoders reserve.
use trusted_group.Base.{ℕ, ◌+◌, ◌*◌, Bytes, List, [], ◌∷◌, length}
use trusted_group.External.{Packer}
use trusted_group.Eos.Structs.{EosTxEvent, EosTxRequest, EosTxLog}
use trusted_group.Eos.Structs.Processes.{EosAddProcess}

module _ ⦃packer : Packer⦄ where
  open packer use {packed_length}

  unfoldable pub size_members : List Bytes → ℕ
  size_members [] = 0
  size_members (m ∷ ms) = packed_length (length m) + length m + size_members ms

  unfoldable pub size_tx_event : EosTxEvent → ℕ
  unfolding size_members
  size_tx_event t =
      8
      + 16
      + 16
      + packed_length (length t.body.members)
      + size_members t.body.members
      + 4
      + 16
      + packed_length (length t.body.extra)
      + length t.body.extra
      + 8
      + packed_length (length t.signatures)
      + 66 * length t.signatures

  unfoldable pub size_tx_request : EosTxRequest → ℕ
  unfolding size_members
  size_tx_request t =
      8
      + 8
      + 16
      + 16
      + packed_length (length t.body.members)
      + size_members t.body.members
      + 4
      + 16
      + packed_length (length t.body.extra)
      + length t.body.extra
      + 8

  unfoldable pub size_tx_log : EosTxLog → ℕ
  size_tx_log t =
      8
      + 8
      + 16
      + 16
      + packed_length (length t.body.members)
      + length t.body.members * 16
      + 4
      + 16
      + packed_length (length t.body.extra)
      + length t.body.extra
      + 8

  unfoldable pub size_add_process : EosAddProcess → ℕ
  size_add_process t = 8 + 16 + packed_length (length t.signatures) + 66 * length t.signatures
