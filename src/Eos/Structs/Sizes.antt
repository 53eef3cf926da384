-- ===== src/Eos/Structs/Sizes.antt =====
-- The sizes of mvm/eos/structs.go, for which the encoders reserve room.
use trusted_group.Base.{
  ◌+◌, ◌*◌, ◌≡◌, refl, Bytes, List, [], ◌∷◌, ◌++◌, length, length-append, All, arith,
}
use trusted_group.External.{Packer}
use trusted_group.Eos.Structs.{
  Body, EosTxRequest, EosTxLog, pack_members, pack_body, pack_tx_request, pack_tx_log,
}
use trusted_group.Eos.Structs.Room.{size_members, size_tx_request, size_tx_log}
use trusted_group.Eos.Structs.RoundTrip.{IsBody}

module _ ⦃packer : Packer⦄ where
  open packer use {
    pack_uint64, pack_int32, pack_length, pack_uint128, packed_length, pack_uint128-raw,
    length-pack_uint64, length-pack_int32, length-pack_length,
  }

  length-pack_members :
      (write : Bytes → Bytes) (ms : List Bytes)
      → ((m : Bytes) → length m ≡ 16 → write m ≡ m)
      → All (λ (m : Bytes). length m ≡ 16) ms
      → length (pack_members write ms) ≡ length ms * 16
  unfolding pack_members
  length-pack_members write [] p h = refl
  length-pack_members write (m ∷ ms) p (l, h) =
      rw (p m l) (
        omega (arith, length-append m (pack_members write ms), l, length-pack_members write ms p h))

  size_members-lengths :
      (ms : List Bytes)
      → All (λ (m : Bytes). length m ≡ 16) ms
      → size_members ms ≡ length ms * (packed_length 16 + 16)
  unfolding size_members
  size_members-lengths [] h = grind arith
  size_members-lengths (m ∷ ms) (l, h) = rw l (grind (arith, size_members-lengths ms h))

  length-pack_body :
      (write : Bytes → Bytes) (b : Body)
      → ((m : Bytes) → length m ≡ 16 → write m ≡ m)
      → IsBody b
      → length (pack_body write b)
        ≡ 60
          + packed_length (length b.members)
          + length b.members * 16
          + packed_length (length b.extra)
          + length b.extra
  unfolding pack_body
  length-pack_body write b p h =
      let d = b.extra ++ pack_uint64 b.timestamp in
      let e = pack_length (length b.extra) ++ d in
      let f = b.amount ++ e in
      let g = pack_int32 b.threshold ++ f in
      let i = pack_members write b.members ++ g in
      let j = pack_length (length b.members) ++ i in
      let k = b.asset ++ j in
      omega (
        arith,
        length-append b.process k,
        length-append b.asset j,
        length-append (pack_length (length b.members)) i,
        length-append (pack_members write b.members) g,
        length-append (pack_int32 b.threshold) f,
        length-append b.amount e,
        length-append (pack_length (length b.extra)) d,
        length-append b.extra (pack_uint64 b.timestamp),
        length-pack_members write b.members p h.member_lengths,
        length-pack_int32 b.threshold,
        length-pack_length (length b.members),
        length-pack_length (length b.extra),
        length-pack_uint64 b.timestamp,
        h.process_length,
        h.asset_length,
        h.amount_length,
      )

  -- `Size` of a log leaves out the eight bytes of the nonce.
  pub length-pack_tx_log :
      (t : EosTxLog) → IsBody t.body → length (pack_tx_log t) ≡ size_tx_log t + 8
  unfolding pack_tx_log size_tx_log
  length-pack_tx_log t h =
      let body = pack_body (λ m. m) t.body in
      omega (
        arith,
        length-append (pack_uint64 t.id) (pack_uint64 t.nonce ++ (pack_uint64 t.contract ++ body)),
        length-append (pack_uint64 t.nonce) (pack_uint64 t.contract ++ body),
        length-append (pack_uint64 t.contract) body,
        length-pack_uint64 t.id,
        length-pack_uint64 t.nonce,
        length-pack_uint64 t.contract,
        length-pack_body (λ m. m) t.body (λ m l. refl) h,
      )

  -- `Size` of a request counts the length of each member too, which `Pack` does not write.
  pub length-pack_tx_request :
      (t : EosTxRequest)
      → IsBody t.body
      → length (pack_tx_request t) + length t.body.members * packed_length 16 ≡ size_tx_request t
  unfolding pack_tx_request size_tx_request
  length-pack_tx_request t h =
      let body = pack_body pack_uint128 t.body in
      grind (
        arith,
        length-append (pack_uint64 t.id) (pack_uint64 t.nonce ++ body),
        length-append (pack_uint64 t.nonce) body,
        length-pack_uint64 t.id,
        length-pack_uint64 t.nonce,
        size_members-lengths t.body.members h.member_lengths,
        length-pack_body pack_uint128 t.body pack_uint128-raw h,
      )
