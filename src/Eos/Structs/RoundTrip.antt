-- ===== src/Eos/Structs/RoundTrip.antt =====
-- The structs of mvm/eos/structs.go are read back as they were packed.
use trusted_group.Base.{
  ℕ, ◌-◌, ◌^◌, ◌<◌, ◌≡◌, refl, ap, subst, Bytes, List, [], ◌∷◌, ◌++◌, append_assoc, append-nil,
  length, All, arith, ok,
}
use trusted_group.External.{Packer}
use trusted_group.Eos.Structs.{
  Body, EosTxEvent, EosTxRequest, EosTxLog, Reader, pack_members, pack_body, read_members_of,
  read_each, read_counted, read_body, read_signatures, read_tx_event, pack_tx_request,
  read_tx_request, unpack_tx_request, pack_tx_log, read_tx_log, unpack_tx_log, got, measured,
}

-- The lengths and the ranges of the fields in Go.
pub record IsBody (b : Body) : Type 0 where
  pub process_length : length b.process ≡ 16
  pub asset_length : length b.asset ≡ 16
  pub amount_length : length b.amount ≡ 16
  pub member_lengths : All (λ (m : Bytes). length m ≡ 16) b.members
  pub members_range : length b.members < 2 ^ 32
  pub threshold_range : b.threshold < 2 ^ 32
  pub extra_range : length b.extra < 2 ^ 32
  pub timestamp_range : b.timestamp < 2 ^ 64

module _ ⦃packer : Packer⦄ where
  open packer use {
    pack_uint64, pack_int32, pack_length, pack_uint128, read_bytes, read_uint64-pack,
    read_int32-pack, read_length-pack, read_name-pack, read_uint8-pack, read_uint128-raw,
    pack_uint128-raw, read_bytes-pack,
  }

  -- A writer of members that writes sixteen bytes as they are.
  abbrev pub Plain : (Bytes → Bytes) → Type 0
  Plain write = (m : Bytes) → length m ≡ 16 → write m ≡ m

  -- A reader of `extra` that reads a length and the bytes.
  abbrev pub Counted : Reader Bytes → Type 0
  Counted read =
      (e rest : Bytes)
      → length e < 2 ^ 32
      → read (pack_length (length e) ++ (e ++ rest)) ≡ ok (e, rest)

  read_members-pack :
      (write : Bytes → Bytes) (ms : List Bytes) (rest : Bytes)
      → Plain write
      → All (λ (m : Bytes). length m ≡ 16) ms
      → read_members_of (length ms) (pack_members write ms ++ rest) ≡ ok (ms, rest)
  unfolding read_members_of pack_members
  read_members-pack write [] rest p h = refl
  read_members-pack write (m ∷ ms) rest p (l, h) =
      rw
        (
          p m l,
          append_assoc,
          read_uint128-raw m (pack_members write ms ++ rest) l,
          read_members-pack write ms rest p h,
        )
        refl

  read_each-append : (e rest : Bytes) → read_each (length e) (e ++ rest) ≡ ok (e, rest)
  unfolding read_each
  read_each-append [] rest = refl
  read_each-append (b ∷ e) rest = rw (read_uint8-pack b (e ++ rest), read_each-append e rest) refl

  read_counted-Counted : Counted read_counted
  unfolding read_counted
  read_counted-Counted e rest h =
      rw (read_length-pack (length e) (e ++ rest) h) (read_each-append e rest)

  read_bytes-Counted : Counted (λ i. got (read_bytes i))
  read_bytes-Counted e rest h = rw (read_bytes-pack e rest h) refl

  pub read_body-pack :
      (write : Bytes → Bytes) (read : Reader Bytes) (b : Body) (rest : Bytes)
      → Plain write
      → Counted read
      → IsBody b
      → read_body read (pack_body write b ++ rest) ≡ ok (b, rest)
  unfolding read_body pack_body
  read_body-pack write read b rest p c h =
      let after_extra = pack_uint64 b.timestamp ++ rest in
      let after_amount = pack_length (length b.extra) ++ (b.extra ++ after_extra) in
      let after_threshold = b.amount ++ after_amount in
      let after_members = pack_int32 b.threshold ++ after_threshold in
      let after_count = pack_members write b.members ++ after_members in
      let after_asset = pack_length (length b.members) ++ after_count in
      let after_process = b.asset ++ after_asset in
      let flat : pack_body write b ++ rest ≡ b.process ++ after_process = simp append_assoc in
      rw flat (
        rw
          (
            read_uint128-raw b.process after_process h.process_length,
            read_uint128-raw b.asset after_asset h.asset_length,
            read_length-pack (length b.members) after_count h.members_range,
            read_members-pack write b.members after_members p h.member_lengths,
            read_int32-pack b.threshold after_threshold h.threshold_range,
            read_uint128-raw b.amount after_amount h.amount_length,
            c b.extra after_extra h.extra_range,
            read_uint64-pack b.timestamp rest h.timestamp_range,
          )
          refl)

  Plain-uint128 : Plain pack_uint128
  Plain-uint128 m h = pack_uint128-raw m h

  -- What a reader gives back, and how many bytes it took.
  pub measured_rest :
      {A : Type 0} (read : Reader A) (a : A) (p rest : Bytes)
      → read p ≡ ok (a, rest)
      → measured read p ≡ ok (a, length p - length rest)
  measured_rest read a p rest h = rw h refl

  measured_whole :
      {A : Type 0} (read : Reader A) (a : A) (p : Bytes)
      → read (p ++ []) ≡ ok (a, [])
      → measured read p ≡ ok (a, length p)
  measured_whole read a p h =
      let h' : read p ≡ ok (a, []) = subst (λ x. read x ≡ ok (a, [])) (append-nil p) h in
      rw h' (ap (λ n. ok (a, n)) (omega arith))

  read_request-pack :
      (t : EosTxRequest) (rest : Bytes)
      → IsBody t.body
      → t.id < 2 ^ 64
      → t.nonce < 2 ^ 64
      → read_tx_request (pack_tx_request t ++ rest) ≡ ok (t, rest)
  unfolding read_tx_request pack_tx_request
  read_request-pack t rest h i n =
      let after_nonce = pack_body pack_uint128 t.body ++ rest in
      let after_id = pack_uint64 t.nonce ++ after_nonce in
      let flat : pack_tx_request t ++ rest ≡ pack_uint64 t.id ++ after_id = simp append_assoc in
      rw flat (
        rw
          (
            read_uint64-pack t.id after_id i,
            read_uint64-pack t.nonce after_nonce n,
            read_body-pack pack_uint128 read_counted t.body rest Plain-uint128 read_counted-Counted
                h,
          )
          refl)

  read_log-pack :
      (t : EosTxLog) (rest : Bytes)
      → IsBody t.body
      → t.id < 2 ^ 64
      → t.nonce < 2 ^ 64
      → t.contract < 2 ^ 64
      → read_tx_log (pack_tx_log t ++ rest) ≡ ok (t, rest)
  unfolding read_tx_log pack_tx_log
  read_log-pack t rest h i n c =
      let after_contract = pack_body (λ m. m) t.body ++ rest in
      let after_nonce = pack_uint64 t.contract ++ after_contract in
      let after_id = pack_uint64 t.nonce ++ after_nonce in
      let flat : pack_tx_log t ++ rest ≡ pack_uint64 t.id ++ after_id = simp append_assoc in
      rw flat (
        rw
          (
            read_uint64-pack t.id after_id i,
            read_uint64-pack t.nonce after_nonce n,
            read_name-pack t.contract after_contract c,
            read_body-pack (λ m. m) (λ i. got (read_bytes i)) t.body rest (λ m l. refl)
                read_bytes-Counted h,
          )
          refl)

  -- A request that was packed is read back, with the number of its bytes, if its fields have the
  -- lengths and ranges of their types and there are less than 2 ^ 32 members and bytes of `extra`.
  pub unpack_tx_request-pack :
      (t : EosTxRequest)
      → IsBody t.body
      → t.id < 2 ^ 64
      → t.nonce < 2 ^ 64
      → unpack_tx_request (pack_tx_request t) ≡ ok (t, length (pack_tx_request t))
  unfolding unpack_tx_request
  unpack_tx_request-pack t h i n =
      measured_whole read_tx_request t (pack_tx_request t) (read_request-pack t [] h i n)

  -- A log that was packed is read back, with the number of its bytes, under the same conditions.
  pub unpack_tx_log-pack :
      (t : EosTxLog)
      → IsBody t.body
      → t.id < 2 ^ 64
      → t.nonce < 2 ^ 64
      → t.contract < 2 ^ 64
      → unpack_tx_log (pack_tx_log t) ≡ ok (t, length (pack_tx_log t))
  unfolding unpack_tx_log
  unpack_tx_log-pack t h i n c =
      measured_whole read_tx_log t (pack_tx_log t) (read_log-pack t [] h i n c)

  -- The part of an event in front of its signatures.
  pub read_event-pack :
      (t : EosTxEvent) (ss rest : Bytes) (size : ℕ) (read_back : List Bytes)
      → IsBody t.body
      → t.nonce < 2 ^ 64
      → read_signatures size ss ≡ ok (read_back, rest)
      → read_tx_event (pack_uint64 t.nonce ++ (pack_body pack_uint128 t.body ++ (size ∷ ss)))
        ≡ ok (record t { signatures = read_back }, rest)
  unfolding read_tx_event
  read_event-pack t ss rest size read_back h n sigs =
      rw
        (
          read_uint64-pack t.nonce (pack_body pack_uint128 t.body ++ (size ∷ ss)) n,
          read_body-pack pack_uint128 read_counted t.body (size ∷ ss) Plain-uint128
              read_counted-Counted h,
          read_uint8-pack size ss,
          sigs,
        )
        refl
