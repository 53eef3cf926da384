-- ===== src/Encoding/RoundTrip.antt =====
-- An event, and an operation, that is written is read back.
use trusted_group.Base.{
  ◌≤◌, ◌<◌, ◌^◌, ◌≡◌, Bytes, le→ltb, length, [], ◌++◌, append_assoc, append-nil, All, arith, true,
}
use trusted_group.Base.{ok}
use trusted_group.External.{Integers, Wire}
use trusted_group.Encoding.Common.{put_int}
use trusted_group.Encoding.Messages.{Event, encode_event, decode_event}
use trusted_group.Encoding.Operations.{Operation, encode_operation, decode_operation}
use trusted_group.Encoding.Fields.{
  IsUuid, uuids_bytes, field_bytes, put_int_lem, write_uuid_lem, write_bytes_lem, write_members_lem,
  read_uuid_lem, read_field_lem, read_members_lem,
}

module _ ⦃ints : Integers⦄ ⦃wire : Wire⦄ where
  open wire use {
    fits_int, write_int, write_uint64, write_integer, uuid_bytes, fits_small, read_int-write_int,
    read_uint64-write_uint64, read_integer-write_integer,
  }

  -- The events that the code may encode: canonical identifiers, sizes within the limits of the
  -- format, 64-bit counters.
  pub record IsEncodable (e : Event) : Type 0 where
    pub process : IsUuid e.process
    pub asset : IsUuid e.asset
    pub member_ids : All IsUuid e.members
    pub few_members : length e.members ≤ 64
    pub reachable : e.threshold ≤ length e.members
    pub extra_size : length e.extra ≤ 256
    pub signature_size : length e.signature ≤ 256
    pub nonce_range : e.nonce < 2 ^ 64
    pub timestamp_range : e.timestamp < 2 ^ 64

  -- The bytes of an event, with what follows them.
  abbrev pub event_layout : (e : Event) → IsEncodable e → Bytes → Bytes
  event_layout e h rest =
      uuid_bytes h.process.0
      ++ (write_uint64 e.nonce
          ++ (uuid_bytes h.asset.0
              ++ (write_integer e.amount
                  ++ (field_bytes e.extra
                      ++ (write_uint64 e.timestamp
                          ++ (write_int (length e.members)
                              ++ (uuids_bytes e.members h.member_ids
                                  ++ (write_int e.threshold
                                      ++ (field_bytes e.signature ++ rest)))))))))

  pub encode_event_lem : (e : Event) (h : IsEncodable e) → encode_event e ≡ ok (event_layout e h [])
  unfolding encode_event
  encode_event_lem e h =
      rw
        (
          write_uuid_lem [] e.process h.process,
          write_uuid_lem _ e.asset h.asset,
          write_bytes_lem _ e.extra h.extra_size,
          le→ltb 64 (length e.members) h.few_members,
          put_int_lem _ (length e.members) (omega (arith, h.few_members)),
          write_members_lem _ e.members h.member_ids,
          le→ltb (length e.members) e.threshold h.reachable,
          put_int_lem _ e.threshold (omega (arith, h.few_members, h.reachable)),
          write_bytes_lem _ e.signature h.signature_size,
        )
        (simp (append_assoc, append-nil))

  decode_event_lem :
      (e : Event) (h : IsEncodable e) (rest : Bytes) → decode_event (event_layout e h rest) ≡ ok e
  unfolding decode_event
  decode_event_lem e h rest = rw (
    read_uuid_lem e.process _ h.process,
    read_uint64-write_uint64 e.nonce _ h.nonce_range,
    read_uuid_lem e.asset _ h.asset,
    read_integer-write_integer e.amount _,
    read_field_lem e.extra _ h.extra_size,
    read_uint64-write_uint64 e.timestamp _ h.timestamp_range,
    read_int-write_int (length e.members) _
        (fits_small (length e.members) (omega (arith, h.few_members))),
    read_members_lem e.members _ h.member_ids,
    read_int-write_int e.threshold _
        (fits_small e.threshold (omega (arith, h.few_members, h.reachable))),
    read_field_lem e.signature rest h.signature_size,
  )

  event_layout-append :
      (e : Event) (h : IsEncodable e) (rest : Bytes)
      → event_layout e h [] ++ rest ≡ event_layout e h rest
  event_layout-append e h rest = simp append_assoc

  -- An encodable event is encoded without a panic, and decoding the result gives the event back,
  -- whatever bytes follow it.
  pub decode_event-encode_event :
      (e : Event)
      → IsEncodable e
      → (b : Bytes) × (encode_event e ≡ ok b) × ((rest : Bytes) → decode_event (b ++ rest) ≡ ok e)
  decode_event-encode_event e h = (
    event_layout e h [],
    encode_event_lem e h,
    λ rest. rw event_layout-append (decode_event_lem e h rest),
  )

  pub record IsEncodableOperation (o : Operation) : Type 0 where
    pub purpose_fits : fits_int o.purpose ≡ true
    pub process : IsUuid o.process
    pub platform_size : length o.platform ≤ 256
    pub address_size : length o.address ≤ 256
    pub extra_size : length o.extra ≤ 256

  abbrev operation_layout : (o : Operation) → IsEncodableOperation o → Bytes → Bytes
  operation_layout o h rest =
      write_int o.purpose
      ++ (uuid_bytes h.process.0
          ++ (field_bytes o.platform ++ (field_bytes o.address ++ (field_bytes o.extra ++ rest))))

  encode_operation_lem :
      (o : Operation) (h : IsEncodableOperation o)
      → encode_operation o ≡ ok (operation_layout o h [])
  unfolding encode_operation put_int
  encode_operation_lem o h =
      rw
        (
          h.purpose_fits,
          write_uuid_lem _ o.process h.process,
          write_bytes_lem _ o.platform h.platform_size,
          write_bytes_lem _ o.address h.address_size,
          write_bytes_lem _ o.extra h.extra_size,
        )
        (simp (append_assoc, append-nil))

  decode_operation_lem :
      (o : Operation) (h : IsEncodableOperation o) (rest : Bytes)
      → decode_operation (operation_layout o h rest) ≡ ok o
  unfolding decode_operation
  decode_operation_lem o h rest = rw (
    read_int-write_int o.purpose _ h.purpose_fits,
    read_uuid_lem o.process _ h.process,
    read_field_lem o.platform _ h.platform_size,
    read_field_lem o.address _ h.address_size,
    read_field_lem o.extra rest h.extra_size,
  )

  operation_layout-append :
      (o : Operation) (h : IsEncodableOperation o) (rest : Bytes)
      → operation_layout o h [] ++ rest ≡ operation_layout o h rest
  operation_layout-append o h rest = simp append_assoc

  -- An encodable operation is encoded without a panic, and decoding the result gives the operation
  -- back, whatever bytes follow it.
  pub decode_operation-encode_operation :
      (o : Operation)
      → IsEncodableOperation o
      → (b : Bytes) × (encode_operation o ≡ ok b)
        × ((rest : Bytes) → decode_operation (b ++ rest) ≡ ok o)
  decode_operation-encode_operation o h = (
    operation_layout o h [],
    encode_operation_lem o h,
    λ rest. rw operation_layout-append (decode_operation_lem o h rest),
  )
