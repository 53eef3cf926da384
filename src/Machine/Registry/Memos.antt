-- ===== src/Machine/Registry/Memos.antt =====
-- An operation reaches the machine through the memo of an output, in Base64.
use trusted_group.Base.{
  ℕ, ◌<◌, ◌≡◌, refl, subst, ◌∙◌, Bytes, ◌==◌, All, [], append-nil, encode_base64,
  decode_base64-encode_base64, if◌then◌else◌, arith,
}
use trusted_group.Base.{ok}
use trusted_group.External.{Integers, Wire, Database, Json, Network, Output}
use trusted_group.Encoding.{
  Event, Operation, encode_operation, decode_operation, purpose_group_event, purpose_add_process,
}
use trusted_group.Encoding.RoundTrip.{IsEncodableOperation, decode_operation-encode_operation}
use trusted_group.Machine.Types.{Process, AccountSnapshot, Asset, CollectibleToken}
use trusted_group.Machine.State.{Engine, Machine}
use trusted_group.Machine.Deposits.{write_group_event}
use trusted_group.Machine.Registry.{
  parse_operation, process_output, add_process, machine_of, output_grouper,
}

module _ ⦃ints : Integers⦄ ⦃wire : Wire⦄ where
  decode_operation-encoded :
      (o : Operation) (b : Bytes)
      → IsEncodableOperation o
      → encode_operation o ≡ ok b
      → decode_operation b ≡ ok o
  decode_operation-encoded o b h e =
      let (b', e', back) = decode_operation-encode_operation o h in
      let same : b' ≡ b = ground arith in
      subst (λ x. decode_operation x ≡ ok o) (append-nil b' ∙ same) (back [])

module _ ⦃ints : Integers⦄ ⦃wire : Wire⦄ ⦃database : Database⦄ ⦃network : Network⦄ ⦃engine : Engine⦄
    ⦃event_json : Json Event⦄ ⦃process_json : Json Process⦄ ⦃snapshot_json : Json AccountSnapshot⦄
    ⦃asset_json : Json Asset⦄ ⦃token_json : Json CollectibleToken⦄ where
  parse_operation-memo :
      (o : Operation) (b : Bytes)
      → IsEncodableOperation o
      → encode_operation o ≡ ok b
      → All (λ (x : ℕ). x < 256) b
      → parse_operation (encode_base64 b) ≡ ok o
  unfolding parse_operation
  parse_operation-memo o b h e small =
      rw (decode_base64-encode_base64 b small) (decode_operation-encoded o b h e)

  -- For an operation that can be encoded, to bytes of eight bits, an output whose memo is the Base64
  -- text of the encoding is grouped by the operation's process; it adds a process or writes an event,
  -- by the operation's purpose, with the operation's fields, and does nothing for any other purpose.
  pub process_output-memo :
      (m : Machine) (out : Output) (o : Operation) (b : Bytes)
      → IsEncodableOperation o
      → encode_operation o ≡ ok b
      → All (λ (x : ℕ). x < 256) b
      → out.memo ≡ encode_base64 b
      → (output_grouper out ≡ ok o.process)
        × (process_output m out ≡ (
            if o.purpose == purpose_add_process
            then machine_of (add_process m o.process o.platform o.address out o.extra)
            else if o.purpose == purpose_group_event
            then write_group_event m o.process out o.extra
            else ok m))
  unfolding process_output output_grouper
  process_output-memo m out o b h e small memo =
      let parsed : parse_operation out.memo ≡ ok o = rw memo (parse_operation-memo o b h e small) in
      (rw (output_grouper, parsed) refl, rw (process_output, parsed) refl)
