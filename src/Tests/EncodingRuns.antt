-- ===== src/Tests/EncodingRuns.antt =====
-- The theorems on mvm/encoding at concrete messages.
use trusted_group.Base.{ℕ, ◌≡◌, refl, Bytes, [], ◌∷◌, ◌++◌, arith, text}
use trusted_group.Base.{ok, panic, ◌⊎◌}
use trusted_group.Encoding.{
  Event, Operation, encode_event, decode_event, encode_operation, decode_operation,
  purpose_group_event,
}
use trusted_group.Encoding.Bounds.{IsBounded, encode_event_bounds}
use trusted_group.Encoding.RoundTrip.{
  IsEncodable, IsEncodableOperation, decode_event-encode_event, decode_operation-encode_operation,
}
use trusted_group.Tests.Toy.{amounts, packets, zeros}

abbrev id_of : ℕ → Bytes
id_of n = n ∷ zeros 35

abbrev deposit : Event
deposit = record {
  process = id_of 1;
  asset = id_of 2;
  members = id_of 3 ∷ id_of 4 ∷ [];
  threshold = 2;
  amount = 150_000_000;
  extra = text "memo";
  timestamp = 1_600_000_000;
  nonce = 7;
  signature = [];
}

deposit-IsEncodable : IsEncodable deposit
deposit-IsEncodable = record {
  process = (1, refl);
  asset = (2, refl);
  member_ids = ((3, refl), ((4, refl), tt));
  few_members = omega arith;
  reachable = omega arith;
  extra_size = omega arith;
  signature_size = omega arith;
  nonce_range = omega arith;
  timestamp_range = omega arith;
}

decode_event-encode_event_example :
    (b : Bytes) × (encode_event deposit ≡ ok b)
    × ((rest : Bytes) → decode_event (b ++ rest) ≡ ok deposit)
decode_event-encode_event_example = decode_event-encode_event deposit deposit-IsEncodable

abbrev send : Operation
send = record {
  purpose = purpose_group_event;
  process = id_of 1;
  platform = text "quorum";
  address = text "0x12";
  extra = [];
}

send-IsEncodableOperation : IsEncodableOperation send
send-IsEncodableOperation = record {
  purpose_fits = refl;
  process = (1, refl);
  platform_size = omega arith;
  address_size = omega arith;
  extra_size = omega arith;
}

decode_operation-encode_operation_example :
    (b : Bytes) × (encode_operation send ≡ ok b)
    × ((rest : Bytes) → decode_operation (b ++ rest) ≡ ok send)
decode_operation-encode_operation_example =
    decode_operation-encode_operation send send-IsEncodableOperation

encode_event_bounds_example :
    ((b : Bytes) × (encode_event deposit ≡ ok b) × IsBounded deposit)
    ⊎ (encode_event deposit ≡ panic)
encode_event_bounds_example = encode_event_bounds deposit
