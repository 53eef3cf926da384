-- ===== src/Tests/EosRuns.antt =====
-- A request, a log, an event and a process of the EOS chain, packed and read back.
use trusted_group.Base.{
  ℕ, ◌+◌, ◌-◌, ◌≡◌, refl, Bytes, [], ◌∷◌, ◌++◌, Option, none, some, ok, arith, length, subst, take,
  drop,
}
use trusted_group.External.{Packer}
use trusted_group.Eos.Structs.{
  Body, EosTxEvent, EosTxRequest, EosTxLog, pack_tx_event, unpack_tx_event, pack_tx_request,
  unpack_tx_request, pack_tx_log, unpack_tx_log,
}
use trusted_group.Eos.Structs.Processes.{EosAddProcess, pack_add_process, unpack_add_process}
use trusted_group.Eos.Structs.Room.{size_tx_log}
use trusted_group.Eos.Structs.RoundTrip.{IsBody, unpack_tx_request-pack, unpack_tx_log-pack}
use trusted_group.Eos.Structs.Signatures.{
  unpack_tx_event-pack_unsigned, unpack_tx_event-pack_signed, behind_types, unpack_add_process-pack,
}
use trusted_group.Eos.Structs.Sizes.{length-pack_tx_log}
use trusted_group.Tests.Toy.{packets, zeros}

abbrev read_eight : Bytes → Option (ℕ × Bytes)
read_eight (a ∷ _ ∷ _ ∷ _ ∷ _ ∷ _ ∷ _ ∷ _ ∷ r) = some (a, r)
read_eight _ = none

abbrev read_four : Bytes → Option (ℕ × Bytes)
read_four (a ∷ _ ∷ _ ∷ _ ∷ r) = some (a, r)
read_four _ = none

abbrev read_one : Bytes → Option (ℕ × Bytes)
read_one (a ∷ r) = some (a, r)
read_one [] = none

abbrev read_text : Bytes → Option (Bytes × Bytes)
read_text [] = none
read_text (n ∷ r) = packets.read_exact n r

read_sixteen : (b rest : Bytes) → length b ≡ 16 → packets.read_exact 16 (b ++ rest) ≡ some (b, rest)
read_sixteen b rest h =
    subst (λ n. packets.read_exact n (b ++ rest) ≡ some (b, rest)) h
      (packets.read_exact-append b rest)

instance abbrev packer : Packer
packer = record {
  pack_uint64 = λ n. n ∷ zeros 7;
  pack_int32 = λ n. n ∷ zeros 3;
  pack_length = λ n. n ∷ [];
  pack_uint128 = λ b. b;
  packed_length = λ n. 1;
  read_uint64 = read_eight;
  read_int32 = read_four;
  read_length = read_one;
  read_name = read_eight;
  read_uint8 = read_one;
  read_uint128 = packets.read_exact 16;
  read_bytes = read_text;
  read_exact = packets.read_exact;
  name_of = λ b. 0;
  sha256 = λ b. b;
  sign = λ k b. ok b;
  length-pack_uint64 = λ n. refl;
  length-pack_int32 = λ n. refl;
  length-pack_length = λ n. refl;
  read_uint64-pack = λ n r h. refl;
  read_int32-pack = λ n r h. refl;
  read_length-pack = λ n r h. refl;
  read_name-pack = λ n r h. refl;
  read_uint8-pack = λ b r. refl;
  read_uint128-raw = read_sixteen;
  pack_uint128-raw = λ b h. refl;
  read_bytes-pack = λ b r h. packets.read_exact-append b r;
  read_exact-append = packets.read_exact-append;
}

abbrev a_body : Body
a_body = record {
  process = zeros 16;
  asset = zeros 16;
  members = zeros 16 ∷ [];
  threshold = 1;
  amount = zeros 16;
  extra = 7 ∷ [];
  timestamp = 5;
}

a_body-IsBody : IsBody a_body
a_body-IsBody = record {
  process_length = refl;
  asset_length = refl;
  amount_length = refl;
  member_lengths = (refl, tt);
  members_range = omega arith;
  threshold_range = omega arith;
  extra_range = omega arith;
  timestamp_range = omega arith;
}

abbrev request : EosTxRequest
request = record { id = 1; nonce = 2; body = a_body }

abbrev log : EosTxLog
log = record { id = 1; nonce = 2; contract = 3; body = a_body }

abbrev unsigned : EosTxEvent
unsigned = record { nonce = 2; body = a_body; signatures = [] }

abbrev signed : EosTxEvent
signed = record { nonce = 2; body = a_body; signatures = (zeros 64 ++ (9 ∷ [])) ∷ [] }

abbrev added : EosAddProcess
added = record { address = 3; process = zeros 16; signatures = zeros 65 ∷ [] }

-- The receiver, from an earlier use.
abbrev earlier : EosAddProcess
earlier = record { address = 4; process = zeros 16; signatures = (1 ∷ zeros 64) ∷ [] }

unpack_tx_request-pack_example :
    unpack_tx_request (pack_tx_request request) ≡ ok (request, length (pack_tx_request request))
unpack_tx_request-pack_example =
    unpack_tx_request-pack request a_body-IsBody (omega arith) (omega arith)

unpack_tx_log-pack_example : unpack_tx_log (pack_tx_log log) ≡ ok (log, length (pack_tx_log log))
unpack_tx_log-pack_example =
    unpack_tx_log-pack log a_body-IsBody (omega arith) (omega arith) (omega arith)

unpack_tx_event-pack_unsigned_example :
    unpack_tx_event (pack_tx_event unsigned) ≡ ok (unsigned, length (pack_tx_event unsigned))
unpack_tx_event-pack_unsigned_example =
    unpack_tx_event-pack_unsigned unsigned a_body-IsBody (omega arith) refl

unpack_tx_event-pack_signed_example :
    unpack_tx_event (pack_tx_event signed)
    ≡ ok (record signed { signatures = (0 ∷ zeros 64) ∷ [] }, length (pack_tx_event signed) - 1)
unpack_tx_event-pack_signed_example =
    unpack_tx_event-pack_signed signed (zeros 64) 9 a_body-IsBody (omega arith) refl refl

unpack_add_process-pack_example :
    (unpack_add_process earlier (pack_add_process added)
      ≡ ok (record added { signatures = earlier.signatures }, 24))
    × (take 1 (drop 24 (pack_add_process added)) ≡ 1 ∷ [])
    × (behind_types 1 (drop 25 (pack_add_process added)) ≡ zeros 65 ∷ [])
unpack_add_process-pack_example =
    unpack_add_process-pack earlier added (omega arith) refl (omega arith) (refl, tt)

length-pack_tx_log_example : length (pack_tx_log log) ≡ size_tx_log log + 8
length-pack_tx_log_example = length-pack_tx_log log a_body-IsBody
