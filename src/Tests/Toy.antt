-- ===== src/Tests/Toy.antt =====
-- Small implementations of the packages that the program takes from outside.
use trusted_group.Base.{
  ℕ, zero, suc, ◌+◌, ◌-◌, ◌*◌, ◌≡◌, refl, Bytes, Bool, false, List, [], ◌∷◌, ◌++◌, Option, none,
  some, compare, ltb, lt→ltb, le→ltb, length, length-append, take, drop, take-append, drop-append,
  arith, if◌then◌else◌,
}
use trusted_group.External.{Integers, Wire, Json}
use trusted_group.Encoding.{Event}
use trusted_group.Machine.Types.{Process, AccountSnapshot, Asset, CollectibleToken}
use trusted_group.Tests.Packed.{number, flag, bytes, list, pair, through, json}

abbrev pub head_or_zero : Bytes → ℕ
head_or_zero [] = 0
head_or_zero (n ∷ _) = n

abbrev pub unit_range : ℕ
unit_range = 100_000_000

instance abbrev pub amounts : Integers
amounts = record {
  Integer = ℕ;
  units = λ a. a;
  zero_integer = 0;
  new_integer = λ n. n * unit_range;
  add = λ a b. a + b;
  sub = λ a b. a - b;
  add_panics = λ a b. false;
  sub_panics = λ a b. false;
  mul = λ a n. a * n;
  cmp = compare;
  sign = λ a. compare a 0;
  to_string = λ a. a ∷ [];
  of_string = head_or_zero;
  units-zero_integer = refl;
  units-add = λ a b h. refl;
  units-sub = λ a b h k. refl;
  add_works = λ a b h. refl;
  sub_works = λ a b h k. refl;
  units-mul = λ a n. refl;
  cmp-units = λ a b. refl;
  sign-units = λ a. refl;
  of_string-to_string = λ a. refl;
}

abbrev pub take_cell : Bytes → Option (ℕ × Bytes)
take_cell [] = none
take_cell (n ∷ r) = some (n, r)

abbrev pub take_exact : ℕ → Bytes → Option (Bytes × Bytes)
take_exact n b = if ltb (length b) n then none else some (take n b, drop n b)

pub take_exact-append : (b rest : Bytes) → take_exact (length b) (b ++ rest) ≡ some (b, rest)
take_exact-append b rest = rw (
  le→ltb (length (b ++ rest)) (length b) (omega (arith, length-append b rest)),
  take-append b rest,
  drop-append b rest,
)

abbrev pub take_field : Bytes → Option (Bytes × Bytes)
take_field [] = none
take_field (n ∷ r) = take_exact n r

abbrev pub first_cell : Bytes → Option ℕ
first_cell [] = none
first_cell (n ∷ r) = some n

abbrev pub zeros : ℕ → Bytes
zeros zero = []
zeros (suc n) = 0 ∷ zeros n

instance abbrev pub packets : Wire
packets = record {
  fits_int = λ n. ltb n 65536;
  write_int = λ n. n ∷ [];
  write_uint64 = λ n. n ∷ [];
  write_integer = λ n. n ∷ [];
  read_exact = take_exact;
  read_int = take_cell;
  read_uint64 = take_cell;
  read_integer = take_cell;
  read_bytes = take_field;
  Uuid = ℕ;
  uuid_from_string = first_cell;
  uuid_from_bytes = first_cell;
  uuid_bytes = λ u. u ∷ zeros 15;
  uuid_string = λ u. u ∷ zeros 35;
  fits_small = λ n h. lt→ltb n 65536 (omega arith);
  read_exact-append = take_exact-append;
  read_int-write_int = λ n rest h. refl;
  read_uint64-write_uint64 = λ n rest h. refl;
  read_integer-write_integer = λ a rest. refl;
  read_bytes-write = λ b rest h. take_exact-append b rest;
  length-uuid_bytes = λ u. refl;
  length-uuid_string = λ u. refl;
  uuid_from_bytes-uuid_bytes = λ u. refl;
  uuid_from_string-uuid_string = λ u. refl;
}

abbrev pub EventFields : Type 0
EventFields = (Bytes × Bytes) × ((List Bytes × (ℕ × ℕ)) × ((Bytes × (ℕ × ℕ)) × Bytes))

abbrev pub event_fields : Event → EventFields
event_fields e = (
  (e.process, e.asset),
  ((e.members, (e.threshold, e.amount)), ((e.extra, (e.timestamp, e.nonce)), e.signature)),
)

abbrev pub event_of : EventFields → Event
event_of f = record {
  process = f.0.0;
  asset = f.0.1;
  members = f.1.0.0;
  threshold = f.1.0.1.0;
  amount = f.1.0.1.1;
  extra = f.1.1.0.0;
  timestamp = f.1.1.0.1.0;
  nonce = f.1.1.0.1.1;
  signature = f.1.1.1;
}

instance abbrev pub event_json : Json Event
event_json = json (
    through
      (pair (pair bytes bytes) (
        pair (pair (list bytes) (pair number number))
          (pair (pair bytes (pair number number)) bytes)))
      event_fields event_of (λ e. refl))

abbrev pub ProcessFields : Type 0
ProcessFields = (Bytes × (Bytes × Bytes)) × ((ℕ × ℕ) × Bool)

abbrev pub process_fields : Process → ProcessFields
process_fields p = ((p.identifier, (p.platform, p.address)), ((p.credit, p.nonce), p.asset))

abbrev pub process_of : ProcessFields → Process
process_of f = record {
  identifier = f.0.0;
  platform = f.0.1.0;
  address = f.0.1.1;
  credit = f.1.0.0;
  nonce = f.1.0.1;
  asset = f.1.1;
}

instance abbrev pub process_json : Json Process
process_json = json (
    through (pair (pair bytes (pair bytes bytes)) (pair (pair number number) flag)) process_fields
      process_of (λ p. refl))

abbrev pub SnapshotFields : Type 0
SnapshotFields = (Bytes × Bytes) × ((ℕ × ℕ) × Bool)

abbrev pub snapshot_fields : AccountSnapshot → SnapshotFields
snapshot_fields a = ((a.process, a.asset), ((a.nonce, a.amount), a.credit))

abbrev pub snapshot_of : SnapshotFields → AccountSnapshot
snapshot_of f = record {
  process = f.0.0;
  nonce = f.1.0.0;
  asset = f.0.1;
  amount = f.1.0.1;
  credit = f.1.1;
}

instance abbrev pub snapshot_json : Json AccountSnapshot
snapshot_json = json (
    through (pair (pair bytes bytes) (pair (pair number number) flag)) snapshot_fields snapshot_of
      (λ a. refl))

abbrev pub Texts : Type 0
Texts = Bytes × (Bytes × Bytes)

abbrev pub asset_of : Texts → Asset
asset_of f = record { id = f.0; symbol = f.1.0; name = f.1.1 }

instance abbrev pub asset_json : Json Asset
asset_json =
    json (
      through (pair bytes (pair bytes bytes)) (λ a. (a.id, (a.symbol, a.name))) asset_of
        (λ a. refl))

abbrev pub token_of : Texts → CollectibleToken
token_of f = record { id = f.0; symbol = f.1.0; name = f.1.1 }

instance abbrev pub token_json : Json CollectibleToken
token_json =
    json (
      through (pair bytes (pair bytes bytes)) (λ a. (a.id, (a.symbol, a.name))) token_of
        (λ a. refl))
