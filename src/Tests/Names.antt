-- ===== src/Tests/Names.antt =====
-- A small chain: names are the numbers of their letters, a symbol is its code with a byte for the
-- precision, and a key is recovered from a signature by its first byte.
use trusted_group.Base.{
  ℕ, refl, ◌+◌, ◌-◌, ◌/◌, ◌%◌, ◌*◌, ◌^◌, ◌<◌, ◌≡◌, Bytes, Bool, true, false, ltb, ◌==◌, ◌||◌, [],
  ◌∷◌, ◌⊎◌, inl, inr, arith, ap, Outcome, ok, panic, sym, ok_injective, Bool-cases, ==_iff,
}
use trusted_group.External.{ChainAsset, Chaining, Call}

abbrev pub asset_of : ℕ → ℕ → ChainAsset
asset_of amount symbol = record { amount = amount; symbol = symbol }

abbrev pub number_of : Bytes → ℕ
number_of [] = 0
number_of (b ∷ bs) = b + 256 * number_of bs

abbrev pub in_range : ChainAsset → Bool
in_range a = ltb a.amount (2 ^ 62) || ltb (2 ^ 64 - 2 ^ 62) a.amount

pub in_range_bounds :
    (a : ChainAsset) → in_range a ≡ true → (a.amount < 2 ^ 62) ⊎ (2 ^ 64 - 2 ^ 62 < a.amount)
in_range_bounds a h = ground arith

abbrev pub combine : Bool → ℕ → ℕ → Outcome ChainAsset
combine true amount symbol = ok (asset_of amount symbol)
combine false amount symbol = panic

pub combine_ok :
    (a b c : ChainAsset) (n : ℕ)
    → combine (a.symbol == b.symbol) n a.symbol ≡ ok c
    → (a.symbol ≡ b.symbol) × (c.symbol ≡ a.symbol) × (c.amount ≡ n)
combine_ok a b c n h = elim (Bool-cases (a.symbol == b.symbol)) [
  | inl e ↦
      let same : asset_of n a.symbol ≡ c = ok_injective (rw e at h) in
      (
        (==_iff a.symbol b.symbol).0 e,
        ap (λ (x : ChainAsset). x.symbol) (sym same),
        ap (λ (x : ChainAsset). x.amount) (sym same),
      )
  | inr e ↦ absurd (let f : panic ≡ ok c = rw e at h in cc)
]

abbrev pub recovered : Bytes → Bytes → Outcome Bytes
recovered digest [] = panic
recovered digest (b ∷ rest) = ok (b ∷ [])

instance abbrev pub small_chain : Chaining
small_chain = record {
  new_name = number_of;
  new_symbol = λ b n. number_of b * 256 + n;
  symbol_code = λ s. s / 256;
  symbol_valid = λ s. true;
  asset_valid = in_range;
  asset_add = λ a b. combine (a.symbol == b.symbol) ((a.amount + b.amount) % 2 ^ 64) a.symbol;
  asset_sub =
      λ a b. combine (a.symbol == b.symbol) ((a.amount + (2 ^ 64 - b.amount)) % 2 ^ 64) a.symbol;
  active_name = 1;
  eosio_name = 2;
  max_amount = 2 ^ 62 - 1;
  uint128_sub = λ a b. a - b;
  pack_name = λ n. n ∷ [];
  pack_uint128 = λ n. n ∷ [];
  sha256 = λ b. b;
  recover_key = recovered;
  uint128_sub_le = λ a b h. refl;
  asset_valid_bounds = in_range_bounds;
  asset_add_ok = λ a b c h. combine_ok a b c _ h;
  asset_sub_ok = λ a b c h. combine_ok a b c _ h;
}

-- A call of the contract `receiver` by everyone.
abbrev pub call_of : ℕ → Call
call_of receiver = record {
  receiver = receiver;
  first_receiver = receiver;
  has_auth = λ n. true;
  is_account = λ n. true;
  current_time = 1000;
  current_seconds = 1;
}
