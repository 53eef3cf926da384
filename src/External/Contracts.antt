-- ===== src/External/Contracts.antt =====
-- github.com/uuosio/chain: what a contract in Go takes from the EOS chain. The tables are those that
-- the build of a contract generates from its `//table` comments.
use trusted_group.Base.{
  ℕ, ◌+◌, ◌-◌, ◌%◌, ◌^◌, ◌<◌, ◌≤◌, ◌≡◌, ◌⊎◌, Bytes, Bool, true, false, Outcome, ok, panic, Option,
  none, some, List, [], ◌∷◌, ◌==◌, ◌&&◌, All, if◌then◌else◌,
}
use trusted_group.External.Databases.{Holds}

-- `chain.Check` and `chain.Assert`: a contract that fails one is stopped, and the chain undoes all
-- that the transaction did.
abbrev pub check : Bool → Outcome (Unit {0})
check true = ok tt
check false = panic

-- `chain.Asset`: the amount is an `int64` in two's complement.
pub record ChainAsset : Type 0 where
  pub amount : ℕ
  pub symbol : ℕ

-- The rows of a table without one key.
abbrev pub without {ℓ} : {A : Type ℓ} → ℕ → List (ℕ × A) → List (ℕ × A)
without k [] = []
without k ((j, a) ∷ l) = let rest = without k l in if j == k then rest else (j, a) ∷ rest

-- A table with its scopes and primary keys. `rows` is what an iterator from the lowest key runs
-- through; `search` looks a secondary key up.
pub record Tables : Type 1 where
  pub Rows : Type 0 → Type 0
  pub find : {V : Type 0} → Rows V → ℕ → ℕ → Option V
  pub put : {V : Type 0} → Rows V → ℕ → ℕ → V → Rows V
  pub store : {V : Type 0} → Rows V → ℕ → ℕ → V → Outcome (Rows V)
  pub remove : {V : Type 0} → Rows V → ℕ → ℕ → Rows V
  pub rows : {V : Type 0} → Rows V → ℕ → List (ℕ × V)
  pub search : {V : Type 0} → (V → ℕ) → Rows V → ℕ → ℕ → Option ℕ
  pub find-put :
      {V : Type 0} (r : Rows V) (s k : ℕ) (v : V) (t j : ℕ)
      → find (put r s k v) t j ≡ (if (s == t) && (k == j) then some v else find r t j)
  pub find-remove :
      {V : Type 0} (r : Rows V) (s k t j : ℕ)
      → find (remove r s k) t j ≡ (if (s == t) && (k == j) then none else find r t j)
  pub store_new :
      {V : Type 0} (r : Rows V) (s k : ℕ) (v : V)
      → find r s k ≡ none
      → store r s k v ≡ ok (put r s k v)
  pub store_known :
      {V : Type 0} (r : Rows V) (s k : ℕ) (v w : V) → find r s k ≡ some w → store r s k v ≡ panic
  pub rows_sound :
      {V : Type 0} (r : Rows V) (s : ℕ) → All (λ (kv : ℕ × V). find r s kv.0 ≡ some kv.1) (rows r s)
  pub rows_complete :
      {V : Type 0} (r : Rows V) (s k : ℕ) (v : V) → find r s k ≡ some v → Holds (k, v) (rows r s)
  pub rows-remove :
      {V : Type 0} (r : Rows V) (s k : ℕ) → rows (remove r s k) s ≡ without k (rows r s)
  pub search_sound :
      {V : Type 0} (f : V → ℕ) (r : Rows V) (s x k : ℕ)
      → search f r s x ≡ some k
      → (v : V) × (find r s k ≡ some v) × (f v ≡ x)
  pub search_complete :
      {V : Type 0} (f : V → ℕ) (r : Rows V) (s k : ℕ) (v : V)
      → find r s k ≡ some v
      → (j : ℕ) × (search f r s (f v) ≡ some j)

-- Names, symbols, amounts and keys. `asset_add` and `asset_sub` stop the contract where they do not
-- work; a `Uint128` is the number that it holds.
pub record Chaining : Type 0 where
  pub new_name : Bytes → ℕ
  pub new_symbol : Bytes → ℕ → ℕ
  pub symbol_code : ℕ → ℕ
  pub symbol_valid : ℕ → Bool
  pub asset_valid : ChainAsset → Bool
  pub asset_add : ChainAsset → ChainAsset → Outcome ChainAsset
  pub asset_sub : ChainAsset → ChainAsset → Outcome ChainAsset
  pub active_name : ℕ
  pub eosio_name : ℕ
  pub max_amount : ℕ
  pub uint128_sub : ℕ → ℕ → ℕ
  pub pack_name : ℕ → Bytes
  pub pack_uint128 : ℕ → Bytes
  pub sha256 : Bytes → Bytes
  pub recover_key : Bytes → Bytes → Outcome Bytes
  pub uint128_sub_le : (a b : ℕ) → b ≤ a → uint128_sub a b ≡ a - b
  pub asset_valid_bounds :
      (a : ChainAsset) → asset_valid a ≡ true → (a.amount < 2 ^ 62) ⊎ (2 ^ 64 - 2 ^ 62 < a.amount)
  pub asset_add_ok :
      (a b c : ChainAsset)
      → asset_add a b ≡ ok c
      → (a.symbol ≡ b.symbol) × (c.symbol ≡ a.symbol) × (c.amount ≡ (a.amount + b.amount) % 2 ^ 64)
  pub asset_sub_ok :
      (a b c : ChainAsset)
      → asset_sub a b ≡ ok c
      → (a.symbol ≡ b.symbol)
        × (c.symbol ≡ a.symbol)
        × (c.amount ≡ (a.amount + (2 ^ 64 - b.amount)) % 2 ^ 64)

-- What a running action is given: the accounts that it runs for, who has authorised it, which
-- accounts exist, and the time in microseconds and in seconds.
pub record Call : Type 0 where
  pub receiver : ℕ
  pub first_receiver : ℕ
  pub has_auth : ℕ → Bool
  pub is_account : ℕ → Bool
  pub current_time : ℕ
  pub current_seconds : ℕ
