-- ===== src/External/Chains.antt =====
-- A node of the Quorum chain, and the keys of github.com/ethereum/go-ethereum.
use trusted_group.Base.{ℕ, Bytes, List, Outcome}

-- `notifier_key` makes the key of an address from the key of the engine; `public_address` is the
-- address of a key.
pub record Chain : Type 0 where
  pub verify_address : Bytes → Outcome (Unit {0})
  pub notifier_key : Bytes → Bytes → Outcome Bytes
  pub public_address : Bytes → Bytes
  pub get_address_nonce : Bytes → Outcome ℕ
  pub get_logs : ℕ → ℕ → Outcome (List (Bytes × Bytes))
  pub get_block_height : Outcome ℕ
