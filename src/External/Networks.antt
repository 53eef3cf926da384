-- ===== src/External/Networks.antt =====
-- The services that the machine talks to: decimals of github.com/shopspring/decimal, the API of
-- Mixin Messenger, the group of github.com/MixinNetwork/nfo/mtg, its messenger, and the threshold
-- signatures of github.com/drand/kyber.
use trusted_group.Base.{ℕ, Bytes, Bool, List, Option, Outcome, Error, Ordering}

-- What the service knows of a collectible token.
pub record TokenInfo : Type 0 where
  pub token_id : Bytes
  pub token : Bytes
  pub group : Bytes

-- A service answers or fails; a call that only takes effect outside is known by its fault.
pub record Network : Type 1 where
  pub Decimal : Type 0
  pub decimal_cmp : Decimal → Decimal → Ordering
  pub decimal_string : Decimal → Bytes
  pub api_read_asset : Bytes → Outcome (Option (Bytes × Bytes))
  pub api_read_collectibles_token : Bytes → Outcome TokenInfo
  pub is_error_codes : Error → Bool
  pub unique_conversation_id : Bytes → Bytes → Bytes
  pub genesis_id : Bytes
  pub group_members : List Bytes
  pub group_threshold : ℕ
  pub transaction_fault : Bytes → Option Error
  pub queue_fault : Bytes → Bytes → Option Error
  pub broadcast_fault : Bytes → Option Error
  pub sign_partial : Bytes → Outcome Bytes
  pub verify_partial : Bytes → Bytes → Bool
  pub recover : Bytes → List Bytes → ℕ → ℕ → Outcome Bytes
  pub verify_full : Bytes → Bytes → Bool

-- An output of the group's wallet, with its time in nanoseconds.
module _ ⦃network : Network⦄ where
  open network use {Decimal}

  pub record Output : Type 0 where
    pub sender : Bytes
    pub asset_id : Bytes
    pub amount : Decimal
    pub utxo_id : Bytes
    pub memo : Bytes
    pub created_at : ℕ

  pub record CollectibleOutput : Type 0 where
    pub senders : List Bytes
    pub senders_threshold : ℕ
    pub token_id : Bytes
    pub amount : Decimal
    pub output_id : Bytes
    pub memo : Bytes
    pub created_at : ℕ
