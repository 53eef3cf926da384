-- ===== src/Store/Keys/Kinds/Accounts.antt =====
-- No key of another kind is the key of a balance or of a movement.
use trusted_group.Base.{ℕ, Bytes, Bool, true, false, ◌≡◌, refl, beq, ◌++◌}
use trusted_group.External.{Integers}
use trusted_group.Encoding.{Event}
use trusted_group.Store.Keys.{
  pending_event_identifier_key, process_key, pending_event_signatures_key, signed_event_timed_key,
  pending_event_timed_key, account_balance_key, engine_offset_key, asset_meta_key,
  collectible_token_meta_key, collectible_or_asset_key, snapshot_prefix,
}

module _ ⦃ints : Integers⦄ where
  pub engine_offset-ne-account_balance :
      (pid : Bytes) (p q : Bytes) → beq (engine_offset_key pid) (account_balance_key p q) ≡ false
  unfolding engine_offset_key account_balance_key beq
  engine_offset-ne-account_balance pid p q = refl

  pub engine_offset-ne-movement :
      (pid : Bytes) (c : Bool) (m : Bytes)
      → beq (engine_offset_key pid) (snapshot_prefix c ++ m) ≡ false
  unfolding engine_offset_key snapshot_prefix beq
  engine_offset-ne-movement pid true m = refl
  engine_offset-ne-movement pid false m = refl

  pub asset_meta-ne-account_balance :
      (id : Bytes) (p q : Bytes) → beq (asset_meta_key id) (account_balance_key p q) ≡ false
  unfolding asset_meta_key account_balance_key beq
  asset_meta-ne-account_balance id p q = refl

  pub asset_meta-ne-movement :
      (id : Bytes) (c : Bool) (m : Bytes) → beq (asset_meta_key id) (snapshot_prefix c ++ m) ≡ false
  unfolding asset_meta_key snapshot_prefix beq
  asset_meta-ne-movement id true m = refl
  asset_meta-ne-movement id false m = refl

  pub collectible_token_meta-ne-account_balance :
      (id : Bytes) (p q : Bytes)
      → beq (collectible_token_meta_key id) (account_balance_key p q) ≡ false
  unfolding collectible_token_meta_key account_balance_key beq
  collectible_token_meta-ne-account_balance id p q = refl

  pub collectible_token_meta-ne-movement :
      (id : Bytes) (c : Bool) (m : Bytes)
      → beq (collectible_token_meta_key id) (snapshot_prefix c ++ m) ≡ false
  unfolding collectible_token_meta_key snapshot_prefix beq
  collectible_token_meta-ne-movement id true m = refl
  collectible_token_meta-ne-movement id false m = refl

  pub collectible_or_asset-ne-account_balance :
      (id : Bytes) (p q : Bytes)
      → beq (collectible_or_asset_key id) (account_balance_key p q) ≡ false
  unfolding collectible_or_asset_key account_balance_key beq
  collectible_or_asset-ne-account_balance id p q = refl

  pub collectible_or_asset-ne-movement :
      (id : Bytes) (c : Bool) (m : Bytes)
      → beq (collectible_or_asset_key id) (snapshot_prefix c ++ m) ≡ false
  unfolding collectible_or_asset_key snapshot_prefix beq
  collectible_or_asset-ne-movement id true m = refl
  collectible_or_asset-ne-movement id false m = refl

  pub process-ne-account_balance :
      (pid : Bytes) (p q : Bytes) → beq (process_key pid) (account_balance_key p q) ≡ false
  unfolding process_key account_balance_key beq
  process-ne-account_balance pid p q = refl

  pub process-ne-movement :
      (pid : Bytes) (c : Bool) (m : Bytes) → beq (process_key pid) (snapshot_prefix c ++ m) ≡ false
  unfolding process_key snapshot_prefix beq
  process-ne-movement pid true m = refl
  process-ne-movement pid false m = refl

  pub pending_event_identifier-ne-account_balance :
      (id : Bytes) (p q : Bytes)
      → beq (pending_event_identifier_key id) (account_balance_key p q) ≡ false
  unfolding pending_event_identifier_key account_balance_key beq
  pending_event_identifier-ne-account_balance id p q = refl

  pub pending_event_identifier-ne-movement :
      (id : Bytes) (c : Bool) (m : Bytes)
      → beq (pending_event_identifier_key id) (snapshot_prefix c ++ m) ≡ false
  unfolding pending_event_identifier_key snapshot_prefix beq
  pending_event_identifier-ne-movement id true m = refl
  pending_event_identifier-ne-movement id false m = refl

  pub pending_event_signatures-ne-account_balance :
      (pid : Bytes) (n : ℕ) (p q : Bytes)
      → beq (pending_event_signatures_key pid n) (account_balance_key p q) ≡ false
  unfolding pending_event_signatures_key account_balance_key beq
  pending_event_signatures-ne-account_balance pid n p q = refl

  pub pending_event_signatures-ne-movement :
      (pid : Bytes) (n : ℕ) (c : Bool) (m : Bytes)
      → beq (pending_event_signatures_key pid n) (snapshot_prefix c ++ m) ≡ false
  unfolding pending_event_signatures_key snapshot_prefix beq
  pending_event_signatures-ne-movement pid n true m = refl
  pending_event_signatures-ne-movement pid n false m = refl

  pub signed_event_timed-ne-account_balance :
      (pid : Bytes) (n : ℕ) (p q : Bytes)
      → beq (signed_event_timed_key pid n) (account_balance_key p q) ≡ false
  unfolding signed_event_timed_key account_balance_key beq
  signed_event_timed-ne-account_balance pid n p q = refl

  pub signed_event_timed-ne-movement :
      (pid : Bytes) (n : ℕ) (c : Bool) (m : Bytes)
      → beq (signed_event_timed_key pid n) (snapshot_prefix c ++ m) ≡ false
  unfolding signed_event_timed_key snapshot_prefix beq
  signed_event_timed-ne-movement pid n true m = refl
  signed_event_timed-ne-movement pid n false m = refl

  pub pending_event_timed-ne-account_balance :
      (e : Event) (p q : Bytes) → beq (pending_event_timed_key e) (account_balance_key p q) ≡ false
  unfolding pending_event_timed_key account_balance_key beq
  pending_event_timed-ne-account_balance e p q = refl

  pub pending_event_timed-ne-movement :
      (e : Event) (c : Bool) (m : Bytes)
      → beq (pending_event_timed_key e) (snapshot_prefix c ++ m) ≡ false
  unfolding pending_event_timed_key snapshot_prefix beq
  pending_event_timed-ne-movement e true m = refl
  pending_event_timed-ne-movement e false m = refl

pub ruleset account_apart = (
  engine_offset-ne-account_balance, engine_offset-ne-movement, asset_meta-ne-account_balance,
  asset_meta-ne-movement, collectible_token_meta-ne-account_balance,
  collectible_token_meta-ne-movement, collectible_or_asset-ne-account_balance,
  collectible_or_asset-ne-movement, process-ne-account_balance, process-ne-movement,
  pending_event_identifier-ne-account_balance, pending_event_identifier-ne-movement,
  pending_event_signatures-ne-account_balance, pending_event_signatures-ne-movement,
  signed_event_timed-ne-account_balance, signed_event_timed-ne-movement,
  pending_event_timed-ne-account_balance, pending_event_timed-ne-movement,
)
