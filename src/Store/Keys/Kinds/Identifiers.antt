-- ===== src/Store/Keys/Kinds/Identifiers.antt =====
-- No key of another kind is the key of the identifier of an output.
use trusted_group.Base.{ℕ, Bytes, true, false, ◌≡◌, refl, beq, ◌++◌, uint64_bytes}
use trusted_group.External.{Integers}
use trusted_group.Encoding.{Event}
use trusted_group.Machine.Types.{AccountSnapshot}
use trusted_group.Store.Keys.{
  pending_event_identifier_key, process_key, pending_event_signatures_key, signed_event_timed_key,
  pending_event_timed_key, account_balance_key, account_snapshot_key, engine_offset_key,
  asset_meta_key, collectible_token_meta_key, collectible_or_asset_key, snapshot_prefix,
}

module _ ⦃ints : Integers⦄ where
  pub process-ne-pending_event_identifier :
      (pid : Bytes) (id' : Bytes) → beq (process_key pid) (pending_event_identifier_key id') ≡ false
  unfolding process_key pending_event_identifier_key beq
  process-ne-pending_event_identifier pid id' = refl

  pub pending_event_signatures-ne-pending_event_identifier :
      (pid : Bytes) (n : ℕ) (id' : Bytes)
      → beq (pending_event_signatures_key pid n) (pending_event_identifier_key id') ≡ false
  unfolding pending_event_signatures_key pending_event_identifier_key beq
  pending_event_signatures-ne-pending_event_identifier pid n id' = refl

  pub signed_event_timed-ne-pending_event_identifier :
      (pid : Bytes) (n : ℕ) (id' : Bytes)
      → beq (signed_event_timed_key pid n) (pending_event_identifier_key id') ≡ false
  unfolding signed_event_timed_key pending_event_identifier_key beq
  signed_event_timed-ne-pending_event_identifier pid n id' = refl

  pub pending_event_timed-ne-pending_event_identifier :
      (e : Event) (id' : Bytes)
      → beq (pending_event_timed_key e) (pending_event_identifier_key id') ≡ false
  unfolding pending_event_timed_key pending_event_identifier_key beq
  pending_event_timed-ne-pending_event_identifier e id' = refl

  pub account_balance-ne-pending_event_identifier :
      (p a : Bytes) (id' : Bytes)
      → beq (account_balance_key p a) (pending_event_identifier_key id') ≡ false
  unfolding account_balance_key pending_event_identifier_key beq
  account_balance-ne-pending_event_identifier p a id' = refl

  pub account_snapshot-ne-pending_event_identifier :
      (s : AccountSnapshot) (id' : Bytes)
      → beq (account_snapshot_key s) (pending_event_identifier_key id') ≡ false
  unfolding account_snapshot_key pending_event_identifier_key beq snapshot_prefix
  account_snapshot-ne-pending_event_identifier s id' =
      elim (s.credit)
        as (λ c.
          beq (snapshot_prefix c ++ (s.process ++ uint64_bytes s.nonce))
            (pending_event_identifier_key id')
          ≡ false) [ true ↦ refl | false ↦ refl ]

  pub engine_offset-ne-pending_event_identifier :
      (pid : Bytes) (id' : Bytes)
      → beq (engine_offset_key pid) (pending_event_identifier_key id') ≡ false
  unfolding engine_offset_key pending_event_identifier_key beq
  engine_offset-ne-pending_event_identifier pid id' = refl

  pub asset_meta-ne-pending_event_identifier :
      (id : Bytes) (id' : Bytes)
      → beq (asset_meta_key id) (pending_event_identifier_key id') ≡ false
  unfolding asset_meta_key pending_event_identifier_key beq
  asset_meta-ne-pending_event_identifier id id' = refl

  pub collectible_token_meta-ne-pending_event_identifier :
      (id : Bytes) (id' : Bytes)
      → beq (collectible_token_meta_key id) (pending_event_identifier_key id') ≡ false
  unfolding collectible_token_meta_key pending_event_identifier_key beq
  collectible_token_meta-ne-pending_event_identifier id id' = refl

  pub collectible_or_asset-ne-pending_event_identifier :
      (id : Bytes) (id' : Bytes)
      → beq (collectible_or_asset_key id) (pending_event_identifier_key id') ≡ false
  unfolding collectible_or_asset_key pending_event_identifier_key beq
  collectible_or_asset-ne-pending_event_identifier id id' = refl

pub ruleset pending_event_identifier_apart = (
  process-ne-pending_event_identifier, pending_event_signatures-ne-pending_event_identifier,
  signed_event_timed-ne-pending_event_identifier, pending_event_timed-ne-pending_event_identifier,
  account_balance-ne-pending_event_identifier, account_snapshot-ne-pending_event_identifier,
  engine_offset-ne-pending_event_identifier, asset_meta-ne-pending_event_identifier,
  collectible_token_meta-ne-pending_event_identifier,
  collectible_or_asset-ne-pending_event_identifier,
)
