-- ===== src/Store/Keys/Kinds/SignedQueue.antt =====
-- No key of another kind is the key of a signed event.
use trusted_group.Base.{ℕ, Bytes, true, false, ◌≡◌, refl, beq, ◌++◌, uint64_bytes}
use trusted_group.External.{Integers}
use trusted_group.Encoding.{Event}
use trusted_group.Machine.Types.{AccountSnapshot}
use trusted_group.Store.Keys.{
  pending_event_identifier_key, process_key, pending_event_signatures_key, signed_event_timed_key,
  pending_event_timed_key, account_balance_key, account_snapshot_key, engine_offset_key,
  asset_meta_key, collectible_token_meta_key, collectible_or_asset_key, snapshot_prefix,
}

module _ ⦃ints : Integers⦄ where
  pub pending_event_identifier-ne-signed_event_timed :
      (id : Bytes) (pid' : Bytes) (n' : ℕ)
      → beq (pending_event_identifier_key id) (signed_event_timed_key pid' n') ≡ false
  unfolding pending_event_identifier_key signed_event_timed_key beq
  pending_event_identifier-ne-signed_event_timed id pid' n' = refl

  pub process-ne-signed_event_timed :
      (pid : Bytes) (pid' : Bytes) (n' : ℕ)
      → beq (process_key pid) (signed_event_timed_key pid' n') ≡ false
  unfolding process_key signed_event_timed_key beq
  process-ne-signed_event_timed pid pid' n' = refl

  pub pending_event_signatures-ne-signed_event_timed :
      (pid : Bytes) (n : ℕ) (pid' : Bytes) (n' : ℕ)
      → beq (pending_event_signatures_key pid n) (signed_event_timed_key pid' n') ≡ false
  unfolding pending_event_signatures_key signed_event_timed_key beq
  pending_event_signatures-ne-signed_event_timed pid n pid' n' = refl

  pub pending_event_timed-ne-signed_event_timed :
      (e : Event) (pid' : Bytes) (n' : ℕ)
      → beq (pending_event_timed_key e) (signed_event_timed_key pid' n') ≡ false
  unfolding pending_event_timed_key signed_event_timed_key beq
  pending_event_timed-ne-signed_event_timed e pid' n' = refl

  pub account_balance-ne-signed_event_timed :
      (p a : Bytes) (pid' : Bytes) (n' : ℕ)
      → beq (account_balance_key p a) (signed_event_timed_key pid' n') ≡ false
  unfolding account_balance_key signed_event_timed_key beq
  account_balance-ne-signed_event_timed p a pid' n' = refl

  pub account_snapshot-ne-signed_event_timed :
      (s : AccountSnapshot) (pid' : Bytes) (n' : ℕ)
      → beq (account_snapshot_key s) (signed_event_timed_key pid' n') ≡ false
  unfolding account_snapshot_key signed_event_timed_key beq snapshot_prefix
  account_snapshot-ne-signed_event_timed s pid' n' =
      elim (s.credit)
        as (λ c.
          beq (snapshot_prefix c ++ (s.process ++ uint64_bytes s.nonce))
            (signed_event_timed_key pid' n')
          ≡ false) [ true ↦ refl | false ↦ refl ]

  pub engine_offset-ne-signed_event_timed :
      (pid : Bytes) (pid' : Bytes) (n' : ℕ)
      → beq (engine_offset_key pid) (signed_event_timed_key pid' n') ≡ false
  unfolding engine_offset_key signed_event_timed_key beq
  engine_offset-ne-signed_event_timed pid pid' n' = refl

  pub asset_meta-ne-signed_event_timed :
      (id : Bytes) (pid' : Bytes) (n' : ℕ)
      → beq (asset_meta_key id) (signed_event_timed_key pid' n') ≡ false
  unfolding asset_meta_key signed_event_timed_key beq
  asset_meta-ne-signed_event_timed id pid' n' = refl

  pub collectible_token_meta-ne-signed_event_timed :
      (id : Bytes) (pid' : Bytes) (n' : ℕ)
      → beq (collectible_token_meta_key id) (signed_event_timed_key pid' n') ≡ false
  unfolding collectible_token_meta_key signed_event_timed_key beq
  collectible_token_meta-ne-signed_event_timed id pid' n' = refl

  pub collectible_or_asset-ne-signed_event_timed :
      (id : Bytes) (pid' : Bytes) (n' : ℕ)
      → beq (collectible_or_asset_key id) (signed_event_timed_key pid' n') ≡ false
  unfolding collectible_or_asset_key signed_event_timed_key beq
  collectible_or_asset-ne-signed_event_timed id pid' n' = refl

pub ruleset signed_event_timed_apart = (
  pending_event_identifier-ne-signed_event_timed, process-ne-signed_event_timed,
  pending_event_signatures-ne-signed_event_timed, pending_event_timed-ne-signed_event_timed,
  account_balance-ne-signed_event_timed, account_snapshot-ne-signed_event_timed,
  engine_offset-ne-signed_event_timed, asset_meta-ne-signed_event_timed,
  collectible_token_meta-ne-signed_event_timed, collectible_or_asset-ne-signed_event_timed,
)
