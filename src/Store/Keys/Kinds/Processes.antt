-- ===== src/Store/Keys/Kinds/Processes.antt =====
-- No key of another kind is the key of a process.
use trusted_group.Base.{ℕ, Bytes, true, false, ◌≡◌, refl, beq, ◌++◌, uint64_bytes}
use trusted_group.External.{Integers}
use trusted_group.Encoding.{Event}
use trusted_group.Machine.Types.{AccountSnapshot}
use trusted_group.Store.Keys.{
  pending_event_identifier_key, process_key, pending_event_signatures_key, signed_event_timed_key,
  pending_event_timed_key, account_balance_key, account_snapshot_key, engine_offset_key,
  asset_meta_key, collectible_token_meta_key, collectible_or_asset_key, snapshot_prefix,
}

module _ ⦃ints : Integers⦄ where
  pub pending_event_identifier-ne-process :
      (id : Bytes) (pid' : Bytes) → beq (pending_event_identifier_key id) (process_key pid') ≡ false
  unfolding pending_event_identifier_key process_key beq
  pending_event_identifier-ne-process id pid' = refl

  pub pending_event_signatures-ne-process :
      (pid : Bytes) (n : ℕ) (pid' : Bytes)
      → beq (pending_event_signatures_key pid n) (process_key pid') ≡ false
  unfolding pending_event_signatures_key process_key beq
  pending_event_signatures-ne-process pid n pid' = refl

  pub signed_event_timed-ne-process :
      (pid : Bytes) (n : ℕ) (pid' : Bytes)
      → beq (signed_event_timed_key pid n) (process_key pid') ≡ false
  unfolding signed_event_timed_key process_key beq
  signed_event_timed-ne-process pid n pid' = refl

  pub pending_event_timed-ne-process :
      (e : Event) (pid' : Bytes) → beq (pending_event_timed_key e) (process_key pid') ≡ false
  unfolding pending_event_timed_key process_key beq
  pending_event_timed-ne-process e pid' = refl

  pub account_balance-ne-process :
      (p a : Bytes) (pid' : Bytes) → beq (account_balance_key p a) (process_key pid') ≡ false
  unfolding account_balance_key process_key beq
  account_balance-ne-process p a pid' = refl

  pub account_snapshot-ne-process :
      (s : AccountSnapshot) (pid' : Bytes) → beq (account_snapshot_key s) (process_key pid') ≡ false
  unfolding account_snapshot_key process_key beq snapshot_prefix
  account_snapshot-ne-process s pid' =
      elim (s.credit)
        as (λ c.
          beq (snapshot_prefix c ++ (s.process ++ uint64_bytes s.nonce)) (process_key pid')
          ≡ false) [ true ↦ refl | false ↦ refl ]

  pub engine_offset-ne-process :
      (pid : Bytes) (pid' : Bytes) → beq (engine_offset_key pid) (process_key pid') ≡ false
  unfolding engine_offset_key process_key beq
  engine_offset-ne-process pid pid' = refl

  pub asset_meta-ne-process :
      (id : Bytes) (pid' : Bytes) → beq (asset_meta_key id) (process_key pid') ≡ false
  unfolding asset_meta_key process_key beq
  asset_meta-ne-process id pid' = refl

  pub collectible_token_meta-ne-process :
      (id : Bytes) (pid' : Bytes) → beq (collectible_token_meta_key id) (process_key pid') ≡ false
  unfolding collectible_token_meta_key process_key beq
  collectible_token_meta-ne-process id pid' = refl

  pub collectible_or_asset-ne-process :
      (id : Bytes) (pid' : Bytes) → beq (collectible_or_asset_key id) (process_key pid') ≡ false
  unfolding collectible_or_asset_key process_key beq
  collectible_or_asset-ne-process id pid' = refl

pub ruleset process_apart = (
  pending_event_identifier-ne-process, pending_event_signatures-ne-process,
  signed_event_timed-ne-process, pending_event_timed-ne-process, account_balance-ne-process,
  account_snapshot-ne-process, engine_offset-ne-process, asset_meta-ne-process,
  collectible_token_meta-ne-process, collectible_or_asset-ne-process,
)
