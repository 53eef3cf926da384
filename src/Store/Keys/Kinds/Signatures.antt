-- ===== src/Store/Keys/Kinds/Signatures.antt =====
-- No key of another kind is the key of the signatures of an event.
use trusted_group.Base.{ℕ, Bytes, true, false, ◌≡◌, refl, beq, ◌++◌, uint64_bytes}
use trusted_group.External.{Integers}
use trusted_group.Encoding.{Event}
use trusted_group.Machine.Types.{AccountSnapshot}
use trusted_group.Store.Keys.{
  pending_event_identifier_key, process_key, pending_event_signatures_key, signed_event_timed_key,
  pending_event_timed_key, account_balance_key, account_snapshot_key, engine_offset_key,
  asset_meta_key, collectible_token_meta_key, collectible_or_asset_key, snapshot_prefix,
}

module _ ⦃ints : Integers⦄ where
  pub pending_event_identifier-ne-pending_event_signatures :
      (id : Bytes) (pid' : Bytes) (n' : ℕ)
      → beq (pending_event_identifier_key id) (pending_event_signatures_key pid' n') ≡ false
  unfolding pending_event_identifier_key pending_event_signatures_key beq
  pending_event_identifier-ne-pending_event_signatures id pid' n' = refl

  pub process-ne-pending_event_signatures :
      (pid : Bytes) (pid' : Bytes) (n' : ℕ)
      → beq (process_key pid) (pending_event_signatures_key pid' n') ≡ false
  unfolding process_key pending_event_signatures_key beq
  process-ne-pending_event_signatures pid pid' n' = refl

  pub signed_event_timed-ne-pending_event_signatures :
      (pid : Bytes) (n : ℕ) (pid' : Bytes) (n' : ℕ)
      → beq (signed_event_timed_key pid n) (pending_event_signatures_key pid' n') ≡ false
  unfolding signed_event_timed_key pending_event_signatures_key beq
  signed_event_timed-ne-pending_event_signatures pid n pid' n' = refl

  pub pending_event_timed-ne-pending_event_signatures :
      (e : Event) (pid' : Bytes) (n' : ℕ)
      → beq (pending_event_timed_key e) (pending_event_signatures_key pid' n') ≡ false
  unfolding pending_event_timed_key pending_event_signatures_key beq
  pending_event_timed-ne-pending_event_signatures e pid' n' = refl

  pub account_balance-ne-pending_event_signatures :
      (p a : Bytes) (pid' : Bytes) (n' : ℕ)
      → beq (account_balance_key p a) (pending_event_signatures_key pid' n') ≡ false
  unfolding account_balance_key pending_event_signatures_key beq
  account_balance-ne-pending_event_signatures p a pid' n' = refl

  pub account_snapshot-ne-pending_event_signatures :
      (s : AccountSnapshot) (pid' : Bytes) (n' : ℕ)
      → beq (account_snapshot_key s) (pending_event_signatures_key pid' n') ≡ false
  unfolding account_snapshot_key pending_event_signatures_key beq snapshot_prefix
  account_snapshot-ne-pending_event_signatures s pid' n' =
      elim (s.credit)
        as (λ c.
          beq (snapshot_prefix c ++ (s.process ++ uint64_bytes s.nonce))
            (pending_event_signatures_key pid' n')
          ≡ false) [ true ↦ refl | false ↦ refl ]

  pub engine_offset-ne-pending_event_signatures :
      (pid : Bytes) (pid' : Bytes) (n' : ℕ)
      → beq (engine_offset_key pid) (pending_event_signatures_key pid' n') ≡ false
  unfolding engine_offset_key pending_event_signatures_key beq
  engine_offset-ne-pending_event_signatures pid pid' n' = refl

  pub asset_meta-ne-pending_event_signatures :
      (id : Bytes) (pid' : Bytes) (n' : ℕ)
      → beq (asset_meta_key id) (pending_event_signatures_key pid' n') ≡ false
  unfolding asset_meta_key pending_event_signatures_key beq
  asset_meta-ne-pending_event_signatures id pid' n' = refl

  pub collectible_token_meta-ne-pending_event_signatures :
      (id : Bytes) (pid' : Bytes) (n' : ℕ)
      → beq (collectible_token_meta_key id) (pending_event_signatures_key pid' n') ≡ false
  unfolding collectible_token_meta_key pending_event_signatures_key beq
  collectible_token_meta-ne-pending_event_signatures id pid' n' = refl

  pub collectible_or_asset-ne-pending_event_signatures :
      (id : Bytes) (pid' : Bytes) (n' : ℕ)
      → beq (collectible_or_asset_key id) (pending_event_signatures_key pid' n') ≡ false
  unfolding collectible_or_asset_key pending_event_signatures_key beq
  collectible_or_asset-ne-pending_event_signatures id pid' n' = refl

pub ruleset pending_event_signatures_apart = (
  pending_event_identifier-ne-pending_event_signatures, process-ne-pending_event_signatures,
  signed_event_timed-ne-pending_event_signatures, pending_event_timed-ne-pending_event_signatures,
  account_balance-ne-pending_event_signatures, account_snapshot-ne-pending_event_signatures,
  engine_offset-ne-pending_event_signatures, asset_meta-ne-pending_event_signatures,
  collectible_token_meta-ne-pending_event_signatures,
  collectible_or_asset-ne-pending_event_signatures,
)
