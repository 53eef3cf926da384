-- ===== src/Store/Keys/Kinds/PendingQueue.antt =====
-- No key of another kind is the key of a pending event.
use trusted_group.Base.{ℕ, Bytes, true, false, ◌≡◌, refl, beq, ◌++◌, uint64_bytes}
use trusted_group.External.{Integers}
use trusted_group.Encoding.{Event}
use trusted_group.Machine.Types.{AccountSnapshot}
use trusted_group.Store.Keys.{
  pending_event_identifier_key, process_key, pending_event_signatures_key, signed_event_timed_key,
  pending_event_timed_key, account_balance_key, account_snapshot_key, engine_offset_key,
  asset_meta_key, collectible_token_meta_key, collectible_or_asset_key, snapshot_prefix,
}

module _ ⦃ints : Integers⦄ where
  pub pending_event_identifier-ne-pending_event_timed :
      (id : Bytes) (e' : Event)
      → beq (pending_event_identifier_key id) (pending_event_timed_key e') ≡ false
  unfolding pending_event_identifier_key pending_event_timed_key beq
  pending_event_identifier-ne-pending_event_timed id e' = refl

  pub process-ne-pending_event_timed :
      (pid : Bytes) (e' : Event) → beq (process_key pid) (pending_event_timed_key e') ≡ false
  unfolding process_key pending_event_timed_key beq
  process-ne-pending_event_timed pid e' = refl

  pub pending_event_signatures-ne-pending_event_timed :
      (pid : Bytes) (n : ℕ) (e' : Event)
      → beq (pending_event_signatures_key pid n) (pending_event_timed_key e') ≡ false
  unfolding pending_event_signatures_key pending_event_timed_key beq
  pending_event_signatures-ne-pending_event_timed pid n e' = refl

  pub signed_event_timed-ne-pending_event_timed :
      (pid : Bytes) (n : ℕ) (e' : Event)
      → beq (signed_event_timed_key pid n) (pending_event_timed_key e') ≡ false
  unfolding signed_event_timed_key pending_event_timed_key beq
  signed_event_timed-ne-pending_event_timed pid n e' = refl

  pub account_balance-ne-pending_event_timed :
      (p a : Bytes) (e' : Event)
      → beq (account_balance_key p a) (pending_event_timed_key e') ≡ false
  unfolding account_balance_key pending_event_timed_key beq
  account_balance-ne-pending_event_timed p a e' = refl

  pub account_snapshot-ne-pending_event_timed :
      (s : AccountSnapshot) (e' : Event)
      → beq (account_snapshot_key s) (pending_event_timed_key e') ≡ false
  unfolding account_snapshot_key pending_event_timed_key beq snapshot_prefix
  account_snapshot-ne-pending_event_timed s e' =
      elim (s.credit)
        as (λ c.
          beq (snapshot_prefix c ++ (s.process ++ uint64_bytes s.nonce))
            (pending_event_timed_key e')
          ≡ false) [ true ↦ refl | false ↦ refl ]

  pub engine_offset-ne-pending_event_timed :
      (pid : Bytes) (e' : Event) → beq (engine_offset_key pid) (pending_event_timed_key e') ≡ false
  unfolding engine_offset_key pending_event_timed_key beq
  engine_offset-ne-pending_event_timed pid e' = refl

  pub asset_meta-ne-pending_event_timed :
      (id : Bytes) (e' : Event) → beq (asset_meta_key id) (pending_event_timed_key e') ≡ false
  unfolding asset_meta_key pending_event_timed_key beq
  asset_meta-ne-pending_event_timed id e' = refl

  pub collectible_token_meta-ne-pending_event_timed :
      (id : Bytes) (e' : Event)
      → beq (collectible_token_meta_key id) (pending_event_timed_key e') ≡ false
  unfolding collectible_token_meta_key pending_event_timed_key beq
  collectible_token_meta-ne-pending_event_timed id e' = refl

  pub collectible_or_asset-ne-pending_event_timed :
      (id : Bytes) (e' : Event)
      → beq (collectible_or_asset_key id) (pending_event_timed_key e') ≡ false
  unfolding collectible_or_asset_key pending_event_timed_key beq
  collectible_or_asset-ne-pending_event_timed id e' = refl

pub ruleset pending_event_timed_apart = (
  pending_event_identifier-ne-pending_event_timed, process-ne-pending_event_timed,
  pending_event_signatures-ne-pending_event_timed, signed_event_timed-ne-pending_event_timed,
  account_balance-ne-pending_event_timed, account_snapshot-ne-pending_event_timed,
  engine_offset-ne-pending_event_timed, asset_meta-ne-pending_event_timed,
  collectible_token_meta-ne-pending_event_timed, collectible_or_asset-ne-pending_event_timed,
)
