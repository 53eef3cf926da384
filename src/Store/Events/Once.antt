-- ===== src/Store/Events/Once.antt =====
-- The identifiers of outputs in mvm/store/event.go, over later writes of the store.
use trusted_group.Base.{
  ℕ, ◌≡◌, ◌≢◌, ◌<◌, ◌^◌, beq_refl, uint64_value-uint64_bytes, refl, ◌∙◌, Bytes, false, beq, beq→eq,
  List, some, uint64_bytes, arith, Bool-cases, inl, inr,
}
use trusted_group.Base.{ok}
use trusted_group.External.{Integers, Database, Json}
use trusted_group.Encoding.{Event}
use trusted_group.Machine.Types.{Process, AccountSnapshot, Asset, CollectibleToken}
use trusted_group.Store.Keys.{
  pending_event_timed_key, pending_event_identifier_key, pending_event_signatures_key,
}
use trusted_group.Store.Keys.Kinds.{
  pending_event_identifier_apart, process-ne-pending_event_identifier,
  engine_offset-ne-pending_event_identifier, asset_meta-ne-pending_event_identifier,
  collectible_token_meta-ne-pending_event_identifier,
  collectible_or_asset-ne-pending_event_identifier, signed_event_timed-ne-pending_event_identifier,
  account_balance-ne-pending_event_identifier, account_snapshot-ne-pending_event_identifier,
}
use trusted_group.Store.Events.{
  write_pending_group_event_signatures, write_signed_group_event_and_expire_pending,
  write_pending_group_event_and_nonce,
}
use trusted_group.Store.Events.Steps.{
  StoreStep, StoreRun, add_pending, add_partials, sign, expire, move, add_process, set_offset,
  add_asset, add_token, set_category, here, next,
}
use trusted_group.Store.Events.Effects.{
  joined, signed_in, after_signed, write_partials-ok, write_signed-ok, after_nonce,
  write_pending-ok,
}
use trusted_group.Store.Events.Frames.{
  Apart, get-if, expire_frame, move_frame, process_frame, offset_frame, asset_frame, token_frame,
  category_frame,
}

module _ ⦃ints : Integers⦄ ⦃database : Database⦄ ⦃event_json : Json Event⦄
    ⦃process_json : Json Process⦄ ⦃snapshot_json : Json AccountSnapshot⦄ ⦃asset_json : Json Asset⦄
    ⦃token_json : Json CollectibleToken⦄ where
  open database use {Db, get, set, get-set, get-delete}

  module _ (id : Bytes) where
    abbrev key : Bytes
    key = pending_event_identifier_key id

    key-Apart : Apart key
    key-Apart = record {
      process = λ q. process-ne-pending_event_identifier q id;
      offset = λ q. engine_offset-ne-pending_event_identifier q id;
      asset = λ a. asset_meta-ne-pending_event_identifier a id;
      token = λ t. collectible_token_meta-ne-pending_event_identifier t id;
      category = λ a. collectible_or_asset-ne-pending_event_identifier a id;
      signed = λ q m. signed_event_timed-ne-pending_event_identifier q m id;
      balance = λ q a. account_balance-ne-pending_event_identifier q a id;
      snapshot = λ a. account_snapshot-ne-pending_event_identifier a id;
    }

    module _ (ts : ℕ) (stamped : ts ≢ 0) (range : ts < 2 ^ 64) where
      abbrev IsNoted : Db → Type 0
      IsNoted d = get d key ≡ some (uint64_bytes ts)

      -- The identifier of an output that was queued is not taken again.
      blocked :
          (id' : Bytes) (d d' : Db) (e : Event)
          → pending_event_identifier_key id' ≡ key
          → IsNoted d
          → write_pending_group_event_and_nonce d e id' ≢ ok d'
      unfolding write_pending_group_event_and_nonce
      blocked id' d d' e same noted h =
          let noted' : get d (pending_event_identifier_key id') ≡ some (uint64_bytes ts) =
            rw same noted in
          let stamp = uint64_value-uint64_bytes ts range in ground (arith, stamped)

      pending_frame :
          (d d' : Db) (e : Event) (id' : Bytes)
          → IsNoted d
          → write_pending_group_event_and_nonce d e id' ≡ ok d'
          → get d' key ≡ get d key
      pending_frame d d' e id' noted h =
          let (p, found, turn, _, result) = write_pending-ok d d' e id' h in
          let d₁ = after_nonce d e id' p in
          let d₂ = set d₁ (pending_event_timed_key e) (event_json.marshal e) in
          let other : beq (pending_event_identifier_key id') key ≡ false =
            elim (Bool-cases (beq (pending_event_identifier_key id') key)) [
              | inl same ↦ absurd (blocked id' d d' e (beq→eq _ key same) noted h)
              | inr differ ↦ differ
            ] in
          get-if key key-Apart d d' _ d₁ d₂ result
            (λ _. simp (get-set, pending_event_identifier_apart, other))
            (λ _. simp (get-set, pending_event_identifier_apart, other))

      partials_frame :
          (d d' : Db) (q : Bytes) (m : ℕ) (partials : List Bytes)
          → write_pending_group_event_signatures d q m partials ≡ ok d'
          → get d' key ≡ get d key
      partials_frame d d' q m partials h =
          let (result, _) = write_partials-ok d d' q m partials h in
          get-if key key-Apart d d' (signed_in d q m) d
            (set d (pending_event_signatures_key q m) (joined partials)) result (λ _. refl)
            (λ _. simp (get-set, pending_event_identifier_apart))

      signed_frame :
          (d d' : Db) (e : Event)
          → write_signed_group_event_and_expire_pending d e ≡ ok d'
          → get d' key ≡ get d key
      signed_frame d d' e h =
          let (_, result) = write_signed-ok d d' e h in
          get-if key key-Apart d d' (signed_in d e.process e.nonce) d (after_signed d e) result
            (λ _. refl) (λ _. simp (get-set, get-delete, pending_event_identifier_apart))

      step_frame : (d d' : Db) → IsNoted d → StoreStep d d' → get d' key ≡ get d key
      step_frame d d' s (add_pending e id' h) = pending_frame d d' e id' s h
      step_frame d d' s (add_partials q m partials h) = partials_frame d d' q m partials h
      step_frame d d' s (sign e h) = signed_frame d d' e h
      step_frame d d' s (expire es cost h) = expire_frame key key-Apart d d' es cost h
      step_frame d d' s (move a h) = move_frame key key-Apart d d' a h
      step_frame d d' s (add_process p h) = process_frame key key-Apart d d' p h
      step_frame d d' s (set_offset q m h) = offset_frame key key-Apart d d' q m h
      step_frame d d' s (add_asset a h) = asset_frame key key-Apart d d' a h
      step_frame d d' s (add_token t h) = token_frame key key-Apart d d' t h
      step_frame d d' s (set_category a cat h) = category_frame key key-Apart d d' a cat h

      run-IsNoted : (d : Db) {d' : Db} → IsNoted d → StoreRun d d' → IsNoted d'
      run-IsNoted d s here = s
      run-IsNoted d s (next {d₁ = d₁} {d₂ = d₂} r step) =
          let before = run-IsNoted d s r in step_frame d₁ d₂ before step ∙ before

    queued-IsNoted :
        (d d' : Db) (e : Event)
        → write_pending_group_event_and_nonce d e id ≡ ok d'
        → (get d' key ≡ some (uint64_bytes e.timestamp)) × (e.timestamp ≢ 0)
    queued-IsNoted d d' e h =
        let (p, found, turn, stamped, result) = write_pending-ok d d' e id h in
        let d₁ = after_nonce d e id p in
        let d₂ = set d₁ (pending_event_timed_key e) (event_json.marshal e) in
        let noted : get d₁ key ≡ some (uint64_bytes e.timestamp) =
          simp (get-set, pending_event_identifier_apart, beq_refl key) in
        (
          get-if key key-Apart d₁ d' _ d₁ d₂ result (λ _. refl)
                (λ _. simp (get-set, pending_event_identifier_apart))
              ∙ noted,
          stamped,
        )

  -- Once an event with a time stamp of 64 bits was queued under the identifier of an output, whatever
  -- calls of the store's writing operations succeed afterwards, no event is queued under that
  -- identifier again: the write does not succeed.
  pub queued_once :
      (d d' d₁ d₂ : Db) (e e' : Event) (id : Bytes)
      → e.timestamp < 2 ^ 64
      → write_pending_group_event_and_nonce d e id ≡ ok d'
      → StoreRun d' d₁
      → write_pending_group_event_and_nonce d₁ e' id ≢ ok d₂
  queued_once d d' d₁ d₂ e e' id range h r =
      let (noted, stamped) = queued-IsNoted id d d' e h in
      blocked id e.timestamp stamped range id d₁ d₂ e' refl
        (run-IsNoted id e.timestamp stamped range d' noted r)
