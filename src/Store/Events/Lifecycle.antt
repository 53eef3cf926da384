-- ===== src/Store/Events/Lifecycle.antt =====
-- The life of an event in mvm/store/event.go: pending, with partial signatures, signed.
use trusted_group.Base.{
  ℕ, ◌/◌, ◌^◌, ◌<◌, ◌≡◌, refl, Bytes, true, false, ◌==◌, beq_refl, length, List, [], ◌∷◌, ◌++◌,
  none, some, take, drop, take-append, drop-append, uint64_bytes, uint64_value-uint64_bytes, arith,
  if◌then◌else◌, ◌≢◌,
}
use trusted_group.Base.{ok}
use trusted_group.External.{Integers, Database, Json}
use trusted_group.Encoding.{Event}
use trusted_group.Machine.Types.{Process}
use trusted_group.Store.Keys.{
  pending_event_identifier_key, pending_event_timed_key, pending_event_signatures_key,
  signed_event_timed_key, process_key,
}
use trusted_group.Store.Keys.Kinds.{
  pending_event_signatures_apart, pending_event_identifier_apart, process_apart,
  pending_event_timed_apart,
}
use trusted_group.Store.Txn.{NoFaults}
use trusted_group.Store.Events.{
  read_group_event_signatures, split_signatures, write_pending_group_event_signatures,
  write_signed_group_event_and_expire_pending, write_pending_group_event_and_nonce,
  check_pending_group_event_identifier,
}
use trusted_group.Store.Events.Effects.{
  joined, ArePartials, length-joined, join_signatures_lem, signed_in, after_signed, advanced,
  after_nonce, process_in,
}

take_front : (p r : Bytes) → length p ≡ 66 → take 66 (p ++ r) ≡ p
take_front p r h = rw h at (take-append p r)

drop_front : (p r : Bytes) → length p ≡ 66 → drop 66 (p ++ r) ≡ r
drop_front p r h = rw h at (drop-append p r)

split-joined : (ps : List Bytes) → ArePartials ps → split_signatures (length ps) (joined ps) ≡ ps
unfolding split_signatures
split-joined [] h = refl
split-joined (p ∷ ps) (h, hs) =
    rw (take_front p (joined ps) h, drop_front p (joined ps) h, split-joined ps hs)

module _ ⦃database : Database⦄ where
  open database use {Db, get, set, get-set}

  -- On a disk without faults, partial signatures of 66 bytes each that are written for an event that
  -- is not signed are read back as they were, and the event is still not signed.
  pub read-write_partials :
      (d : Db) (pid : Bytes) (n : ℕ) (ps : List Bytes)
      → NoFaults
      → ArePartials ps
      → signed_in d pid n ≡ false
      → (d' : Db) × (write_pending_group_event_signatures d pid n ps ≡ ok d')
        × (read_group_event_signatures d' pid n ≡ ok (ps, false))
  read-write_partials d pid n ps nf sizes fresh =
      let key = pending_event_signatures_key pid n in
      let d' = set d key (joined ps) in
      let unsigned : (length (joined ps) == 64) ≡ false = ground (arith, length-joined ps sizes) in
      let count : length (joined ps) / 66 ≡ length ps = omega (arith, length-joined ps sizes) in
      let there : get d' key ≡ some (joined ps) = rw (get-set, beq_refl key) in
      (
        d',
        unfold write_pending_group_event_signatures in
            ground
              (arith, nf.reads d key, nf.writes d key, nf.commits d', join_signatures_lem ps sizes),
        unfold read_group_event_signatures in
            rw (nf.reads d' key, there) (rw (unsigned, count, split-joined ps sizes)),
      )

module _ ⦃ints : Integers⦄ ⦃database : Database⦄ ⦃event_json : Json Event⦄ where
  open database use {Db, get, set, delete, get-set, get-delete}
  open event_json use {marshal}

  -- On a disk without faults, an event with a signature of 64 bytes that is not signed yet becomes
  -- signed: its signature is read back, it leaves the pending queue, and stands in the signed queue.
  pub write_signed_lem :
      (d : Db) (e : Event)
      → NoFaults
      → length e.signature ≡ 64
      → signed_in d e.process e.nonce ≡ false
      → (d' : Db) × (write_signed_group_event_and_expire_pending d e ≡ ok d')
        × (read_group_event_signatures d' e.process e.nonce ≡ ok (e.signature ∷ [], true))
        × (get d' (pending_event_timed_key e) ≡ none)
        × (get d' (signed_event_timed_key e.process e.nonce) ≡ some (marshal e))
  write_signed_lem d e nf full fresh =
      let pk = pending_event_timed_key e in
      let sk = pending_event_signatures_key e.process e.nonce in
      let qk = signed_event_timed_key e.process e.nonce in
      let d₁ = delete d pk in
      let d₂ = set d₁ sk e.signature in
      let d' = after_signed d e in
      let there : get d' sk ≡ some e.signature =
        simp (get-set, pending_event_signatures_apart, beq_refl sk) in
      let size : (length e.signature == 64) ≡ true = ground arith in
      (
        d',
        unfold write_signed_group_event_and_expire_pending in
            ground (
              arith,
              size,
              nf.reads d sk,
              nf.writes d pk,
              nf.writes d₁ sk,
              nf.writes d₂ qk,
              nf.commits d',
            ),
        unfold read_group_event_signatures in rw (nf.reads d' sk, there) (rw size),
        simp (get-set, get-delete, pending_event_timed_apart, beq_refl pk),
        simp (get-set, beq_refl qk),
      )

module _ ⦃ints : Integers⦄ ⦃database : Database⦄ ⦃event_json : Json Event⦄
    ⦃process_json : Json Process⦄ where
  open database use {Db, get, set, get-set}
  open event_json use {marshal}
  open process_json use {unmarshal-marshal}

  -- On a disk without faults, an event with a time stamp of 64 bits that is not zero, of a known
  -- process whose nonce it has, and with a new identifier, is written: the identifier is then known,
  -- the process has the next nonce, and the event stands in the pending queue unless it was signed
  -- before.
  pub write_pending_lem :
      (d : Db) (e : Event) (id : Bytes) (p : Process)
      → NoFaults
      → e.timestamp ≢ 0
      → e.timestamp < 2 ^ 64
      → get d (pending_event_identifier_key id) ≡ none
      → process_in d e.process ≡ some p
      → p.identifier ≡ e.process
      → p.nonce ≡ e.nonce
      → (d' : Db) × (write_pending_group_event_and_nonce d e id ≡ ok d')
        × (check_pending_group_event_identifier d' id ≡ ok true)
        × (process_in d' e.process ≡ some (advanced p))
        × (get d' (pending_event_timed_key e) ≡ (
            if signed_in d e.process e.nonce
            then get d (pending_event_timed_key e)
            else some (marshal e)))
  write_pending_lem d e id p nf stamped range new known same turn =
      let ik = pending_event_identifier_key id in
      let rk = process_key p.identifier in
      let sk = pending_event_signatures_key e.process e.nonce in
      let qk = pending_event_timed_key e in
      let d₁ = set d ik (uint64_bytes e.timestamp) in
      let d₂ = after_nonce d e id p in
      let d₃ = set d₂ qk (marshal e) in
      let d' = if signed_in d e.process e.nonce then d₂ else d₃ in
      let sign_kept : get d₂ sk ≡ get d sk = simp (get-set, pending_event_signatures_apart) in
      let proc_kept : get d₁ (process_key e.process) ≡ get d (process_key e.process) =
        simp (get-set, process_apart) in
      let id₂ : get d₂ ik ≡ some (uint64_bytes e.timestamp) =
        simp (get-set, pending_event_identifier_apart, beq_refl ik) in
      let id₃ : get d₃ ik ≡ some (uint64_bytes e.timestamp) =
        simp (get-set, pending_event_identifier_apart, beq_refl ik) in
      let back = uint64_value-uint64_bytes e.timestamp range in
      let proc₂ : get d₂ (process_key e.process) ≡ some (process_json.marshal (advanced p)) =
        rw (← same) (simp (get-set, beq_refl rk)) in
      let proc₃ : get d₃ (process_key e.process) ≡ some (process_json.marshal (advanced p)) =
        rw (← same) (simp (get-set, process_apart, beq_refl rk)) in
      (
        d',
        unfold write_pending_group_event_and_nonce in
            ground (
              arith,
              nf.reads d ik,
              nf.writes d ik,
              nf.reads d₁ (process_key e.process),
              nf.writes d₁ rk,
              nf.reads d₂ sk,
              nf.writes d₂ qk,
              nf.commits d₂,
              nf.commits d₃,
            ),
        unfold check_pending_group_event_identifier in
            ground (arith, nf.reads d₂ ik, nf.reads d₃ ik),
        ground (arith, unmarshal-marshal (advanced p)),
        ground (
          arith,
          let kept : get d₂ qk ≡ get d qk = simp (get-set, pending_event_timed_apart) in kept,
          let there : get d₃ qk ≡ some (marshal e) = simp (get-set, beq_refl qk) in there,
        ),
      )
