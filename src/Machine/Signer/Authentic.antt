-- ===== src/Machine/Signer/Authentic.antt =====
-- Every full signature in the store verifies: what mvm/machine/signer.go keeps.
use trusted_group.Base.{
  ℕ, ◌≡◌, refl, sym, subst, Bytes, Bool, true, false, beq, beq→eq, length, List, [], ◌∷◌, ◌++◌,
  some, if◌then◌else◌, Bool-cases, inl, inr, arith,
}
use trusted_group.Base.{ok, ◌>>=◌, must, >>=-eq-ok}
use trusted_group.External.{Integers, Wire, Database, Json, Network}
use trusted_group.Encoding.{Event, encode_event}
use trusted_group.Machine.Signer.{
  check_signed_with, recover_signature, add_partial, append_to, remove_invalid_partials,
  append_pending_group_event_signature,
}
use trusted_group.Store.Keys.{pending_event_signatures_key}
use trusted_group.Store.Keys.Kinds.{pending_event_signatures_apart}
use trusted_group.Store.Events.{
  check_full_signature, read_group_event_signatures, write_pending_group_event_signatures,
  write_signed_group_event_and_expire_pending,
}
use trusted_group.Store.Events.Effects.{
  signed_in, joined, ArePartials, length-joined, write_partials-ok, write_signed-ok, after_signed,
}

module _ ⦃ints : Integers⦄ ⦃wire : Wire⦄ ⦃database : Database⦄ ⦃network : Network⦄
    ⦃event_json : Json Event⦄ where
  open database use {Db, get, set, get-set, get-delete}
  open network use {verify_full, recover, group_threshold, group_members}

  -- The signature verifies for the encoding of an event with the process and the nonce.
  pub record Vouched (pid : Bytes) (n : ℕ) (sig : Bytes) : Type 0 where
    pub event : Event
    pub message : Bytes
    pub same_process : event.process ≡ pid
    pub same_nonce : event.nonce ≡ n
    pub encoded : encode_event event ≡ ok message
    pub verified : verify_full message sig ≡ true

  -- Each full signature that is stored was verified for an event that is stored under its key.
  pub record IsAuthentic (d : Db) : Type 0 where
    pub vouched :
        (pid : Bytes) (n : ℕ) (sig : Bytes)
        → get d (pending_event_signatures_key pid n) ≡ some sig
        → check_full_signature sig ≡ true
        → (q : Bytes) × (m : ℕ) × (pending_event_signatures_key q m
            ≡ pending_event_signatures_key pid n)
          × Vouched q m sig

  -- One key holds a new value, which is vouched for if it is full.
  IsAuthentic-changed :
      (d d' : Db) (q : Bytes) (m : ℕ) (v : Bytes)
      → IsAuthentic d
      → ((pid : Bytes) (n : ℕ)
          → get d' (pending_event_signatures_key pid n) ≡ (
              if beq (pending_event_signatures_key q m) (pending_event_signatures_key pid n)
              then some v
              else get d (pending_event_signatures_key pid n)))
      → (check_full_signature v ≡ true → Vouched q m v)
      → IsAuthentic d'
  IsAuthentic-changed d d' q m v a change fresh = record { vouched = found }
    where
      found :
          (pid : Bytes) (n : ℕ) (sig : Bytes)
          → get d' (pending_event_signatures_key pid n) ≡ some sig
          → check_full_signature sig ≡ true
          → (q : Bytes) × (m : ℕ) × (pending_event_signatures_key q m
              ≡ pending_event_signatures_key pid n)
            × Vouched q m sig
      found pid n sig h full =
          elim (Bool-cases
            (beq (pending_event_signatures_key q m) (pending_event_signatures_key pid n))) [
              | inl same ↦
                  let new : v ≡ sig = ground (arith, change pid n) in
                  (
                    q,
                    m,
                    beq→eq _ _ same,
                    subst (Vouched q m) new
                        (fresh (subst (λ x. check_full_signature x ≡ true) (sym new) full)),
                  )
              | inr differ ↦ a.vouched pid n sig (ground (arith, change pid n)) full
            ]

  -- Partial signatures are never taken for a full one.
  joined_not_full : (ps : List Bytes) → ArePartials ps → check_full_signature (joined ps) ≡ false
  unfolding check_full_signature
  joined_not_full ps sizes = ground (arith, length-joined ps sizes)

  IsAuthentic-write_partials :
      (d d' : Db) (pid : Bytes) (n : ℕ) (partials : List Bytes)
      → IsAuthentic d
      → write_pending_group_event_signatures d pid n partials ≡ ok d'
      → IsAuthentic d'
  IsAuthentic-write_partials d d' pid n partials a h =
      let (result, sizes) = write_partials-ok d d' pid n partials h in
      elim (Bool-cases (signed_in d pid n)) [
        | inl signed ↦ subst IsAuthentic (sym (let e : d' ≡ d = ground arith in e)) a
        | inr fresh ↦
            let plain = joined_not_full partials (sizes fresh) in
            let e : d' ≡ set d (pending_event_signatures_key pid n) (joined partials) =
              ground arith in
            IsAuthentic-changed d d' pid n (joined partials) a (λ q m. rw e (get-set d _ _ _))
              (λ full. cc)
      ]

  pub IsAuthentic-write_signed :
      (d d' : Db) (e : Event)
      → IsAuthentic d
      → Vouched e.process e.nonce e.signature
      → write_signed_group_event_and_expire_pending d e ≡ ok d'
      → IsAuthentic d'
  IsAuthentic-write_signed d d' e a good h =
      let (full, result) = write_signed-ok d d' e h in
      elim (Bool-cases (signed_in d e.process e.nonce)) [
        | inl signed ↦ subst IsAuthentic (sym (let same : d' ≡ d = ground arith in same)) a
        | inr fresh ↦
            let same : d' ≡ after_signed d e = ground arith in
            IsAuthentic-changed d d' e.process e.nonce e.signature a
              (λ q m. rw same (simp (get-set, get-delete, pending_event_signatures_apart)))
              (λ _. good)
      ]

  recover_signature-verifies :
      (msg sig : Bytes) (partials : List Bytes)
      → recover_signature msg partials ≡ ok sig
      → verify_full msg sig ≡ true
  unfolding recover_signature
  recover_signature-verifies msg sig partials h =
      let (s, got, h₁) =
        >>=-eq-ok (must (recover msg partials group_threshold (length group_members))) _ h in
      ground arith

  -- What a caller of `appendPendingGroupEventSignature` has: the message is the encoding of an
  -- event with the same process and nonce.
  module _ (e encoded : Event) (msg : Bytes) (same_process : encoded.process ≡ e.process)
      (same_nonce : encoded.nonce ≡ e.nonce) (made : encode_event encoded ≡ ok msg) where
    vouch : (sig : Bytes) → verify_full msg sig ≡ true → Vouched e.process e.nonce sig
    vouch sig v = record {
      event = encoded;
      message = msg;
      same_process = same_process;
      same_nonce = same_nonce;
      encoded = made;
      verified = v;
    }

    IsAuthentic-finish :
        (d d' : Db) (all : List Bytes) (few : Bool)
        → IsAuthentic d
        → (if few then write_pending_group_event_signatures d e.process e.nonce all else (do
          sig ← recover_signature msg all
          write_signed_group_event_and_expire_pending d (record e { signature = sig })))
          ≡ ok d'
        → IsAuthentic d'
    IsAuthentic-finish d d' all true a h = IsAuthentic-write_partials d d' e.process e.nonce all a h
    IsAuthentic-finish d d' all false a h =
        let (sig, recovered, h₁) = >>=-eq-ok (recover_signature msg all) _ h in
        IsAuthentic-write_signed d d' (record e { signature = sig }) a
          (vouch sig (recover_signature-verifies msg sig all recovered)) h₁

    IsAuthentic-add_partial :
        (d d' : Db) (partials : List Bytes) (partial : Bytes)
        → IsAuthentic d
        → add_partial d e msg partials partial ≡ ok d'
        → IsAuthentic d'
    unfolding add_partial
    IsAuthentic-add_partial d d' partials partial a h = go (check_signed_with partials partial) refl
      where
        go : (b : Bool) → check_signed_with partials partial ≡ b → IsAuthentic d'
        go true e₁ = let same : d ≡ d' = ground arith in subst IsAuthentic same a
        go false e₁ = IsAuthentic-finish d d' (partials ++ (partial ∷ [])) _ a (rw e₁ at h)

    IsAuthentic-append_to :
        (d d' : Db) (partial : Bytes) (partials : List Bytes) (full : Bool)
        → IsAuthentic d
        → append_to d e msg partial (partials, full) ≡ ok d'
        → IsAuthentic d'
    unfolding append_to
    IsAuthentic-append_to d d' partial partials true a h =
        let same : d ≡ d' = ground arith in subst IsAuthentic same a
    IsAuthentic-append_to d d' partial partials false a h =
        IsAuthentic-add_partial d d' (remove_invalid_partials msg partials) partial a h

    pub IsAuthentic-append :
        (d d' : Db) (partial : Bytes)
        → IsAuthentic d
        → append_pending_group_event_signature d e msg partial ≡ ok d'
        → IsAuthentic d'
    unfolding append_pending_group_event_signature
    IsAuthentic-append d d' partial a h =
        let ((partials, full), read, h₁) =
          >>=-eq-ok (read_group_event_signatures d e.process e.nonce) _ h in
        IsAuthentic-append_to d d' partial partials full a h₁
