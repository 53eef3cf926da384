-- ===== src/Machine/Signer/Rounds.antt =====
-- A round of `loopSignGroupEvents` of mvm/machine/signer.go brings no signature into the store that
-- does not verify.
use trusted_group.Base.{
  ℕ, ◌≡◌, refl, sym, subst, ◌∙◌, Bytes, Bool, true, false, not, List, [], ◌∷◌, arith, Table,
}
use trusted_group.Base.{ok, panic_if, must, >>=-eq-ok, must-eq-ok}
use trusted_group.External.{Integers, Wire, Database, Json, Network}
use trusted_group.Encoding.{Event, encode_event}
use trusted_group.Machine.State.{Engine, Machine}
use trusted_group.Machine.Signer.{
  Times, append_pending_group_event_signature, sign_event, sign_events, sign_round, queue_message,
  is_recent, event_id, is_empty, queue_to, send_message,
}
use trusted_group.Store.Events.{list_pending_group_events}
use trusted_group.Machine.Signer.Authentic.{IsAuthentic, IsAuthentic-append}

module _ ⦃ints : Integers⦄ ⦃wire : Wire⦄ ⦃database : Database⦄ ⦃network : Network⦄ ⦃engine : Engine⦄
    ⦃event_json : Json Event⦄ where
  queue_to-store :
      (m m' : Machine) (peers : List Bytes) (b : Bytes)
      → queue_to m peers b ≡ ok m'
      → m'.store ≡ m.store
  unfolding queue_to
  queue_to-store m m' [] b h = let same : m ≡ m' = ground arith in λ i. (sym same i).store
  queue_to-store m m' (p ∷ ps) b h =
      let (m₁, sent, h₁) = >>=-eq-ok (send_message m p b) _ h in
      queue_to-store m₁ m' ps b h₁ ∙ sent_store m₁ sent
    where
      sent_store : (m₁ : Machine) → send_message m p b ≡ ok m₁ → m₁.store ≡ m.store
      sent_store m₁ h = unfold send_message in ground arith

  IsAuthentic-sign_event :
      (m m' : Machine) (sm sm' : Table ℕ) (times : Times) (e : Event)
      → IsAuthentic m.store
      → sign_event m sm times e ≡ ok (m', sm')
      → IsAuthentic m'.store
  unfolding sign_event queue_message
  IsAuthentic-sign_event m m' sm sm' times e a h = go _ refl
    where
      go : (b : Bool) → is_recent sm (event_id e) times.tested ≡ b → IsAuthentic m'.store
      go true recent =
          let same : m ≡ m' = ground arith in subst (λ (x : Machine). IsAuthentic x.store) same a
      go false recent =
          let (u, bare, h₁) =
            >>=-eq-ok (panic_if (not (is_empty e.signature))) _ (rw recent at h) in
          let (msg, made, h₂) = >>=-eq-ok (encode_event e) _ h₁ in
          let (partial, signed, h₃) = >>=-eq-ok (must (network.sign_partial msg)) _ h₂ in
          let (b, packed, h₄) = >>=-eq-ok (encode_event (record e { signature = partial })) _ h₃ in
          let (m₁, queued, h₅) = >>=-eq-ok (must (queue_message m _)) _ h₄ in
          let (d, added, h₆) =
            >>=-eq-ok
              (must (
                append_pending_group_event_signature m₁.store (record e { signature = partial }) msg
                  partial))
              _ h₅ in
          let store : m'.store ≡ d = ground arith in
          let kept = queue_to-store m m₁ _ _ (must-eq-ok _ queued) in
          subst IsAuthentic (sym store) (
            IsAuthentic-append (record e { signature = partial }) e msg refl refl made m₁.store d
              partial (subst IsAuthentic (sym kept) a) (must-eq-ok _ added))

  IsAuthentic-sign_events :
      (m m' : Machine) (sm sm' : Table ℕ) (times : Times) (es : List Event)
      → IsAuthentic m.store
      → sign_events m sm times es ≡ ok (m', sm')
      → IsAuthentic m'.store
  unfolding sign_events
  IsAuthentic-sign_events m m' sm sm' times [] a h =
      let same : m ≡ m' = ground arith in subst (λ (x : Machine). IsAuthentic x.store) same a
  IsAuthentic-sign_events m m' sm sm' times (e ∷ es) a h =
      let ((m₁, sm₁), signed, h₁) = >>=-eq-ok (sign_event m sm times e) _ h in
      IsAuthentic-sign_events m₁ m' sm₁ sm' times es
        (IsAuthentic-sign_event m m₁ sm sm₁ times e a signed) h₁

  -- If every full signature in the store was verified, with the key of the group, for the encoding of
  -- an event with its process and nonce, then so it is after a successful round of signing.
  pub sign_round-IsAuthentic :
      (m m' : Machine) (sm sm' : Table ℕ) (times : Times)
      → IsAuthentic m.store
      → sign_round m sm times ≡ ok (m', sm')
      → IsAuthentic m'.store
  unfolding sign_round
  sign_round-IsAuthentic m m' sm sm' times a h =
      let (es, listed, h₁) = >>=-eq-ok (must (list_pending_group_events m.store 100)) _ h in
      IsAuthentic-sign_events m m' sm sm' times es a h₁
