-- ===== src/Contracts/Proxy/Actions/Unopened.antt =====
-- The accounts of users of mvm/eos/contracts/mixinproxy, over any sequence of its actions.
use trusted_group.Base.{
  ℕ, zero, suc, ◌+◌, ◌%◌, ◌^◌, ◌≡◌, refl, sym, ◌∙◌, ap, Bytes, not, ◌==◌, leb, length, List, drop,
  Option-cases, inl, inr, ok, >>=-eq-ok, ok_injective,
}
use trusted_group.External.{Tables, Chaining, Call}
use trusted_group.Contracts.{is_found, check->>}
use trusted_group.Contracts.Signatures.{verify_signatures}
use trusted_group.Contracts.Proxy.{Proxy, TxEvent, mtg_xin, key_nonce}
use trusted_group.Contracts.Proxy.Nonces.{
  inc_counter, inc_nonce, nonce_or_first, get_nonce, store_nonce, advance, check_nonce,
}
use trusted_group.Contracts.Proxy.Events.Frame.{handle_event-SameRecords}
use trusted_group.Contracts.Proxy.Actions.{Unpacking, signed_part, on_event, on_error_event}
use trusted_group.Contracts.Proxy.Actions.Others.{Other-SameRecords}
use trusted_group.Contracts.Proxy.Actions.Accepted.{
  Run, start, event_taken, error_taken, other_done,
}

module _ ⦃tables : Tables⦄ where
  open tables use {find, store, rows, remove}

  inc_nonce-accounts :
      (call : Call) (p p' : Proxy) → inc_nonce call p ≡ ok p' → p'.bindaccounts ≡ p.bindaccounts
  unfolding inc_nonce
  inc_nonce-accounts call p p' h =
      let (r, _, h₁) =
        >>=-eq-ok (inc_counter (find p.counters call.receiver key_nonce) call.receiver p.counters) _
          h in
      sym (ap (λ (x : Proxy). x.bindaccounts) (ok_injective h₁))

  get_nonce-accounts :
      (call : Call) (p p' : Proxy) (n : ℕ)
      → get_nonce call p ≡ ok (n, p')
      → p'.bindaccounts ≡ p.bindaccounts
  unfolding get_nonce
  get_nonce-accounts call p p' n h =
      let ((m, r), _, h₁) =
        >>=-eq-ok
          (nonce_or_first (find p.counters call.receiver key_nonce) call.receiver p.counters) _ h in
      sym (ap (λ (x : ℕ × Proxy). x.1.bindaccounts) (ok_injective h₁))

  store_nonce-accounts :
      (call : Call) (n : ℕ) (p p' : Proxy)
      → store_nonce call n p ≡ ok p'
      → p'.bindaccounts ≡ p.bindaccounts
  unfolding store_nonce
  store_nonce-accounts call n p p' h =
      let (_, h₁) = check->> (not (is_found (find p.submittedevs call.receiver n))) _ h in
      let (r, _, h₂) = >>=-eq-ok (store p.submittedevs call.receiver n n) _ h₁ in
      sym (ap (λ (x : Proxy). x.bindaccounts) (ok_injective h₂))

  advance-accounts :
      (call : Call) (fuel nonce : ℕ) (p p' : Proxy) (n : ℕ)
      → advance call fuel nonce p ≡ ok (n, p')
      → p'.bindaccounts ≡ p.bindaccounts
  unfolding advance is_found
  advance-accounts call zero nonce p p' n h =
      sym (ap (λ (x : ℕ × Proxy). x.1.bindaccounts) (ok_injective h))
  advance-accounts call (suc fuel) nonce p p' n h =
      elim (Option-cases (find p.submittedevs call.receiver nonce)) [
        | inl e ↦ sym (ap (λ (x : ℕ × Proxy). x.1.bindaccounts) (ok_injective (rw e at h)))
        | inr (v, e) ↦
            let p₀ = record p { submittedevs = remove p.submittedevs call.receiver nonce } in
            let (p₁, counted, h₁) = >>=-eq-ok (inc_nonce call p₀) _ (rw e at h) in
            advance-accounts call fuel ((nonce + 1) % 2 ^ 64) p₁ p' n h₁
            ∙ inc_nonce-accounts call p₀ p₁ counted
      ]

  check_nonce-accounts :
      (call : Call) (n : ℕ) (p p' : Proxy)
      → check_nonce call n p ≡ ok p'
      → p'.bindaccounts ≡ p.bindaccounts
  unfolding check_nonce
  check_nonce-accounts call n p p' h =
      let ((nonce, p₁), got, h₁) = >>=-eq-ok (get_nonce call p) _ h in
      let (_, h₂) = check->> (leb nonce n) _ h₁ in
      let (p₂, noted, h₃) = >>=-eq-ok (store_nonce call n p₁) _ h₂ in
      let ((counter, p₃), moved, h₄) =
        >>=-eq-ok (advance call (length (rows p₂.submittedevs call.receiver)) nonce p₂) _ h₃ in
      sym (ap (λ (x : Proxy). x.bindaccounts) (ok_injective h₄))
      ∙ advance-accounts call _ nonce p₂ p₃ counter moved
      ∙ store_nonce-accounts call n p₁ p₂ noted
      ∙ get_nonce-accounts call p p₁ nonce got

  module _ ⦃chaining : Chaining⦄ ⦃unpacking : Unpacking⦄ where
    open unpacking use {unpack_event, unpack_string}

    on_event-accounts :
        (call : Call) (process : ℕ) (message : Bytes) (event : TxEvent) (size : ℕ) (p p' : Proxy)
        → unpack_event message ≡ ok (event, size)
        → on_event call process message p ≡ ok p'
        → p'.bindaccounts ≡ p.bindaccounts
    unfolding on_event
    on_event-accounts call process message event size p p' e h =
        let (part, _, h₁) =
          >>=-eq-ok (signed_part (length message) event.signatures message) _ (rw e at h) in
        let (_, _, h₂) =
          >>=-eq-ok (verify_signatures p.signers mtg_xin part event.signatures) _ h₁ in
        let (_, h₃) = check->> (event.process == process) _ h₂ in
        let (p₁, taken, h₄) = >>=-eq-ok (check_nonce call event.nonce p) _ h₃ in
        (handle_event-SameRecords call process event p₁ p' h₄).accounts
        ∙ check_nonce-accounts call event.nonce p p₁ taken

    on_error_event-accounts :
        (call : Call) (process : ℕ) (message : Bytes) (event : TxEvent) (size : ℕ) (p p' : Proxy)
        → unpack_event message ≡ ok (event, size)
        → on_error_event call process message p ≡ ok p'
        → p'.bindaccounts ≡ p.bindaccounts
    unfolding on_error_event
    on_error_event-accounts call process message event size p p' e h =
        let self = call.receiver in
        let (part, _, h₁) = >>=-eq-ok (signed_part size event.signatures message) _ (rw e at h) in
        let (_, _, h₂) =
          >>=-eq-ok (verify_signatures p.signers mtg_xin part event.signatures) _ h₁ in
        let (_, h₃) = check->> (event.process == process) _ h₂ in
        let (reason, _, h₄) = >>=-eq-ok (unpack_string (drop size message)) _ h₃ in
        let ((nonce, p₁), got, h₅) = >>=-eq-ok (get_nonce call p) _ h₄ in
        let (_, h₆) = check->> (leb nonce event.nonce) _ h₅ in
        let (p₂, noted, h₇) = >>=-eq-ok (store_nonce call event.nonce p₁) _ h₆ in
        let (_, h₈) = check->> (not (is_found (find p₂.errorevents self event.nonce))) _ h₇ in
        let (r, _, h₉) = >>=-eq-ok (store p₂.errorevents self event.nonce _) _ h₈ in
        sym (ap (λ (x : Proxy). x.bindaccounts) (ok_injective h₉))
        ∙ store_nonce-accounts call event.nonce p₁ p₂ noted
        ∙ get_nonce-accounts call p p₁ nonce got

    -- No account of a user is ever opened: over any sequence of actions that succeed, with nonces of
    -- the events below 2 ^ 64 - 1, the table of the accounts stays what it was, whatever users the
    -- events come from and whatever fees they pay.
    pub run_opens_no_account :
        (self : ℕ) (p p' : Proxy) (ns : List ℕ)
        → Run self p p' ns
        → p'.bindaccounts ≡ p.bindaccounts
    run_opens_no_account self p _ _ start = refl
    run_opens_no_account self p p'' _
          (event_taken call process message event size {p' = p'} {ns = ns} before _ unpacked _ h) =
        on_event-accounts call process message event size p' p'' unpacked h
        ∙ run_opens_no_account self p p' ns before
    run_opens_no_account self p p'' _
          (error_taken call process message event size {p' = p'} {ns = ns} before _ unpacked _ h) =
        on_error_event-accounts call process message event size p' p'' unpacked h
        ∙ run_opens_no_account self p p' ns before
    run_opens_no_account self p p'' ns (other_done {p' = p'} before step) =
        (Other-SameRecords self p' p'' step).accounts ∙ run_opens_no_account self p p' ns before
