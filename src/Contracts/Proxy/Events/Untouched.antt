-- ===== src/Contracts/Proxy/Events/Untouched.antt =====
-- What the steps of an event of mvm/eos/contracts/mixinproxy/mixinproxy.go do to the nonces and to the
-- accounts of users: nothing.
use trusted_group.Base.{
  ℕ, ◌≡◌, ◌≢◌, Option-cases, refl, sym, ◌∙◌, subst, ap, Bytes, Bool, true, false, Option, none,
  some, arith, inl, inr, Bool-cases, if◌then◌else◌, Outcome, ok, >>=-eq-ok, ok_injective,
}
use trusted_group.External.{ChainAsset, Tables, Chaining, Call}
use trusted_group.Contracts.{is_found, check->>, stored}
use trusted_group.Contracts.Mtg.{TxRequest}
use trusted_group.Contracts.Proxy.{Proxy, TxEvent, key_nonce, key_tx_out_index}
use trusted_group.Contracts.Proxy.Nonces.{step_index, next_index, get_next_tx_request_nonce}
use trusted_group.Contracts.Proxy.Accounts.{
  get_account, account_by, account_at, create_user_account, by_client_id,
}
use trusted_group.Contracts.Proxy.Transfers.{
  add_fee, add_to_total, show_error, refund, request_transfer, issue_asset,
}
use trusted_group.Contracts.Proxy.Events.{Wish, no_action, an_action, money_back, finish_event}

module _ ⦃tables : Tables⦄ where
  open tables use {Rows, find, store, search, search_sound, find-put}

  -- The same nonces, and the same accounts of users.
  pub record SameRecords (self : ℕ) (p p' : Proxy) : Type 0 where
    pub notes : p'.submittedevs ≡ p.submittedevs
    pub counter : find p'.counters self key_nonce ≡ find p.counters self key_nonce
    pub accounts : p'.bindaccounts ≡ p.bindaccounts

  pub SameRecords-trans :
      (self : ℕ) (p p' p'' : Proxy)
      → SameRecords self p p'
      → SameRecords self p' p''
      → SameRecords self p p''
  SameRecords-trans self p p' p'' a b = record {
    notes = b.notes ∙ a.notes;
    counter = b.counter ∙ a.counter;
    accounts = b.accounts ∙ a.accounts;
  }

  -- What is equal to a proxy with the same records has them.
  pub same_as :
      (self : ℕ) (p q p' : Proxy) → SameRecords self p q → ok q ≡ ok p' → SameRecords self p p'
  same_as self p q p' s e = subst (SameRecords self p) (ok_injective e) s

  -- Both branches of a test.
  pub either :
      {S : Type 0} {p' : Proxy} (b : Bool) (x y : Outcome Proxy)
      → (if b then x else y) ≡ ok p'
      → (x ≡ ok p' → S)
      → (y ≡ ok p' → S)
      → S
  either true x y h f g = f h
  either false x y h f g = g h

  pub unchanged : (self : ℕ) (p : Proxy) → SameRecords self p p
  unchanged self p = record { notes = refl; counter = refl; accounts = refl }

  step_apart :
      (o : Option ℕ) (self n : ℕ) (r r' : Rows ℕ)
      → step_index o self key_tx_out_index 1 r ≡ ok (n, r')
      → find r' self key_nonce ≡ find r self key_nonce
  unfolding step_index
  step_apart (some count) self n r r' h =
      subst (λ x. find x self key_nonce ≡ find r self key_nonce) (ap (λ x. x.1) (ok_injective h))
        (rw (find-put) (ground arith))
  step_apart none self n r r' h =
      let (r₁, s, h₁) = >>=-eq-ok (store r self key_tx_out_index 1) _ h in
      let (_, made) = stored r r₁ self key_tx_out_index 1 s in
      subst (λ x. find x self key_nonce ≡ find r self key_nonce)
        (sym made ∙ ap (λ x. x.1) (ok_injective h₁)) (rw (find-put) (ground arith))

  next_index-SameRecords :
      (call : Call) (p p' : Proxy) (id : ℕ)
      → get_next_tx_request_nonce call p ≡ ok (id, p')
      → SameRecords call.receiver p p'
  unfolding get_next_tx_request_nonce next_index
  next_index-SameRecords call p p' id h =
      let self = call.receiver in
      let ((n, r), got, h₁) =
        >>=-eq-ok
          (step_index (find p.counters self key_tx_out_index) self key_tx_out_index 1 p.counters) _
          h in
      subst (SameRecords self p) (ap (λ x. x.1) (ok_injective h₁)) (record {
        notes = refl;
        counter = other (find p.counters self key_tx_out_index) n r got;
        accounts = refl;
      })
    where
      other :
          (o : Option ℕ) (n : ℕ) (r : Rows ℕ)
          → step_index o call.receiver key_tx_out_index 1 p.counters ≡ ok (n, r)
          → find r call.receiver key_nonce ≡ find p.counters call.receiver key_nonce
      other o n r got = step_apart o call.receiver n p.counters r got

  module _ ⦃chaining : Chaining⦄ where
    pub request-SameRecords :
        (call : Call) (notify : ℕ → TxRequest) (p p' : Proxy)
        → request_transfer call notify p ≡ ok p'
        → SameRecords call.receiver p p'
    unfolding request_transfer
    request-SameRecords call notify p p' h =
        let ((id, p₁), got, h₁) = >>=-eq-ok (get_next_tx_request_nonce call p) _ h in
        let s = next_index-SameRecords call p p₁ id got in
        same_as call.receiver p _ p'
          (record { notes = s.notes; counter = s.counter; accounts = s.accounts }) h₁

    pub refund-SameRecords :
        (call : Call) (process : ℕ) (event : TxEvent) (memo : Bytes) (p p' : Proxy)
        → refund call process event memo p ≡ ok p'
        → SameRecords call.receiver p p'
    unfolding refund
    refund-SameRecords call process event memo p p' h = request-SameRecords call _ p p' h

    total-SameRecords :
        (o : Option ChainAsset) (call : Call) (fee : ChainAsset) (p p' : Proxy)
        → add_to_total o call fee p ≡ ok p'
        → SameRecords call.receiver p p'
    unfolding add_to_total
    total-SameRecords (some total) call fee p p' h =
        same_as call.receiver p _ p' (record { notes = refl; counter = refl; accounts = refl }) h
    total-SameRecords none call fee p p' h =
        let (r, _, h₁) = >>=-eq-ok (store p.totalfees call.receiver _ fee) _ h in
        same_as call.receiver p _ p' (record { notes = refl; counter = refl; accounts = refl }) h₁

    pub add_fee-SameRecords :
        (call : Call) (fee : ChainAsset) (p p' : Proxy)
        → add_fee call fee p ≡ ok p'
        → SameRecords call.receiver p p'
    unfolding add_fee
    add_fee-SameRecords call fee p p' h = total-SameRecords _ call fee p p' h

    -- An account is only opened for a user who has one, and so for nobody.
    pub create_refused :
        (call : Call) (from account : ℕ) (p p' : Proxy)
        → get_account call from p ≡ none
        → create_user_account call from p ≢ ok (account, p')
    unfolding create_user_account get_account account_by account_at is_found
    create_refused call from account p p' unknown h =
        let found_by = search by_client_id p.bindaccounts call.receiver from in
        let (there, _) = check->> (is_found found_by) _ h in
        elim (Option-cases found_by) [
          | inl e ↦ let c : true ≡ false = sym there ∙ rw e refl in cc
          | inr (k, e) ↦
              let (a, found, own) =
                search_sound by_client_id p.bindaccounts call.receiver from k e in
              let c : some a.eos_account ≡ none = sym (rw (e, found) refl) ∙ unknown in cc
        ]

    issue-SameRecords :
        (call : Call) (account : ℕ) (q : ChainAsset) (p : Proxy)
        → SameRecords call.receiver p (issue_asset call account q p)
    unfolding issue_asset
    issue-SameRecords call account q p =
        let code = chaining.symbol_code q.symbol in
        elim (Bool-cases (is_found (find p.token_stats code code))) [
          | inl e ↦ rw e (record { notes = refl; counter = refl; accounts = refl })
          | inr e ↦ rw e (record { notes = refl; counter = refl; accounts = refl })
        ]

    pub finish-SameRecords :
        (w : Wish) (call : Call) (process : ℕ) (event : TxEvent) (account : ℕ) (q : ChainAsset)
        (p p' : Proxy)
        → finish_event w call process event account q p ≡ ok p'
        → SameRecords call.receiver p p'
    unfolding finish_event issue_asset
    finish-SameRecords no_action call process event account q p p' h =
        same_as call.receiver p _ p' (issue-SameRecords call account q p) h
    finish-SameRecords (an_action a) call process event account q p p' h =
        let s = issue-SameRecords call account q p in
        same_as call.receiver p _ p'
          (record { notes = s.notes; counter = s.counter; accounts = s.accounts }) h
    finish-SameRecords (money_back memo) call process event account q p p' h =
        refund-SameRecords call process event memo p p' h

    pub shown-SameRecords :
        (call : Call) (message : Bytes) (p p' : Proxy)
        → ok (show_error message p) ≡ ok p'
        → SameRecords call.receiver p p'
    unfolding show_error
    shown-SameRecords call message p p' h =
        same_as call.receiver p _ p' (record { notes = refl; counter = refl; accounts = refl }) h
