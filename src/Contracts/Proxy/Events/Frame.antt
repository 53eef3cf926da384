-- ===== src/Contracts/Proxy/Events/Frame.antt =====
-- Handling an event of mvm/eos/contracts/mixinproxy/mixinproxy.go does not touch the nonces, nor the
-- accounts of users.
use trusted_group.Base.{
  refl, ℕ, ◌+◌, ◌-◌, ◌%◌, ◌^◌, ◌≡◌, Bytes, not, ◌==◌, ltb, List, [], ◌∷◌, Option, none, some, text,
  ok, ◌>>=◌, >>=-eq-ok,
}
use trusted_group.External.{ChainAsset, Tables, Chaining, Call}
use trusted_group.Contracts.{signed_le}
use trusted_group.Contracts.Proxy.{Proxy, TxEvent}
use trusted_group.Contracts.Proxy.Accounts.{get_account, create_user_account}
use trusted_group.Contracts.Proxy.Transfers.{
  get_symbol, get_transfer_fee, get_create_account_fee, add_fee, show_error, handle_refund,
}
use trusted_group.Contracts.Proxy.Events.{
  run_event, run_new, pay_for_account, run_from, run_members, refund_expired, handle_amount,
  handle_known, handle_at, handle_event_no_nonce_checking,
}
use trusted_group.Contracts.Proxy.Events.Untouched.{
  SameRecords, SameRecords-trans, same_as, either, unchanged, request-SameRecords,
  refund-SameRecords, add_fee-SameRecords, create_refused, finish-SameRecords, shown-SameRecords,
}

module _ ⦃tables : Tables⦄ where
  module _ ⦃chaining : Chaining⦄ where
    module _ (call : Call) (process : ℕ) (event : TxEvent) where
      open chaining use {new_symbol}

      run-SameRecords :
          (account : ℕ) (q : ChainAsset) (p p' : Proxy)
          → run_event call process event account q p ≡ ok p'
          → SameRecords call.receiver p p'
      unfolding run_event
      run-SameRecords account q p p' h = finish-SameRecords _ call process event account q p p' h

      run_new-SameRecords :
          (from : ℕ) (q : ChainAsset) (p p' : Proxy)
          → get_account call from p ≡ none
          → run_new call process event from q p ≡ ok p'
          → SameRecords call.receiver p p'
      unfolding run_new
      run_new-SameRecords from q p p' unknown h =
          let ((account, p₁), got, h₁) = >>=-eq-ok (create_user_account call from p) _ h in
          absurd (create_refused call from account p p₁ unknown got)

      pay-SameRecords :
          (from : ℕ) (q : ChainAsset) (p p' : Proxy)
          → get_account call from p ≡ none
          → pay_for_account call process event from q p ≡ ok p'
          → SameRecords call.receiver p p'
      unfolding pay_for_account
      pay-SameRecords from q p p' unknown h =
          let fee = get_create_account_fee p in
          either (fee.amount == 0) (run_new call process event from q p) _ h
            (run_new-SameRecords from q p p' unknown)
            (λ h₁.
              either (not (q.symbol == new_symbol (text "MEOS") 8)) _ _ h₁
                (shown-SameRecords call (text "invalid asset for creating account") p p')
                (λ h₂.
                  either (not (signed_le fee.amount q.amount)) _ _ h₂
                    (shown-SameRecords call (text "not enough fee for creating account") p p')
                    (run_new-SameRecords from
                      (record q { amount = (q.amount + (2 ^ 64 - fee.amount)) % 2 ^ 64 }) p p'
                      unknown)))

      run_from-SameRecords :
          (o : Option ℕ) (from : ℕ) (q : ChainAsset) (p p' : Proxy)
          → get_account call from p ≡ o
          → run_from o call process event from q p ≡ ok p'
          → SameRecords call.receiver p p'
      unfolding run_from
      run_from-SameRecords none from q p p' e h = pay-SameRecords from q p p' e h
      run_from-SameRecords (some account) from q p p' e h = run-SameRecords account q p p' h

      members-SameRecords :
          (members : List ℕ) (q : ChainAsset) (p p' : Proxy)
          → run_members members call process event q p ≡ ok p'
          → SameRecords call.receiver p p'
      unfolding run_members
      members-SameRecords [] q p p' h = shown-SameRecords call _ p p' h
      members-SameRecords (from ∷ []) q p p' h =
          run_from-SameRecords (get_account call from p) from q p p' refl h
      members-SameRecords (from ∷ next ∷ rest) q p p' h = shown-SameRecords call _ p p' h

      expired-SameRecords :
          (p p' : Proxy)
          → refund_expired call process event p ≡ ok p'
          → SameRecords call.receiver p p'
      unfolding refund_expired
      expired-SameRecords p p' h =
          either _ _ _ h (refund-SameRecords call process event _ p p')
            (same_as call.receiver p p p' (unchanged call.receiver p))

    open chaining use {max_amount, uint128_sub}

    amount-SameRecords :
        (call : Call) (process : ℕ) (event : TxEvent) (fee q : ChainAsset) (p p' : Proxy)
        → handle_amount call process event fee q p ≡ ok p'
        → SameRecords call.receiver p p'
    unfolding handle_amount
    amount-SameRecords call process event fee q p p' h =
        let event' = record event { amount = uint128_sub event.amount fee.amount } in
        let rest = record q { amount = (q.amount + (2 ^ 64 - fee.amount)) % 2 ^ 64 } in
        either (signed_le q.amount fee.amount)
          (add_fee call q p >>= λ p. ok (show_error (text "transfer amount is less than fee") p))
          (add_fee call fee p >>= λ p. refund_expired call process event' p >>= λ p.
            run_members event.members call process event' rest p)
          h
          (λ h₁.
            let (p₁, added, h₂) = >>=-eq-ok (add_fee call q p) _ h₁ in
            SameRecords-trans call.receiver p p₁ p' (add_fee-SameRecords call q p p₁ added)
              (shown-SameRecords call (text "transfer amount is less than fee") p₁ p' h₂))
          (λ h₁.
            let (p₁, added, h₂) = >>=-eq-ok (add_fee call fee p) _ h₁ in
            let (p₂, back, h₃) = >>=-eq-ok (refund_expired call process event' p₁) _ h₂ in
            SameRecords-trans call.receiver p p₁ p' (add_fee-SameRecords call fee p p₁ added) (
              SameRecords-trans call.receiver p₁ p₂ p'
                (expired-SameRecords call process event' p₁ p₂ back)
                (members-SameRecords call process event' event.members rest p₂ p' h₃)))

    known-SameRecords :
        (call : Call) (process : ℕ) (event : TxEvent) (p p' : Proxy)
        → handle_known call process event p ≡ ok p'
        → SameRecords call.receiver p p'
    unfolding handle_known
    known-SameRecords call process event p p' h =
        either (ltb max_amount event.amount) (ok (show_error (text "amount too large") p))
          (get_symbol call event.asset p >>= λ symbol.
            handle_amount call process event (get_transfer_fee call symbol p)
              (record { amount = event.amount % 2 ^ 64; symbol = symbol }) p)
          h (shown-SameRecords call (text "amount too large") p p')
          (λ h₁.
            let (symbol, _, h₂) = >>=-eq-ok (get_symbol call event.asset p) _ h₁ in
            amount-SameRecords call process event (get_transfer_fee call symbol p)
              (record { amount = event.amount % 2 ^ 64; symbol = symbol }) p p' h₂)

    at-SameRecords :
        (o : Option ℕ) (call : Call) (process : ℕ) (event : TxEvent) (p p' : Proxy)
        → handle_at o call process event p ≡ ok p'
        → SameRecords call.receiver p p'
    unfolding handle_at
    at-SameRecords none call process event p p' h =
        same_as call.receiver p p p' (unchanged call.receiver p) h
    at-SameRecords (some primary) call process event p p' h =
        known-SameRecords call process event p p' h

    -- An event that is handled leaves the nonces and the accounts as they are.
    pub handle_event-SameRecords :
        (call : Call) (process : ℕ) (event : TxEvent) (p p' : Proxy)
        → handle_event_no_nonce_checking call process event p ≡ ok p'
        → SameRecords call.receiver p p'
    unfolding handle_event_no_nonce_checking
    handle_event-SameRecords call process event p p' h = at-SameRecords _ call process event p p' h

    pub handle_refund-SameRecords :
        (call : Call) (process client asset amount : ℕ) (memo : Bytes) (p p' : Proxy)
        → handle_refund call process client asset amount memo p ≡ ok p'
        → SameRecords call.receiver p p'
    unfolding handle_refund
    handle_refund-SameRecords call process client asset amount memo p p' h =
        request-SameRecords call _ p p' h
