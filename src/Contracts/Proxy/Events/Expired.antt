-- ===== src/Contracts/Proxy/Events/Expired.antt =====
-- What becomes of an event of mvm/eos/contracts/mixinproxy/mixinproxy.go that came too late.
use trusted_group.Base.{
  ℕ, ◌+◌, ◌-◌, ◌/◌, ◌%◌, ◌^◌, ◌≡◌, refl, sym, ◌∙◌, subst, ap, Bytes, true, false, ltb, List, [],
  ◌∷◌, ◌++◌, Option, none, some, Option-cases, text, inl, inr, Bool-cases, ok, panic, >>=-eq-ok,
  ok_injective,
}
use trusted_group.External.{ChainAsset, Tables, Chaining, Call, Holds}
use trusted_group.Contracts.{signed_le, is_found}
use trusted_group.Contracts.Mtg.{TxRequest}
use trusted_group.Contracts.Proxy.{
  Proxy, ProxyAction, TxEvent, group_txrequest, token_issue, token_transfer, key_tx_out_index,
}
use trusted_group.Contracts.Proxy.Nonces.{get_next_tx_request_nonce, next_index, step_index}
use trusted_group.Contracts.Proxy.Accounts.{get_account, account_by, by_client_id}
use trusted_group.Contracts.Proxy.Transfers.{
  add_fee, add_to_total, refund, request_transfer, issue_asset, get_symbol, get_transfer_fee,
  by_asset_id,
}
use trusted_group.Contracts.Proxy.Events.{
  mtg_work_expiration_seconds, refund_expired, run_event, finish_event, wish_of, handle_amount,
  run_members, run_from, handle_event_no_nonce_checking, handle_at, handle_known,
}

module _ ⦃chaining : Chaining⦄ ⦃tables : Tables⦄ where
  open tables use {find, store, search}
  open chaining use {uint128_sub, symbol_code, max_amount}

  -- The event came too late.
  abbrev pub IsLate : Call → TxEvent → Type 0
  IsLate call event =
      ltb ((event.timestamp / 1000000000 % 2 ^ 32 + mtg_work_expiration_seconds) % 2 ^ 32)
        call.current_seconds
      ≡ true

  total-bindaccounts :
      (o : Option ChainAsset) (call : Call) (fee : ChainAsset) (p p' : Proxy)
      → add_to_total o call fee p ≡ ok p'
      → p'.bindaccounts ≡ p.bindaccounts
  unfolding add_to_total
  total-bindaccounts (some total) call fee p p' h =
      sym (ap (λ (x : Proxy). x.bindaccounts) (ok_injective h))
  total-bindaccounts none call fee p p' h =
      let (r, _, h₁) = >>=-eq-ok (store p.totalfees call.receiver _ fee) _ h in
      sym (ap (λ (x : Proxy). x.bindaccounts) (ok_injective h₁))

  -- A refund sends a request for what the event holds.
  record Refunded (call : Call) (event : TxEvent) (p p' : Proxy) : Type 0 where
    request : TxRequest
    amount : request.amount ≡ event.amount
    members : request.members ≡ event.members
    asset : request.asset ≡ event.asset
    sent : p'.sent ≡ p.sent ++ (group_txrequest request ∷ [])
    same : p'.bindaccounts ≡ p.bindaccounts

  index-sent :
      (call : Call) (p p' : Proxy) (id : ℕ)
      → get_next_tx_request_nonce call p ≡ ok (id, p')
      → (p'.sent ≡ p.sent) × (p'.bindaccounts ≡ p.bindaccounts)
  unfolding get_next_tx_request_nonce next_index
  index-sent call p p' id h =
      let ((n, r), _, h₁) =
        >>=-eq-ok
          (step_index (find p.counters call.receiver key_tx_out_index) call.receiver
            key_tx_out_index 1 p.counters)
          _ h in
      let e : record p { counters = r } ≡ p' = ap (λ x. x.1) (ok_injective h₁) in
      (sym (ap (λ (x : Proxy). x.sent) e), sym (ap (λ (x : Proxy). x.bindaccounts) e))

  refund-Refunded :
      (call : Call) (process : ℕ) (event : TxEvent) (memo : Bytes) (p p' : Proxy)
      → refund call process event memo p ≡ ok p'
      → Refunded call event p p'
  unfolding refund request_transfer
  refund-Refunded call process event memo p p' h =
      let ((id, p₁), got, h₁) = >>=-eq-ok (get_next_tx_request_nonce call p) _ h in
      let (same_sent, same) = index-sent call p p₁ id got in
      subst (Refunded call event p) (ok_injective h₁) (record {
        request = record {
          nonce = id;
          contract = call.receiver;
          process = process;
          asset = event.asset;
          members = event.members;
          threshold = event.threshold;
          amount = event.amount;
          extra = memo;
          timestamp = 0;
        };
        amount = refl;
        members = refl;
        asset = refl;
        sent = rw same_sent refl;
        same = same;
      })

  Holds-append_left : {A : Type 0} (a : A) (l k : List A) → Holds a l → Holds a (l ++ k)
  Holds-append_left a [] k h = absurd h
  Holds-append_left a (x ∷ l) k (inl e) = inl e
  Holds-append_left a (x ∷ l) k (inr h) = inr (Holds-append_left a l k h)

  Holds-append_right : {A : Type 0} (a : A) (l k : List A) → Holds a k → Holds a (l ++ k)
  Holds-append_right a [] k h = h
  Holds-append_right a (x ∷ l) k h = inr (Holds-append_right a l k h)

  -- Tokens are issued, and go on to the account.
  abbrev pub Paid : Call → ℕ → ChainAsset → List ProxyAction → Type 0
  Paid call account q sent =
      Holds (token_issue call.receiver q) sent
      × Holds (token_transfer call.receiver call.receiver account q (text "transfer")) sent

  -- What `IssueAsset` sends, after what was sent before.
  issue-sent :
      (call : Call) (account : ℕ) (q : ChainAsset) (p : Proxy)
      → Paid call account q (issue_asset call account q p).sent
        × ((a : ProxyAction) → Holds a p.sent → Holds a (issue_asset call account q p).sent)
  unfolding issue_asset
  issue-sent call account q p =
      let c = symbol_code q.symbol in
      elim (Bool-cases (is_found (find p.token_stats c c))) [
        | inl e ↦ rw e (
          (
            Holds-append_left _ _ _ (Holds-append_right _ p.sent _ (inl refl)),
            Holds-append_right _ (p.sent ++ _) _ (inl refl),
          ),
          λ a i. Holds-append_left a _ _ (Holds-append_left a p.sent _ i),
        )
        | inr e ↦ rw e (
          (
            Holds-append_left _ _ _ (Holds-append_right _ (p.sent ++ _) _ (inl refl)),
            Holds-append_right _ ((p.sent ++ _) ++ _) _ (inl refl),
          ),
          λ a i. Holds-append_left a _ _ (Holds-append_left a _ _ (Holds-append_left a p.sent _ i)),
        )
      ]

  account_by_same :
      (o : Option ℕ) (call : Call) (p p' : Proxy)
      → p'.bindaccounts ≡ p.bindaccounts
      → account_by o call p' ≡ account_by o call p
  unfolding account_by
  account_by_same none call p p' e = refl
  account_by_same (some k) call p p' e = rw e refl

  get_account_same :
      (call : Call) (from : ℕ) (p p' : Proxy)
      → p'.bindaccounts ≡ p.bindaccounts
      → get_account call from p' ≡ get_account call from p
  unfolding get_account
  get_account_same call from p p' e =
      ap (λ b. account_by (search by_client_id b call.receiver from) call p') e
      ∙ account_by_same (search by_client_id p.bindaccounts call.receiver from) call p p' e

  -- The same once the amount and the fee are known.
  late_amount_twice :
      (call : Call) (process account from : ℕ) (event : TxEvent) (fee q : ChainAsset) (p p' : Proxy)
      → IsLate call event
      → event.extra ≡ []
      → event.members ≡ from ∷ []
      → get_account call from p ≡ some account
      → signed_le q.amount fee.amount ≡ false
      → handle_amount call process event fee q p ≡ ok p'
      → (r : TxRequest) × Holds (group_txrequest r) p'.sent
        × (r.amount ≡ uint128_sub event.amount fee.amount)
        × (r.members ≡ from ∷ [])
        × Paid call account
            (record q { amount = (q.amount + (2 ^ 64 - fee.amount)) % 2 ^ 64 })
            p'.sent
  unfolding handle_amount refund_expired run_members run_from run_event finish_event wish_of add_fee
  late_amount_twice call process account from event fee q p p' late bare member known more h =
      let event' = record event { amount = uint128_sub event.amount fee.amount } in
      let rest = record q { amount = (q.amount + (2 ^ 64 - fee.amount)) % 2 ^ 64 } in
      let h₁ = rw (more, late) at h in
      let (p₁, added, h₂) = >>=-eq-ok (add_fee call fee p) _ h₁ in
      let (p₂, back, h₃) =
        >>=-eq-ok (refund call process event' (text "expired, refund") p₁) _ h₂ in
      let kept = total-bindaccounts _ call fee p p₁ added in
      let d = refund-Refunded call process event' (text "expired, refund") p₁ p₂ back in
      let known₂ : get_account call from p₂ ≡ some account =
        get_account_same call from p p₂ (d.same ∙ kept) ∙ known in
      let h₄ = subst (λ l. run_members l call process event' rest p₂ ≡ ok p') member h₃ in
      let h₅ = subst (λ o. run_from o call process event' from rest p₂ ≡ ok p') known₂ h₄ in
      let h₆ =
        subst
          (λ x.
            finish_event (wish_of call account rest x) call process event' account rest p₂ ≡ ok p')
          bare h₅ in
      let whole : issue_asset call account rest p₂ ≡ p' = ok_injective h₆ in
      let (issued, kept₂) = issue-sent call account rest p₂ in
      (
        d.request,
        subst (λ (x : Proxy). Holds (group_txrequest d.request) x.sent) whole
            (kept₂ (group_txrequest d.request)
              (rw d.sent (Holds-append_right _ p₁.sent _ (inl refl)))),
        d.amount,
        d.members ∙ member,
        subst (λ (x : Proxy). Paid call account rest x.sent) whole issued,
      )

  -- An event that came too late, without further data, is paid twice when it is handled with success:
  -- back to its member by a request to the group, and to the account of the member by an issue of
  -- tokens that are transferred to it, both of the amount less the transfer fee. The event has one member, who has an account;
  -- its asset has a symbol at the contract; its amount is not too large, and above the fee.
  pub late_event_twice :
      (call : Call) (process account from symbol : ℕ) (event : TxEvent) (p p' : Proxy)
      → IsLate call event
      → event.extra ≡ []
      → event.members ≡ from ∷ []
      → get_account call from p ≡ some account
      → get_symbol call event.asset p ≡ ok symbol
      → ltb max_amount event.amount ≡ false
      → signed_le (event.amount % 2 ^ 64) (get_transfer_fee call symbol p).amount ≡ false
      → handle_event_no_nonce_checking call process event p ≡ ok p'
      → (r : TxRequest) × Holds (group_txrequest r) p'.sent
        × (r.amount ≡ uint128_sub event.amount (get_transfer_fee call symbol p).amount)
        × (r.members ≡ from ∷ [])
        × Paid call account
            (record {
              amount =
                  (event.amount % 2 ^ 64 + (2 ^ 64 - (get_transfer_fee call symbol p).amount))
                  % 2 ^ 64;
              symbol = symbol;
            })
            p'.sent
  unfolding handle_event_no_nonce_checking handle_at handle_known get_symbol
  late_event_twice call process account from symbol event p p' late bare member known priced small
        more h =
      elim (Option-cases (search by_asset_id p.mixinassets call.receiver event.asset)) [
        | inl e ↦ let c : panic ≡ ok symbol = rw e at priced in cc
        | inr (k, e) ↦
            late_amount_twice call process account from event (get_transfer_fee call symbol p)
              (record { amount = event.amount % 2 ^ 64; symbol = symbol }) p p' late bare member
              known more (rw (e, small, priced) at h)
      ]
