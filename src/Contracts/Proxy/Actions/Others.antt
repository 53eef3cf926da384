-- ===== src/Contracts/Proxy/Actions/Others.antt =====
-- The actions of mvm/eos/contracts/mixinproxy/actions.go that take no event leave the nonces and the
-- accounts of users as they are.
use trusted_group.Base.{
  ℕ, ◌≡◌, refl, Bytes, not, ◌==◌, List, [], ◌∷◌, Option, none, some, text, if◌then◌else◌, ok,
  >>=-eq-ok, inl, inr, Bool-cases, subst,
}
use trusted_group.External.{ChainAsset, Tables, Chaining, Call}
use trusted_group.Contracts.{is_found, is_positive, must_find, check->>}
use trusted_group.Contracts.Token.{MixinAccount}
use trusted_group.Contracts.Proxy.{Proxy, ErrorTxEvent, mixin_wtokens, token_retire, send}
use trusted_group.Contracts.Proxy.Accounts.{
  initialize, create_new_account, get_account_name_from_id,
}
use trusted_group.Contracts.Proxy.Transfers.{transfer_out, transfer_out_as, get_mixin_asset_id}
use trusted_group.Contracts.Proxy.Events.{handle_event_no_nonce_checking}
use trusted_group.Contracts.Proxy.Events.Untouched.{
  SameRecords, SameRecords-trans, same_as, either, unchanged,
}
use trusted_group.Contracts.Proxy.Events.Frame.{handle_event-SameRecords, handle_refund-SameRecords}
use trusted_group.Contracts.Proxy.Actions.{
  add_mixin_asset, remove_mixin_asset, set_transfer_fee, set_create_account_fee, exec, exec_first,
  on_transfer, transfer_to_user, transfer_notice, transfer_to_client, get_client_id,
}

module _ ⦃tables : Tables⦄ ⦃chaining : Chaining⦄ where
  open tables use {rows, find, store}
  open chaining use {symbol_code}

  -- A step that takes no event.
  pub data Other (self : ℕ) : Proxy → Proxy → Type 0 where
    initialized :
        (call : Call) {p p' : Proxy}
        → call.receiver ≡ self
        → initialize call p ≡ ok p'
        → Other self p p'
    asset_added :
        (call : Call) (asset_id symbol : ℕ) {p p' : Proxy}
        → call.receiver ≡ self
        → add_mixin_asset call asset_id symbol p ≡ ok p'
        → Other self p p'
    asset_removed :
        (call : Call) (symbol : ℕ) {p p' : Proxy}
        → call.receiver ≡ self
        → remove_mixin_asset call symbol p ≡ ok p'
        → Other self p p'
    fee_set :
        (call : Call) (fee : ChainAsset) {p p' : Proxy}
        → call.receiver ≡ self
        → set_transfer_fee call fee p ≡ ok p'
        → Other self p p'
    account_fee_set :
        (call : Call) (fee : ChainAsset) {p p' : Proxy}
        → call.receiver ≡ self
        → set_create_account_fee call fee p ≡ ok p'
        → Other self p p'
    executed :
        (call : Call) (process executor : ℕ) {p p' : Proxy}
        → call.receiver ≡ self
        → exec call process executor p ≡ ok p'
        → Other self p p'
    noticed :
        (call : Call) (process from to : ℕ) (quantity : ChainAsset) (memo : Bytes) {p p' : Proxy}
        → call.receiver ≡ self
        → transfer_notice call process from to quantity memo p ≡ ok p'
        → Other self p p'
    user_paid :
        (call : Call) (process from to : ℕ) (quantity : ChainAsset) (memo : Bytes) {p p' : Proxy}
        → call.receiver ≡ self
        → on_transfer call process from to quantity memo p ≡ ok p'
        → Other self p p'

  initialize-SameRecords :
      (call : Call) (p p' : Proxy) → initialize call p ≡ ok p' → SameRecords call.receiver p p'
  unfolding initialize create_new_account
  initialize-SameRecords call p p' h =
      let (_, h₁) = check->> (call.has_auth call.receiver) _ h in
      let (_, h₂) = check->> (not (is_found p.accountcache)) _ h₁ in
      let (name, _, h₃) = >>=-eq-ok (get_account_name_from_id call 0) _ h₂ in
      same_as call.receiver p _ p' (record { notes = refl; counter = refl; accounts = refl }) h₃

  add-SameRecords :
      (call : Call) (asset_id symbol : ℕ) (p p' : Proxy)
      → add_mixin_asset call asset_id symbol p ≡ ok p'
      → SameRecords call.receiver p p'
  unfolding add_mixin_asset
  add-SameRecords call asset_id symbol p p' h =
      let (_, h₁) = check->> (call.has_auth call.receiver) _ h in
      let (_, h₂) =
        check->> (not (is_found (find p.mixinassets call.receiver (symbol_code symbol)))) _ h₁ in
      let (r, _, h₃) = >>=-eq-ok (store p.mixinassets call.receiver (symbol_code symbol) _) _ h₂ in
      same_as call.receiver p _ p' (record { notes = refl; counter = refl; accounts = refl }) h₃

  remove-SameRecords :
      (call : Call) (symbol : ℕ) (p p' : Proxy)
      → remove_mixin_asset call symbol p ≡ ok p'
      → SameRecords call.receiver p p'
  unfolding remove_mixin_asset
  remove-SameRecords call symbol p p' h =
      let (_, h₁) = check->> (call.has_auth call.receiver) _ h in
      let (_, h₂) =
        check->> (is_found (find p.mixinassets call.receiver (symbol_code symbol))) _ h₁ in
      same_as call.receiver p _ p' (record { notes = refl; counter = refl; accounts = refl }) h₂

  fee-SameRecords :
      (call : Call) (fee : ChainAsset) (p p' : Proxy)
      → set_transfer_fee call fee p ≡ ok p'
      → SameRecords call.receiver p p'
  unfolding set_transfer_fee
  fee-SameRecords call fee p p' h =
      let (_, h₁) = check->> (call.has_auth call.receiver) _ h in
      let (_, h₂) = check->> (is_positive fee.amount) _ h₁ in
      let (_, h₃) =
        check->> (is_found (find p.mixinassets call.receiver (symbol_code fee.symbol))) _ h₂ in
      same_as call.receiver p _ p' (record { notes = refl; counter = refl; accounts = refl }) h₃

  account_fee-SameRecords :
      (call : Call) (fee : ChainAsset) (p p' : Proxy)
      → set_create_account_fee call fee p ≡ ok p'
      → SameRecords call.receiver p p'
  unfolding set_create_account_fee
  account_fee-SameRecords call fee p p' h =
      let (_, h₁) = check->> (call.has_auth call.receiver) _ h in
      let (_, h₂) = check->> (is_positive fee.amount) _ h₁ in
      same_as call.receiver p _ p' (record { notes = refl; counter = refl; accounts = refl }) h₂

  exec_first-SameRecords :
      (l : List (ℕ × ErrorTxEvent)) (call : Call) (process : ℕ) (p p' : Proxy)
      → exec_first l call process p ≡ ok p'
      → SameRecords call.receiver p p'
  unfolding exec_first
  exec_first-SameRecords [] call process p p' h = cc
  exec_first-SameRecords ((k, e) ∷ rest) call process p p' h =
      let (p₁, handled, h₁) =
        >>=-eq-ok (handle_event_no_nonce_checking call process e.event p) _ h in
      let s = handle_event-SameRecords call process e.event p p₁ handled in
      same_as call.receiver p _ p'
        (record { notes = s.notes; counter = s.counter; accounts = s.accounts }) h₁

  exec-SameRecords :
      (call : Call) (process executor : ℕ) (p p' : Proxy)
      → exec call process executor p ≡ ok p'
      → SameRecords call.receiver p p'
  unfolding exec
  exec-SameRecords call process executor p p' h =
      let (_, h₁) = check->> (call.has_auth executor) _ h in
      exec_first-SameRecords (rows p.errorevents call.receiver) call process p p' h₁

  user-SameRecords :
      (o : Option MixinAccount) (call : Call) (process : ℕ) (q : ChainAsset) (memo : Bytes)
      (p p' : Proxy)
      → transfer_to_user o call process q memo p ≡ ok p'
      → SameRecords call.receiver p p'
  unfolding transfer_to_user
  user-SameRecords none call process q memo p p' h =
      same_as call.receiver p p p' (unchanged call.receiver p) h
  user-SameRecords (some account) call process q memo p p' h =
      let (asset, _, h₁) =
        >>=-eq-ok (must_find p.mixinassets call.receiver (symbol_code q.symbol)) _ h in
      handle_refund-SameRecords call process account.client_id asset.asset_id q.amount memo p p' h₁

  paid-SameRecords :
      (call : Call) (process from to : ℕ) (q : ChainAsset) (memo : Bytes) (p p' : Proxy)
      → on_transfer call process from to q memo p ≡ ok p'
      → SameRecords call.receiver p p'
  unfolding on_transfer
  paid-SameRecords call process from to q memo p p' h =
      either (from == call.receiver) (ok p) _ h
        (same_as call.receiver p p p' (unchanged call.receiver p))
        (user-SameRecords (find p.bindaccounts call.receiver to) call process q memo p p')

  out-SameRecords :
      (o : Option ℕ) (call : Call) (process member : ℕ) (q : ChainAsset) (memo : Bytes)
      (p p' : Proxy)
      → transfer_out_as o call process member q memo p ≡ ok p'
      → SameRecords call.receiver p p'
  unfolding transfer_out_as
  out-SameRecords none call process member q memo p p' h = cc
  out-SameRecords (some asset_id) call process member q memo p p' h =
      let retired = if call.first_receiver == mixin_wtokens then send (token_retire q) p else p in
      let same : SameRecords call.receiver p retired =
        elim (Bool-cases (call.first_receiver == mixin_wtokens)) [
          | inl e ↦ rw e (record { notes = refl; counter = refl; accounts = refl })
          | inr e ↦ rw e (record { notes = refl; counter = refl; accounts = refl })
        ] in
      SameRecords-trans call.receiver p retired p' same
        (handle_refund-SameRecords call process member asset_id q.amount memo retired p' h)

  client-SameRecords :
      (o : Option ℕ) (call : Call) (process : ℕ) (q : ChainAsset) (p p' : Proxy)
      → transfer_to_client o call process q p ≡ ok p'
      → SameRecords call.receiver p p'
  unfolding transfer_to_client transfer_out
  client-SameRecords none call process q p p' h =
      same_as call.receiver p p p' (unchanged call.receiver p) h
  client-SameRecords (some id) call process q p p' h =
      out-SameRecords (get_mixin_asset_id call q.symbol p) call process id q (text "MTGWork") p p' h

  notice-SameRecords :
      (call : Call) (process from to : ℕ) (q : ChainAsset) (memo : Bytes) (p p' : Proxy)
      → transfer_notice call process from to q memo p ≡ ok p'
      → SameRecords call.receiver p p'
  unfolding transfer_notice
  notice-SameRecords call process from to q memo p p' h =
      let stay = same_as call.receiver p p p' (unchanged call.receiver p) in
      either (not (to == call.receiver)) (ok p) _ h stay (λ h₁.
        either (not (call.first_receiver == mixin_wtokens)) (ok p) _ h₁ stay
          (client-SameRecords (get_client_id memo) call process q p p'))

  for_receiver :
      (call : Call) (self : ℕ) (p p' : Proxy)
      → call.receiver ≡ self
      → SameRecords call.receiver p p'
      → SameRecords self p p'
  for_receiver call self p p' e s = subst (λ x. SameRecords x p p') e s

  pub Other-SameRecords : (self : ℕ) (p p' : Proxy) → Other self p p' → SameRecords self p p'
  Other-SameRecords self p p' (initialized call e h) =
      for_receiver call self p p' e (initialize-SameRecords call p p' h)
  Other-SameRecords self p p' (asset_added call asset_id symbol e h) =
      for_receiver call self p p' e (add-SameRecords call asset_id symbol p p' h)
  Other-SameRecords self p p' (asset_removed call symbol e h) =
      for_receiver call self p p' e (remove-SameRecords call symbol p p' h)
  Other-SameRecords self p p' (fee_set call fee e h) =
      for_receiver call self p p' e (fee-SameRecords call fee p p' h)
  Other-SameRecords self p p' (account_fee_set call fee e h) =
      for_receiver call self p p' e (account_fee-SameRecords call fee p p' h)
  Other-SameRecords self p p' (executed call process executor e h) =
      for_receiver call self p p' e (exec-SameRecords call process executor p p' h)
  Other-SameRecords self p p' (noticed call process from to q memo e h) =
      for_receiver call self p p' e (notice-SameRecords call process from to q memo p p' h)
  Other-SameRecords self p p' (user_paid call process from to q memo e h) =
      for_receiver call self p p' e (paid-SameRecords call process from to q memo p p' h)
