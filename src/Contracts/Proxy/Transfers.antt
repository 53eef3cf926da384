-- ===== src/Contracts/Proxy/Transfers.antt =====
-- Assets, fees and the actions that mvm/eos/contracts/mixinproxy/mixinproxy.go sends.
use trusted_group.Base.{
  ℕ, ◌+◌, ◌%◌, ◌^◌, Bytes, ◌==◌, [], ◌∷◌, Option, none, some, text, if◌then◌else◌, Outcome, ok,
  panic, ◌>>=◌,
}
use trusted_group.External.{ChainAsset, Tables, Chaining, Call}
use trusted_group.Contracts.{is_found, must_find}
use trusted_group.Contracts.Mtg.{TxRequest}
use trusted_group.Contracts.Proxy.{
  Proxy, MixinAsset, TxEvent, token_create, token_issue, token_retire, token_transfer,
  group_txrequest, own_error, send, mixin_wtokens,
}
use trusted_group.Contracts.Proxy.Nonces.{get_next_tx_request_nonce}

abbrev pub max_supply : ℕ
max_supply = 100000000000000

module _ ⦃tables : Tables⦄ where
  open tables use {find, put, store, search}

  module _ ⦃chaining : Chaining⦄ where
    open chaining use {symbol_code, new_symbol}

    unfoldable pub asset_id_at : Option MixinAsset → Option ℕ
    asset_id_at none = none
    asset_id_at (some asset) = some asset.asset_id

    unfoldable pub get_mixin_asset_id : Call → ℕ → Proxy → Option ℕ
    unfolding asset_id_at
    get_mixin_asset_id call sym p = asset_id_at (find p.mixinassets call.receiver (symbol_code sym))

    unfoldable pub fee_or_zero : Option ChainAsset → ℕ → ChainAsset
    fee_or_zero none sym = record { amount = 0; symbol = sym }
    fee_or_zero (some fee) sym = fee

    unfoldable pub get_transfer_fee : Call → ℕ → Proxy → ChainAsset
    unfolding fee_or_zero
    get_transfer_fee call sym p =
        fee_or_zero (find p.transferfees call.receiver (symbol_code sym)) sym

    unfoldable pub get_create_account_fee : Proxy → ChainAsset
    unfolding fee_or_zero
    get_create_account_fee p = fee_or_zero p.createaccfee (new_symbol (text "MEOS") 8)

    unfoldable pub add_to_total : Option ChainAsset → Call → ChainAsset → Proxy → Outcome Proxy
    add_to_total (some total) call fee p = ok (record p {
      totalfees =
          put p.totalfees call.receiver (symbol_code fee.symbol)
            (record total { amount = (total.amount + fee.amount) % 2 ^ 64 });
    })
    add_to_total none call fee p = do
      r ← store p.totalfees call.receiver (symbol_code fee.symbol) fee
      ok (record p { totalfees = r })

    unfoldable pub add_fee : Call → ChainAsset → Proxy → Outcome Proxy
    unfolding add_to_total
    add_fee call fee p =
        add_to_total (find p.totalfees call.receiver (symbol_code fee.symbol)) call fee p

    abbrev pub by_asset_id : MixinAsset → ℕ
    by_asset_id asset = asset.asset_id

    unfoldable pub symbol_by : Option ℕ → Call → Proxy → Outcome ℕ
    symbol_by none call p = panic
    symbol_by (some primary) call p = do
      asset ← must_find p.mixinassets call.receiver primary
      ok asset.symbol

    unfoldable pub get_symbol : Call → ℕ → Proxy → Outcome ℕ
    unfolding symbol_by
    get_symbol call asset_id p =
        symbol_by (search by_asset_id p.mixinassets call.receiver asset_id) call p

    -- The token is created at its first issue; then the issue goes to the proxy, and from it to the
    -- account.
    unfoldable pub issue_asset : Call → ℕ → ChainAsset → Proxy → Proxy
    unfolding is_found
    issue_asset call from_account quantity p =
        let code = symbol_code quantity.symbol in
        let create =
          token_create call.receiver (record { amount = max_supply; symbol = quantity.symbol }) in
        let created = if is_found (find p.token_stats code code) then p else send create p in
        send (token_transfer call.receiver call.receiver from_account quantity (text "transfer"))
          (send (token_issue call.receiver quantity) created)

    unfoldable pub show_error : Bytes → Proxy → Proxy
    show_error message p = send (own_error message) p

    -- A request for a transfer out, with the next number.
    unfoldable pub request_transfer : Call → (ℕ → TxRequest) → Proxy → Outcome Proxy
    unfolding get_next_tx_request_nonce
    request_transfer call notify p = do
      (id, p) ← get_next_tx_request_nonce call p
      ok (send (group_txrequest (notify id)) p)

    unfoldable pub refund : Call → ℕ → TxEvent → Bytes → Proxy → Outcome Proxy
    unfolding request_transfer
    refund call process event memo p =
        request_transfer call
          (λ id. record {
            nonce = id;
            contract = call.receiver;
            process = process;
            asset = event.asset;
            members = event.members;
            threshold = event.threshold;
            amount = event.amount;
            extra = memo;
            timestamp = 0;
          })
          p

    unfoldable pub handle_refund : Call → ℕ → ℕ → ℕ → ℕ → Bytes → Proxy → Outcome Proxy
    unfolding request_transfer
    handle_refund call process client_id asset_id amount memo p =
        request_transfer call
          (λ id. record {
            nonce = id;
            contract = call.receiver;
            process = process;
            asset = asset_id;
            members = client_id ∷ [];
            threshold = 1;
            amount = amount;
            extra = memo;
            timestamp = 0;
          })
          p

    unfoldable pub transfer_out_as :
        Option ℕ → Call → ℕ → ℕ → ChainAsset → Bytes → Proxy → Outcome Proxy
    unfolding handle_refund
    transfer_out_as none call process member amount memo p = panic
    transfer_out_as (some asset_id) call process member amount memo p =
        let retired =
          if call.first_receiver == mixin_wtokens then send (token_retire amount) p else p in
        handle_refund call process member asset_id amount.amount memo retired

    unfoldable pub transfer_out : Call → ℕ → ℕ → ChainAsset → Bytes → Proxy → Outcome Proxy
    unfolding transfer_out_as get_mixin_asset_id
    transfer_out call process member amount memo p =
        transfer_out_as (get_mixin_asset_id call amount.symbol p) call process member amount memo p
