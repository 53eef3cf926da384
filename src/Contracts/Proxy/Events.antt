-- ===== src/Contracts/Proxy/Events.antt =====
-- `HandleEventNoNonceChecking` of mvm/eos/contracts/mixinproxy/mixinproxy.go: what an event of the
-- group does.
pub mod Untouched
pub mod Frame
pub mod Expired
use trusted_group.Base.{
  ℕ, ◌+◌, ◌-◌, ◌*◌, ◌/◌, ◌%◌, ◌^◌, Bytes, not, ◌==◌, ltb, leb, length, take, drop, List, [], ◌∷◌,
  Option, none, some, text, le_value, if◌then◌else◌, Outcome, ok, ◌>>=◌, ◌>>◌,
}
use trusted_group.External.{ChainAsset, Tables, Chaining, Call}
use trusted_group.Contracts.{signed_le}
use trusted_group.Contracts.Proxy.{Proxy, ProxyAction, TxEvent, token_transfer, user_action, send}
use trusted_group.Contracts.Proxy.Accounts.{get_account, create_user_account}
use trusted_group.Contracts.Proxy.Transfers.{
  by_asset_id, get_symbol, get_transfer_fee, get_create_account_fee, add_fee, show_error, refund,
  issue_asset,
}

abbrev pub mtg_work_expiration_seconds : ℕ
mtg_work_expiration_seconds = 3 * 60

-- What an event asks for: nothing more, an action, or its money back with a reason.
pub data Wish : Type 0 where
  no_action : Wish
  an_action : ProxyAction → Wish
  money_back : Bytes → Wish

module _ ⦃chaining : Chaining⦄ where
  open chaining use {new_name, new_symbol, max_amount, uint128_sub}

  unfoldable pub wish_of : Call → ℕ → ChainAsset → Bytes → Wish
  unfolding le_value
  wish_of call from_account quantity extra =
      if length extra == 0
      then no_action
      else if leb (length extra) 12
      then (if not (call.is_account (new_name extra))
          then money_back (text "account does not exists, refund")
          else an_action (
              token_transfer from_account from_account (new_name extra) quantity (text "xtranfer")))
      else if ltb (length extra) (8 * 2)
      then money_back (text "invalid action data, refund!")
      else if not (call.is_account (le_value (take 8 extra)))
      then money_back (text "invalid account name, refund")
      else an_action (
          user_action from_account (le_value (take 8 extra)) (le_value (take 8 (drop 8 extra)))
            (drop 16 extra))

  module _ ⦃tables : Tables⦄ where
    open tables use {search}

    unfoldable pub finish_event : Wish → Call → ℕ → TxEvent → ℕ → ChainAsset → Proxy → Outcome Proxy
    unfolding issue_asset
    finish_event no_action call process event from_account quantity p =
        ok (issue_asset call from_account quantity p)
    finish_event (an_action a) call process event from_account quantity p =
        ok (send a (issue_asset call from_account quantity p))
    finish_event (money_back memo) call process event from_account quantity p =
        refund call process event memo p

    unfoldable pub run_event : Call → ℕ → TxEvent → ℕ → ChainAsset → Proxy → Outcome Proxy
    unfolding finish_event wish_of
    run_event call process event from_account quantity p =
        finish_event (wish_of call from_account quantity event.extra) call process event
          from_account quantity p

    -- The account is made first, for a fee if there is one.
    unfoldable pub run_new : Call → ℕ → TxEvent → ℕ → ChainAsset → Proxy → Outcome Proxy
    unfolding run_event
    run_new call process event from quantity p = do
      (account, p) ← create_user_account call from p
      run_event call process event account quantity p

    unfoldable pub pay_for_account : Call → ℕ → TxEvent → ℕ → ChainAsset → Proxy → Outcome Proxy
    unfolding run_new signed_le
    pay_for_account call process event from quantity p =
        let fee = get_create_account_fee p in
        if fee.amount == 0
        then run_new call process event from quantity p
        else if not (quantity.symbol == new_symbol (text "MEOS") 8)
        then ok (show_error (text "invalid asset for creating account") p)
        else if not (signed_le fee.amount quantity.amount)
        then ok (show_error (text "not enough fee for creating account") p)
        else run_new call process event from
            (record quantity { amount = (quantity.amount + (2 ^ 64 - fee.amount)) % 2 ^ 64 }) p

    unfoldable pub run_from : Option ℕ → Call → ℕ → TxEvent → ℕ → ChainAsset → Proxy → Outcome Proxy
    unfolding run_event pay_for_account
    run_from none call process event from quantity p =
        pay_for_account call process event from quantity p
    run_from (some account) call process event from quantity p =
        run_event call process event account quantity p

    unfoldable pub run_members : List ℕ → Call → ℕ → TxEvent → ChainAsset → Proxy → Outcome Proxy
    unfolding run_from
    run_members (from ∷ []) call process event quantity p =
        run_from (get_account call from p) call process event from quantity p
    run_members members call process event quantity p =
        ok (show_error (text "multisig event not supported currently") p)

    -- An event that came too late is refunded, and then handled all the same.
    unfoldable pub refund_expired : Call → ℕ → TxEvent → Proxy → Outcome Proxy
    refund_expired call process event p =
        if ltb ((event.timestamp / 1000000000 % 2 ^ 32 + mtg_work_expiration_seconds) % 2 ^ 32)
          call.current_seconds
        then refund call process event (text "expired, refund") p
        else ok p

    unfoldable pub handle_amount :
        Call → ℕ → TxEvent → ChainAsset → ChainAsset → Proxy → Outcome Proxy
    unfolding signed_le refund_expired run_members
    handle_amount call process event fee quantity p =
        if signed_le quantity.amount fee.amount
        then (add_fee call quantity p >>= λ p.
            ok (show_error (text "transfer amount is less than fee") p))
        else (do
          p ← add_fee call fee p
          let quantity = record quantity {
            amount = (quantity.amount + (2 ^ 64 - fee.amount)) % 2 ^ 64;
          }
          let event = record event { amount = uint128_sub event.amount fee.amount }
          p ← refund_expired call process event p
          run_members event.members call process event quantity p)

    unfoldable pub handle_known : Call → ℕ → TxEvent → Proxy → Outcome Proxy
    unfolding handle_amount
    handle_known call process event p =
        if ltb max_amount event.amount then ok (show_error (text "amount too large") p) else (do
          symbol ← get_symbol call event.asset p
          handle_amount call process event (get_transfer_fee call symbol p)
              (record { amount = event.amount % 2 ^ 64; symbol = symbol }) p)

    unfoldable pub handle_at : Option ℕ → Call → ℕ → TxEvent → Proxy → Outcome Proxy
    unfolding handle_known
    handle_at none call process event p = ok p
    handle_at (some primary) call process event p = handle_known call process event p

    unfoldable pub handle_event_no_nonce_checking : Call → ℕ → TxEvent → Proxy → Outcome Proxy
    unfolding handle_at
    handle_event_no_nonce_checking call process event p =
        handle_at (search by_asset_id p.mixinassets call.receiver event.asset) call process event p
