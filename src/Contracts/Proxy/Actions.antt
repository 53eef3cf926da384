-- ===== src/Contracts/Proxy/Actions.antt =====
-- The actions of mvm/eos/contracts/mixinproxy/actions.go.
pub mod Others
pub mod Accepted
pub mod Unopened
use trusted_group.Base.{
  ℕ, ◌+◌, ◌-◌, ◌*◌, ◌%◌, runes, decode_hex, le_value, Bytes, not, ◌==◌, ltb, leb, length, take,
  drop, List, [], ◌∷◌, Option, none, some, text, if◌then◌else◌, Outcome, ok, panic, panic_if, ◌>>=◌,
  ◌>>◌,
}
use trusted_group.External.{ChainAsset, Tables, Chaining, Call, check}
use trusted_group.Contracts.{is_found, is_positive, must_find}
use trusted_group.Contracts.Token.{MixinAccount}
use trusted_group.Contracts.Signatures.{verify_signatures}
use trusted_group.Contracts.Proxy.{Proxy, TxEvent, ErrorTxEvent, mtg_xin, mixin_wtokens}
use trusted_group.Contracts.Proxy.Nonces.{get_nonce, store_nonce, check_nonce}
use trusted_group.Contracts.Proxy.Transfers.{handle_refund, transfer_out}
use trusted_group.Contracts.Proxy.Events.{handle_event_no_nonce_checking}

dashless : List ℕ → Bytes
dashless [] = []
dashless (c ∷ cs) = let rest = dashless cs in if c == b'-' then rest else (c % 256) ∷ rest

id_of_hex : Option Bytes → Option ℕ
unfolding le_value
id_of_hex none = none
id_of_hex (some h) = some (le_value h)

-- `GetClientId` of mvm/eos/contracts/mixinproxy/utils.go: the identifier in a memo.
unfoldable pub get_client_id : Bytes → Option ℕ
unfolding dashless id_of_hex runes decode_hex
get_client_id memo =
    if not (length memo == 36)
    then none
    else let client_id = dashless (runes memo) in
      if not (length client_id == 32) then none else id_of_hex (decode_hex client_id)

-- What the build of the contract generates: the decoder of an event, which also gives the number of
-- the bytes that it read, and the library's decoder of a text.
pub record Unpacking : Type 0 where
  pub unpack_event : Bytes → Outcome (TxEvent × ℕ)
  pub unpack_string : Bytes → Outcome Bytes

-- `data[:size-1-len(signatures)*66]`, with the panic of a slice to a negative length.
abbrev pub signed_part : ℕ → List Bytes → Bytes → Outcome Bytes
signed_part size signatures message = do
  panic_if (ltb size (1 + length signatures * 66))
  ok (take (size - 1 - length signatures * 66) message)

module _ ⦃tables : Tables⦄ ⦃chaining : Chaining⦄ where
  open tables use {find, put, store, remove, rows}
  open chaining use {symbol_code}

  unfoldable pub add_mixin_asset : Call → ℕ → ℕ → Proxy → Outcome Proxy
  unfolding is_found
  add_mixin_asset call asset_id symbol p = do
    check (call.has_auth call.receiver)
    check (not (is_found (find p.mixinassets call.receiver (symbol_code symbol))))
    r ←
        store p.mixinassets call.receiver (symbol_code symbol)
          (record { symbol = symbol; asset_id = asset_id })
    ok (record p { mixinassets = r })

  unfoldable pub remove_mixin_asset : Call → ℕ → Proxy → Outcome Proxy
  unfolding is_found
  remove_mixin_asset call symbol p = do
    check (call.has_auth call.receiver)
    check (is_found (find p.mixinassets call.receiver (symbol_code symbol)))
    ok (record p { mixinassets = remove p.mixinassets call.receiver (symbol_code symbol) })

  unfoldable pub set_transfer_fee : Call → ChainAsset → Proxy → Outcome Proxy
  unfolding is_found is_positive
  set_transfer_fee call fee p = do
    check (call.has_auth call.receiver)
    check (is_positive fee.amount)
    check (is_found (find p.mixinassets call.receiver (symbol_code fee.symbol)))
    ok (record p { transferfees = put p.transferfees call.receiver (symbol_code fee.symbol) fee })

  unfoldable pub set_create_account_fee : Call → ChainAsset → Proxy → Outcome Proxy
  unfolding is_positive
  set_create_account_fee call fee p = do
    check (call.has_auth call.receiver)
    check (is_positive fee.amount)
    ok (record p { createaccfee = some fee })

  module _ ⦃unpacking : Unpacking⦄ where
    open unpacking use {unpack_event, unpack_string}

    unfoldable pub on_event : Call → ℕ → Bytes → Proxy → Outcome Proxy
    unfolding verify_signatures check_nonce handle_event_no_nonce_checking
    on_event call process message p = do
      (event, size) ← unpack_event message
      part ← signed_part (length message) event.signatures message
      verify_signatures p.signers mtg_xin part event.signatures
      check (event.process == process)
      p ← check_nonce call event.nonce p
      handle_event_no_nonce_checking call process event p

    unfoldable pub on_error_event : Call → ℕ → Bytes → Proxy → Outcome Proxy
    unfolding verify_signatures get_nonce store_nonce is_found
    on_error_event call process message p = do
      (event, size) ← unpack_event message
      part ← signed_part size event.signatures message
      verify_signatures p.signers mtg_xin part event.signatures
      check (event.process == process)
      reason ← unpack_string (drop size message)
      (nonce, p) ← get_nonce call p
      check (leb nonce event.nonce)
      p ← store_nonce call event.nonce p
      check (not (is_found (find p.errorevents call.receiver event.nonce)))
      r ← store p.errorevents call.receiver event.nonce (record { event = event; reason = reason })
      ok (record p { errorevents = r })

  unfoldable pub exec_first : List (ℕ × ErrorTxEvent) → Call → ℕ → Proxy → Outcome Proxy
  unfolding handle_event_no_nonce_checking
  exec_first [] call process p = panic
  exec_first ((k, error_event) ∷ rest) call process p = do
    p ← handle_event_no_nonce_checking call process error_event.event p
    ok (record p { errorevents = remove p.errorevents call.receiver k })

  unfoldable pub exec : Call → ℕ → ℕ → Proxy → Outcome Proxy
  unfolding exec_first
  exec call process executor p = do
    check (call.has_auth executor)
    exec_first (rows p.errorevents call.receiver) call process p

  -- `ontransfer`: as in the source, no authority is asked for.
  unfoldable pub transfer_to_user :
      Option MixinAccount → Call → ℕ → ChainAsset → Bytes → Proxy → Outcome Proxy
  unfolding handle_refund
  transfer_to_user none call process quantity memo p = ok p
  transfer_to_user (some account) call process quantity memo p = do
    asset ← must_find p.mixinassets call.receiver (symbol_code quantity.symbol)
    handle_refund call process account.client_id asset.asset_id quantity.amount memo p

  unfoldable pub on_transfer : Call → ℕ → ℕ → ℕ → ChainAsset → Bytes → Proxy → Outcome Proxy
  unfolding transfer_to_user
  on_transfer call process from to quantity memo p =
      if from == call.receiver
      then ok p
      else transfer_to_user (find p.bindaccounts call.receiver to) call process quantity memo p

  unfoldable pub transfer_to_client : Option ℕ → Call → ℕ → ChainAsset → Proxy → Outcome Proxy
  unfolding transfer_out
  transfer_to_client none call process quantity p = ok p
  transfer_to_client (some client_id) call process quantity p =
      transfer_out call process client_id quantity (text "MTGWork") p

  -- The notice of a transfer.
  unfoldable pub transfer_notice : Call → ℕ → ℕ → ℕ → ChainAsset → Bytes → Proxy → Outcome Proxy
  unfolding transfer_to_client get_client_id
  transfer_notice call process from to quantity memo p =
      if not (to == call.receiver)
      then ok p
      else if not (call.first_receiver == mixin_wtokens)
      then ok p
      else transfer_to_client (get_client_id memo) call process quantity p
