-- ===== src/Contracts/Token.antt =====
-- mvm/eos/contracts/mixinproxy/token/token.go: the contract of the tokens that stand for the assets
-- of Mixin on the EOS chain.
pub mod Sums
pub mod Effects
pub mod Backing
pub mod Supply
pub mod Transfers
pub mod Apart
pub mod Conservation
use trusted_group.Base.{
  ℕ, ◌+◌, ◌-◌, ◌%◌, ◌^◌, Bytes, not, ◌==◌, leb, length, List, [], ◌∷◌, ◌++◌, Option, none, some,
  text, if◌then◌else◌, Outcome, ok, ◌>>=◌, ◌>>◌,
}
use trusted_group.External.{ChainAsset, Tables, Chaining, Call, check}
use trusted_group.Contracts.{is_positive, signed_le, is_found, must_find}

pub record CurrencyStats : Type 0 where
  pub supply : ChainAsset
  pub max_supply : ChainAsset
  pub issuer : ℕ

pub record MixinAccount : Type 0 where
  pub eos_account : ℕ
  pub client_id : ℕ

-- What an action of the token contract sends: a notice, or an inline action by the authority of an
-- account.
pub data Sent : Type 0 where
  recipient : ℕ → Sent
  send_retireex : (actor contract : ℕ) → ℕ → ChainAsset → Bytes → Sent
  send_ontransfer : (actor contract : ℕ) → ℕ → ℕ → ChainAsset → Bytes → Sent

module _ ⦃tables : Tables⦄ where
  open tables use {Rows, find, put, store, remove}

  -- The tables, each with a scope and a key, and what was sent.
  pub record Ledger : Type 0 where
    pub accounts : Rows ChainAsset
    pub stats : Rows CurrencyStats
    pub bindaccounts : Rows MixinAccount
    pub sent : List Sent

  module _ ⦃chaining : Chaining⦄ where
    open chaining use {new_name, symbol_code, symbol_valid, asset_valid, asset_add, asset_sub}

    abbrev pub master_account : ℕ
    master_account = new_name (text "mixincrossss")

    abbrev pub code : ChainAsset → ℕ
    code quantity = symbol_code quantity.symbol

    unfoldable pub create : Call → ℕ → ChainAsset → Ledger → Outcome Ledger
    unfolding is_positive is_found
    create call issuer maximum_supply t = do
      check (call.has_auth call.receiver)
      check (symbol_valid maximum_supply.symbol)
      check (asset_valid maximum_supply)
      check (is_positive maximum_supply.amount)
      check (not (is_found (find t.stats (code maximum_supply) (code maximum_supply))))
      stats ← store t.stats (code maximum_supply) (code maximum_supply) (record {
        supply = record { amount = 0; symbol = maximum_supply.symbol };
        max_supply = maximum_supply;
        issuer = issuer;
      })
      ok (record t { stats = stats })

    unfoldable pub sub_balance : ℕ → ChainAsset → Ledger → Outcome Ledger
    unfolding signed_le
    sub_balance owner value t = do
      balance ← must_find t.accounts owner (code value)
      check (signed_le value.amount balance.amount)
      balance ← asset_sub balance value
      ok (record t { accounts = put t.accounts owner (code value) balance })

    unfoldable pub add_to_row : Option ChainAsset → ℕ → ChainAsset → Ledger → Outcome Ledger
    add_to_row none owner value t = do
      accounts ← store t.accounts owner (code value) value
      ok (record t { accounts = accounts })
    add_to_row (some balance) owner value t = do
      balance ← asset_add balance value
      ok (record t { accounts = put t.accounts owner (code value) balance })

    unfoldable pub add_balance : ℕ → ChainAsset → Ledger → Outcome Ledger
    unfolding add_to_row
    add_balance owner value t = add_to_row (find t.accounts owner (code value)) owner value t

    unfoldable pub issue : Call → ℕ → ChainAsset → Bytes → Ledger → Outcome Ledger
    unfolding is_positive signed_le
    issue call to quantity memo t = do
      check (symbol_valid quantity.symbol)
      check (leb (length memo) 256)
      item ← must_find t.stats (code quantity) (code quantity)
      check (to == item.issuer)
      check (call.has_auth item.issuer)
      check (asset_valid quantity)
      check (is_positive quantity.amount)
      check (quantity.symbol == item.supply.symbol)
      check (
          signed_le quantity.amount
            ((item.max_supply.amount + (2 ^ 64 - item.supply.amount)) % 2 ^ 64))
      supply ← asset_add item.supply quantity
      add_balance to quantity (record t {
        stats = put t.stats (code quantity) (code quantity) (record item { supply = supply });
      })

    unfoldable pub retire : Call → ChainAsset → Bytes → Ledger → Outcome Ledger
    unfolding is_positive
    retire call quantity memo t = do
      check (symbol_valid quantity.symbol)
      check (leb (length memo) 256)
      item ← must_find t.stats (code quantity) (code quantity)
      check (call.has_auth item.issuer)
      check (asset_valid quantity)
      check (is_positive quantity.amount)
      check (quantity.symbol == item.supply.symbol)
      supply ← asset_sub item.supply quantity
      sub_balance item.issuer quantity (record t {
        stats = put t.stats (code quantity) (code quantity) (record item { supply = supply });
      })

    unfoldable pub retire_ex : Call → ℕ → ChainAsset → Bytes → Ledger → Outcome Ledger
    unfolding is_positive
    retire_ex call account quantity memo t = do
      check (call.has_auth call.receiver)
      check (symbol_valid quantity.symbol)
      check (leb (length memo) 256)
      item ← must_find t.stats (code quantity) (code quantity)
      check (asset_valid quantity)
      check (is_positive quantity.amount)
      check (quantity.symbol == item.supply.symbol)
      supply ← asset_sub item.supply quantity
      ok (record t {
        stats = put t.stats (code quantity) (code quantity) (record item { supply = supply });
      })

    unfoldable pub tx_request : Call → ℕ → ℕ → ChainAsset → Bytes → Ledger → Ledger
    tx_request call from to quantity memo t = record t {
      sent = t.sent ++ (send_ontransfer call.receiver master_account from to quantity memo ∷ []);
    }

    -- A transfer that only moves a balance.
    unfoldable pub move : ℕ → ℕ → ChainAsset → Ledger → Outcome Ledger
    move from to quantity t = do t ← sub_balance from quantity t; add_balance to quantity t

    -- A deposit or a transfer between accounts of the chain moves the balance; one to an account of a
    -- user of Mixin takes it out of the supply, and asks for the transfer.
    unfoldable pub settle_transfer : Call → ℕ → ℕ → ChainAsset → Bytes → Ledger → Outcome Ledger
    unfolding move is_found tx_request
    settle_transfer call from to quantity memo t =
        if from == master_account
        then move from to quantity t
        else if not (is_found (find t.bindaccounts master_account to))
        then move from to quantity t
        else do
          t ← sub_balance from quantity t
          ok (
              tx_request call from to quantity memo (record t {
                sent =
                    t.sent
                    ++ (send_retireex call.receiver call.receiver from quantity
                          (text "retire for transfer out")
                        ∷ []);
              }))

    unfoldable pub transfer : Call → ℕ → ℕ → ChainAsset → Bytes → Ledger → Outcome Ledger
    unfolding is_positive settle_transfer
    transfer call from to quantity memo t = do
      check (not (from == to))
      check (call.has_auth from)
      check (call.is_account to)
      st ← must_find t.stats (code quantity) (code quantity)
      let t = record t { sent = t.sent ++ (recipient to ∷ []) }
      check (asset_valid quantity)
      check (is_positive quantity.amount)
      check (quantity.symbol == st.supply.symbol)
      check (leb (length memo) 256)
      settle_transfer call from to quantity memo t

    unfoldable pub open_row : Option ChainAsset → ℕ → ℕ → Ledger → Outcome Ledger
    open_row (some balance) owner symbol t = ok t
    open_row none owner symbol t = do
      accounts ←
          store t.accounts owner (symbol_code symbol) (record { amount = 0; symbol = symbol })
      ok (record t { accounts = accounts })

    unfoldable pub open_account : Call → ℕ → ℕ → ℕ → Ledger → Outcome Ledger
    unfolding open_row
    open_account call owner symbol ram_payer t = do
      check (call.has_auth ram_payer)
      check (call.is_account owner)
      st ← must_find t.stats (symbol_code symbol) (symbol_code symbol)
      check (st.supply.symbol == symbol)
      open_row (find t.accounts owner (symbol_code symbol)) owner symbol t

    unfoldable pub close_account : Call → ℕ → ℕ → Ledger → Outcome Ledger
    close_account call owner symbol t = do
      check (call.has_auth owner)
      balance ← must_find t.accounts owner (symbol_code symbol)
      check (balance.amount == 0)
      ok (record t { accounts = remove t.accounts owner (symbol_code symbol) })
