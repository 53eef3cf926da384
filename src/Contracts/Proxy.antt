-- ===== src/Contracts/Proxy.antt =====
-- mvm/eos/contracts/mixinproxy: the contract that stands for the users of Mixin on the EOS chain. It
-- takes events of the group, issues tokens for them, and asks the group for transfers out. This file
-- has its tables (tables.go) and what it sends.
pub mod Nonces
pub mod Accounts
pub mod Transfers
pub mod Events
pub mod Actions
use trusted_group.Base.{ℕ, Bytes, List, [], ◌∷◌, ◌++◌, Option, text, Outcome, ok, ◌>>=◌}
use trusted_group.External.{ChainAsset, Tables, Chaining, Call}
use trusted_group.Contracts.{must_find}
use trusted_group.Contracts.Token.{CurrencyStats, MixinAccount}
use trusted_group.Contracts.Mtg.{ContractProcess, TxRequest}
use trusted_group.Contracts.Signatures.{ContractSigner}

abbrev pub key_nonce : ℕ
key_nonce = 1

abbrev pub key_tx_out_index : ℕ
key_tx_out_index = 2

abbrev pub key_account_index : ℕ
key_account_index = 5

-- An event of the group; its amount and its identifiers are `Uint128` numbers.
pub record TxEvent : Type 0 where
  pub nonce : ℕ
  pub process : ℕ
  pub asset : ℕ
  pub members : List ℕ
  pub threshold : ℕ
  pub amount : ℕ
  pub extra : Bytes
  pub timestamp : ℕ
  pub signatures : List Bytes

pub record ErrorTxEvent : Type 0 where
  pub event : TxEvent
  pub reason : Bytes

pub record AccountCache : Type 0 where
  pub id : ℕ
  pub account : ℕ

pub record MixinAsset : Type 0 where
  pub symbol : ℕ
  pub asset_id : ℕ

-- The inline actions of the proxy: to the contract of the tokens, to the contract of the group, to
-- itself, to the system, and those that an event asks for.
pub data ProxyAction : Type 0 where
  token_create : (issuer : ℕ) → ChainAsset → ProxyAction
  token_issue : (to : ℕ) → ChainAsset → ProxyAction
  token_retire : ChainAsset → ProxyAction
  token_transfer : (actor from to : ℕ) → ChainAsset → Bytes → ProxyAction
  group_txrequest : TxRequest → ProxyAction
  own_error : Bytes → ProxyAction
  system_newaccount : (creator owner name : ℕ) → ProxyAction
  system_buyram : (creator name bytes : ℕ) → ProxyAction
  user_action : (actor account name : ℕ) → Bytes → ProxyAction

module _ ⦃tables : Tables⦄ where
  open tables use {Rows}

  -- The tables of the proxy, those of other contracts that it reads, and what it sent.
  pub record Proxy : Type 0 where
    pub processes : Rows ContractProcess
    pub signers : Rows ContractSigner
    pub token_stats : Rows CurrencyStats
    pub mixinassets : Rows MixinAsset
    pub transferfees : Rows ChainAsset
    pub totalfees : Rows ChainAsset
    pub submittedevs : Rows ℕ
    pub counters : Rows ℕ
    pub errorevents : Rows ErrorTxEvent
    pub bindaccounts : Rows MixinAccount
    pub accountcache : Option AccountCache
    pub createaccfee : Option ChainAsset
    pub sent : List ProxyAction

  abbrev pub send : ProxyAction → Proxy → Proxy
  send a p = record p { sent = p.sent ++ (a ∷ []) }

  module _ ⦃chaining : Chaining⦄ where
    open chaining use {new_name}

    abbrev pub mtg_xin : ℕ
    mtg_xin = new_name (text "mtgxinmtgxin")

    abbrev pub mixin_wtokens : ℕ
    mixin_wtokens = new_name (text "mixinwtokens")

    abbrev pub account_owner : ℕ
    account_owner = new_name (text "mtgxinmtgxin")

    -- `NewContract` gives the process of the contract that runs.
    unfoldable pub contract_process : Call → Proxy → Outcome ℕ
    contract_process call p = do
      record_of ← must_find p.processes mtg_xin call.receiver
      ok record_of.process
