-- ===== src/Contracts/Mtg.antt =====
-- mvm/eos/contracts/mtg.xin/mtg.xin.go: the contract of the group on the EOS chain, with the signers,
-- the processes and the log of the requests for transfers.
pub mod Setup
pub mod Requests
pub mod Processes
pub mod Runs
use trusted_group.Base.{
  ℕ, zero, suc, ◌+◌, ◌*◌, ◌%◌, ◌^◌, Bytes, not, ◌==◌, length, List, [], ◌∷◌, ◌++◌, Option, none,
  some, Outcome, ok, ◌>>=◌, ◌>>◌,
}
use trusted_group.External.{Tables, Chaining, Call, check}
use trusted_group.Contracts.{is_found, must_find}
use trusted_group.Contracts.Signatures.{ContractSigner, verify_signatures}

abbrev pub key_tx_request_seq : ℕ
key_tx_request_seq = 1

pub record ContractProcess : Type 0 where
  pub contract : ℕ
  pub process : ℕ

pub record TxLog : Type 0 where
  pub id : ℕ
  pub nonce : ℕ
  pub contract : ℕ
  pub process : ℕ
  pub asset : ℕ
  pub members : List ℕ
  pub threshold : ℕ
  pub amount : ℕ
  pub extra : Bytes
  pub timestamp : ℕ

-- The request that a contract sends to the group (mvm/eos/contracts/mixinproxy/structs.go); the
-- contract of the group takes all but the time from it.
pub record TxRequest : Type 0 where
  pub nonce : ℕ
  pub contract : ℕ
  pub process : ℕ
  pub asset : ℕ
  pub members : List ℕ
  pub threshold : ℕ
  pub amount : ℕ
  pub extra : Bytes
  pub timestamp : ℕ

module _ ⦃tables : Tables⦄ where
  open tables use {Rows, find, put, store, remove, rows}

  -- The tables, and the actions `ontxlog` that were sent.
  pub record MtgContract : Type 0 where
    pub processes : Rows ContractProcess
    pub signers : Rows ContractSigner
    pub counters : Rows ℕ
    pub logs : List TxLog

  -- `for { it := db.Lowerbound(0); if !it.IsOk() { break }; db.Remove(it) }`
  clear_rows : {V : Type 0} → ℕ → List (ℕ × V) → Rows V → ℕ → Rows V
  clear_rows fuel [] r scope = r
  clear_rows zero (x ∷ l) r scope = r
  clear_rows (suc fuel) ((k, v) ∷ l) r scope =
      let r' = remove r scope k in clear_rows fuel (rows r' scope) r' scope

  -- As much fuel as there are rows.
  unfoldable pub clear_table : {V : Type 0} → Rows V → ℕ → Rows V
  unfolding clear_rows
  clear_table r scope = clear_rows (length (rows r scope)) (rows r scope) r scope

  unfoldable pub store_signers :
      Call → List ContractSigner → Rows ContractSigner → Outcome (Rows ContractSigner)
  store_signers call [] r = ok r
  store_signers call (signer ∷ rest) r = do
    check (call.is_account signer.account)
    r ← store r call.receiver signer.account signer
    store_signers call rest r

  unfoldable pub setup : Call → List ContractSigner → MtgContract → Outcome MtgContract
  unfolding clear_table store_signers
  setup call signers m = do
    r ← store_signers call signers (clear_table m.signers call.receiver)
    ok (record m { signers = r })

  unfoldable pub count_from : Option ℕ → ℕ → ℕ → Rows ℕ → Outcome (ℕ × Rows ℕ)
  count_from (some count) scope key r = ok (count, put r scope key ((count + 1) % 2 ^ 64))
  count_from none scope key r = do r ← store r scope key 1; ok (0, r)

  unfoldable pub get_next_index : Call → ℕ → MtgContract → Outcome (ℕ × MtgContract)
  unfolding count_from
  get_next_index call key m = do
    (index, r) ← count_from (find m.counters call.receiver key) call.receiver key m.counters
    ok (index, record m { counters = r })

  unfoldable pub get_next_seq : Call → MtgContract → Outcome (ℕ × MtgContract)
  unfolding get_next_index
  get_next_seq call m = get_next_index call key_tx_request_seq m

  unfoldable pub log_of : Call → ℕ → TxRequest → TxLog
  log_of call seq r = record {
    id = seq;
    nonce = r.nonce;
    contract = r.contract;
    process = r.process;
    asset = r.asset;
    members = r.members;
    threshold = r.threshold;
    amount = r.amount;
    extra = r.extra;
    timestamp = (call.current_time * 1000) % 2 ^ 64;
  }

  unfoldable pub tx_requested : Call → TxRequest → MtgContract → Outcome MtgContract
  unfolding get_next_seq log_of
  tx_requested call r m = do
    check (call.has_auth r.contract)
    item ← must_find m.processes call.receiver r.contract
    check (item.process == r.process)
    (seq, m) ← get_next_seq call m
    ok (record m { logs = m.logs ++ (log_of call seq r ∷ []) })

  module _ ⦃chaining : Chaining⦄ where
    open chaining use {pack_name, pack_uint128}

    unfoldable pub add_contract_process :
        Call → ℕ → ℕ → List Bytes → MtgContract → Outcome MtgContract
    unfolding is_found
    add_contract_process call contract process signatures m = do
      check (call.is_account contract)
      verify_signatures m.signers call.receiver (pack_name contract ++ pack_uint128 process)
          signatures
      check (not (is_found (find m.processes call.receiver contract)))
      r ←
          store m.processes call.receiver contract
            (record { contract = contract; process = process })
      ok (record m { processes = r })
