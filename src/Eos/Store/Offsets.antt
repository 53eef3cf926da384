-- ===== src/Eos/Store/Offsets.antt =====
-- The offsets of mvm/eos/store.go: one for each contract, and one for the requests.
use trusted_group.Base.{
  ℕ, ◌<◌, ◌^◌, ◌≡◌, refl, Bytes, false, beq, ◌++◌, uint64_bytes, uint64_value-uint64_bytes,
  if◌then◌else◌, ok, Bool-cases, inl, inr,
}
use trusted_group.External.{Database}
use trusted_group.Store.Txn.{NoFaults, read, write, update}
use trusted_group.Eos.Store.{
  store_read_contract_logs_offset, store_write_contract_logs_offset, store_read_tx_request_nonce,
  prefix_eos_contract_log_offset, prefix_tx_request_nonce,
}

logs_apart :
    (a b : Bytes)
    → beq (prefix_eos_contract_log_offset ++ a) (prefix_eos_contract_log_offset ++ b) ≡ beq a b
unfolding beq
logs_apart a b = refl

nonce_apart :
    (a : Bytes) → beq (prefix_eos_contract_log_offset ++ a) prefix_tx_request_nonce ≡ false
unfolding beq
nonce_apart a = refl

module _ ⦃database : Database⦄ where
  open database use {Db, set, get-set}

  -- On a disk without faults the offset of a contract is stored, for an offset of 64 bits. It is read
  -- back at the address of the contract; the offset of every other address and the nonce of the
  -- requests are read as before.
  pub store_write_contract_logs_offset_lem :
      (d : Db) (address : Bytes) (offset : ℕ)
      → NoFaults
      → offset < 2 ^ 64
      → (d' : Db) × (store_write_contract_logs_offset d address offset ≡ ok d')
        × ((other : Bytes)
            → store_read_contract_logs_offset d' other
              ≡ (if beq address other then ok offset else store_read_contract_logs_offset d other))
        × (store_read_tx_request_nonce d' ≡ store_read_tx_request_nonce d)
  unfolding store_write_contract_logs_offset store_read_contract_logs_offset
      store_read_tx_request_nonce read write update
  store_write_contract_logs_offset_lem d address offset nf range =
      let key = prefix_eos_contract_log_offset ++ address in
      let d' = set d key (uint64_bytes offset) in
      (
        d',
        rw (nf.writes d key, nf.commits d') refl,
        λ other.
            rw
              (
                nf.reads d' (prefix_eos_contract_log_offset ++ other),
                nf.reads d (prefix_eos_contract_log_offset ++ other),
                get-set d key (uint64_bytes offset) (prefix_eos_contract_log_offset ++ other),
                logs_apart address other,
              )
              (elim (Bool-cases (beq address other)) [
                | inl same ↦ rw same (uint64_value-uint64_bytes offset range)
                | inr differ ↦ rw differ refl
              ]),
        rw
            (
              nf.reads d' prefix_tx_request_nonce,
              nf.reads d prefix_tx_request_nonce,
              get-set d key (uint64_bytes offset) prefix_tx_request_nonce,
              nonce_apart address,
            )
            refl,
      )
