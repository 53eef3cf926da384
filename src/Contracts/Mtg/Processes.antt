-- ===== src/Contracts/Mtg/Processes.antt =====
-- `AddProcess` of mvm/eos/contracts/mtg.xin/mtg.xin.go: which processes are registered.
use trusted_group.Base.{
  ℕ, ◌+◌, ◌≡◌, refl, sym, ◌∙◌, subst, ap, Bytes, true, not, ◌==◌, length, List, ◌++◌, Option, none,
  some, arith, if◌then◌else◌, ok, ◌*◌, ◌/◌, >>=-eq-ok, ok_injective,
}
use trusted_group.External.{Tables, Chaining, Call}
use trusted_group.Contracts.{check->>, is_found}
use trusted_group.Contracts.Signatures.{verify_signatures}
use trusted_group.Contracts.Signatures.Approved.{Approved, verify_signatures-Approved}
use trusted_group.Contracts.Mtg.{MtgContract, ContractProcess, add_contract_process}

module _ ⦃tables : Tables⦄ ⦃chaining : Chaining⦄ where
  open tables use {find, store, find-put, store_new, rows}
  open chaining use {sha256, pack_name, pack_uint128}

  -- A process that was added: its signatures, and the tables before and after.
  pub record AddedProcess (call : Call) (contract process : ℕ) (signatures : List Bytes)
      (m m' : MtgContract) : Type 0 where
    pub approved :
        Approved
          (sha256 (pack_name contract ++ pack_uint128 process))
          (rows m.signers call.receiver)
          (length (rows m.signers call.receiver) * 2 / 3 + 1)
          signatures
    pub unknown : find m.processes call.receiver contract ≡ none
    pub exists : call.is_account contract ≡ true
    pub added :
        (k : ℕ)
        → find m'.processes call.receiver k ≡ (
            if contract == k
            then some (record { contract = contract; process = process })
            else find m.processes call.receiver k)
    pub same_logs : m'.logs ≡ m.logs
    pub same_counters : m'.counters ≡ m.counters

  absent : {V : Type 0} (o : Option V) → not (is_found o) ≡ true → o ≡ none
  unfolding is_found
  absent none h = refl
  absent (some v) h = cc

  -- A process is added once, for an account that exists, with distinct signatures of signers for
  -- more than two thirds of their number; the other processes and the log stay.
  pub add_contract_process-AddedProcess :
      (call : Call) (contract process : ℕ) (signatures : List Bytes) (m m' : MtgContract)
      → add_contract_process call contract process signatures m ≡ ok m'
      → AddedProcess call contract process signatures m m'
  unfolding add_contract_process
  add_contract_process-AddedProcess call contract process signatures m m' h =
      let self = call.receiver in
      let p : ContractProcess = record { contract = contract; process = process } in
      let (account, h₁) = check->> (call.is_account contract) _ h in
      let (_, signed, h₂) = >>=-eq-ok (verify_signatures m.signers self _ signatures) _ h₁ in
      let (free, h₃) = check->> (not (is_found (find m.processes self contract))) _ h₂ in
      let none_there = absent (find m.processes self contract) free in
      let (r, stored, h₄) = >>=-eq-ok (store m.processes self contract p) _ h₃ in
      let made = ok_injective (sym (store_new m.processes self contract p none_there) ∙ stored) in
      subst (AddedProcess call contract process signatures m)
        (ap (λ x. record m { processes = x }) made ∙ ok_injective h₄)
        (record {
          approved = verify_signatures-Approved m.signers self _ signatures signed;
          unknown = none_there;
          exists = account;
          added = λ k. rw (find-put m.processes self contract p self k) (ground arith);
          same_logs = refl;
          same_counters = refl;
        })
